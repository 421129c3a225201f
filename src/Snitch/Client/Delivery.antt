-- ===== src/Snitch/Client/Delivery.antt =====
-- Which messages the clients deliver.
use mathlib.Core.Path.{subst}
use gobol.Base.{
  if◌then◌else◌, All, Bool-cases, inl, inr, ◌≡◌, ap, sym, ◌∙◌, refl, ℕ, Bool, true, false, not,
  Option, none, some, List, [], ◌∷◌, ◌++◌, append-nil, append_assoc, map,
}
use gobol.Snitch.Point.{Arithmetic, Message}
use gobol.Snitch.Registry.{Stats, run_job}
use gobol.Snitch.Client.{
  Post, failed, answered, tick, HttpClient, all_marshal, on_post, on_event, check, http_turn,
  http_client, Step, job, post, receive, step, steps, Arrival, payload, udp_turn, udp_turns,
}

abbrev list_of : Option Message → List Message
list_of none = []
list_of (some m) = m ∷ []

-- The messages of all answered payloads, in their order.
abbrev pub delivered : List (ℕ × List Message) → List Message
delivered [] = []
delivered ((status, ms) ∷ rs) = ms ++ delivered rs

delivered-snoc :
    (rs : List (ℕ × List Message)) (status : ℕ) (ms : List Message)
    → delivered (rs ++ (status, ms) ∷ []) ≡ delivered rs ++ ms
delivered-snoc [] status ms = rw append-nil refl
delivered-snoc ((t, ns) ∷ rs) status ms = simp (delivered-snoc rs status ms, append_assoc)

-- The messages that the cron jobs send, whatever becomes of them.
unfoldable pub messages : Arithmetic → List Step → Stats → List Message
messages ops [] st = []
messages ops (job now key ∷ es) st =
    let (o, st') = run_job ops now key st in list_of o ++ messages ops es st'
messages ops (post p ∷ es) st = messages ops es st

-- The client waits for an event, and has taken these messages.
abbrev Holds : List Message → HttpClient → Type 0
Holds ms c = (c.running ≡ true) × (c.terminate ≡ false) × (delivered c.answers ++ c.buffer ≡ ms)

module _ (ops : Arithmetic) (marshals : Message → Bool) where
  receive-Holds :
      (o : Option Message) (ms : List Message) (c : HttpClient)
      → Holds ms c
      → Holds (ms ++ list_of o) (receive marshals o c)
  unfolding receive http_turn on_event check
  receive-Holds none ms c h = rw append-nil h
  receive-Holds (some m) ms c (r, t, h) =
      rw (r, receive, http_turn)
        (
          ap not t,
          t,
          sym (append_assoc (delivered c.answers) c.buffer (m ∷ [])) ∙ ap (λ l. l ++ m ∷ []) h,
        )

  on_post-Holds :
      (p : Post) (ms : List Message) (c : HttpClient) → Holds ms c → Holds ms (on_post marshals p c)
  unfolding on_post
  on_post-Holds failed ms c h = h
  on_post-Holds (answered status) ms c (r, t, h) = (
    r,
    t,
    append-nil (delivered (c.answers ++ (status, c.buffer) ∷ []))
        ∙ delivered-snoc c.answers status c.buffer
        ∙ h,
  )

  if-Holds :
      (b : Bool) (ms : List Message) (c d : HttpClient)
      → Holds ms c
      → Holds ms d
      → Holds ms (if b then c else d)
  if-Holds true ms c d h k = h
  if-Holds false ms c d h k = k

  check-Holds : (ms : List Message) (c : HttpClient) → Holds ms c → Holds ms (check c)
  unfolding check
  check-Holds ms c (r, t, h) = (ap not t, t, h)

  post-Holds :
      (p : Post) (ms : List Message) (c : HttpClient)
      → Holds ms c
      → Holds ms (http_turn marshals (tick p) c)
  unfolding http_turn on_event
  post-Holds p ms c h =
      if-Holds c.running ms (check (on_event marshals (tick p) c)) c
        (check-Holds ms (on_event marshals (tick p) c) (
          if-Holds (all_marshal marshals c.buffer) ms (on_post marshals p c) c
            (on_post-Holds p ms c h) h))
        h

  steps-Holds :
      (es : List Step) (st : Stats) (ms : List Message) (c : HttpClient)
      → Holds ms c
      → Holds (ms ++ messages ops es st) (steps ops marshals es (st, c)).1
  unfolding steps step messages
  steps-Holds [] st ms c h = rw append-nil h
  steps-Holds (job now key ∷ es) st ms c h =
      let (o, st') = run_job ops now key st in
      subst (λ l. Holds l (steps ops marshals es (st', receive marshals o c)).1)
        (append_assoc ms (list_of o) (messages ops es st'))
        (steps-Holds es st' (ms ++ list_of o) (receive marshals o c) (receive-Holds o ms c h))
  steps-Holds (post p ∷ es) st ms c h =
      steps-Holds es st ms (http_turn marshals (tick p) c) (post-Holds p ms c h)

  steps_append :
      (es fs : List Step) (s : Stats × HttpClient)
      → steps ops marshals (es ++ fs) s ≡ steps ops marshals fs (steps ops marshals es s)
  unfolding steps
  steps_append [] fs s = refl
  steps_append (e ∷ es) fs s = steps_append es fs (step ops marshals e s)

  all_marshal-append :
      (xs ys : List Message)
      → All (λ m. marshals m ≡ true) (xs ++ ys)
      → all_marshal marshals ys ≡ true
  unfolding all_marshal
  all_marshal-append [] [] a = refl
  all_marshal-append [] (y ∷ ys) (h, a) = rw h (all_marshal-append [] ys a)
  all_marshal-append (x ∷ xs) ys (h, a) = all_marshal-append xs ys a

  answered-delivers :
      (status : ℕ) (ms : List Message) (c : HttpClient)
      → All (λ m. marshals m ≡ true) ms
      → Holds ms c
      → ((http_turn marshals (tick (answered status)) c).buffer ≡ [])
        × (delivered (http_turn marshals (tick (answered status)) c).answers ≡ ms)
  unfolding http_turn on_event on_post check
  answered-delivers status ms c a (r, t, h) =
      rw
        (
          r,
          http_turn,
          all_marshal-append (delivered c.answers) c.buffer
              (subst (λ l. All (λ m. marshals m ≡ true) l) (sym h) a),
          on_event,
        )
        (refl, delivered-snoc c.answers status c.buffer ∙ h)

  -- After any cron jobs, whose messages json.Marshal takes, and any ticks, also ticks whose request fails, a
  -- tick whose request is answered leaves the buffer of the HTTP client empty: every message that a job has
  -- sent is then in one of the answered payloads, once and in the order of the jobs, whatever the statuses
  -- are.
  pub steps-delivers :
      (es : List Step) (status : ℕ) (st : Stats)
      → All (λ m. marshals m ≡ true) (messages ops es st)
      → ((steps ops marshals (es ++ post (answered status) ∷ []) (st, http_client)).1.buffer ≡ [])
        × (delivered
              (steps ops marshals (es ++ post (answered status) ∷ []) (st, http_client)).1.answers
            ≡ messages ops es st)
  unfolding steps step
  steps-delivers es status st a =
      rw (steps_append es (post (answered status) ∷ []) (st, http_client)) (
        answered-delivers status (messages ops es st) (steps ops marshals es (st, http_client)).1 a
          (steps-Holds es st [] http_client (refl, refl, refl)))

-- The payloads after the first message that comes while a dial succeeds.
abbrev pub after_dial : List Arrival → List (Option Message)
after_dial [] = []
after_dial (a ∷ arrivals) = if a.dials then map payload arrivals else after_dial arrivals

udp_turns-connected :
    (arrivals : List Arrival) (ws : List (Option Message))
    → (udp_turns arrivals (record { connected = true; written = ws })).written
      ≡ ws ++ map payload arrivals
unfolding udp_turns udp_turn
udp_turns-connected [] ws = rw append-nil refl
udp_turns-connected (a ∷ arrivals) ws =
    udp_turns-connected arrivals (ws ++ payload a ∷ [])
    ∙ append_assoc ws (payload a ∷ []) (map payload arrivals)

-- A UDP client whose first dial has failed writes the payloads after the first message that comes while a
-- dial succeeds: that message is lost with those before it.
pub udp_turns-loses :
    (arrivals : List Arrival)
    → (udp_turns arrivals (record { connected = false; written = [] })).written
      ≡ after_dial arrivals
unfolding udp_turns udp_turn
udp_turns-loses [] = refl
udp_turns-loses (a ∷ arrivals) = elim (Bool-cases a.dials) [
  | inl e ↦ rw e (udp_turns-connected arrivals [])
  | inr e ↦ rw e (udp_turns-loses arrivals)
]
