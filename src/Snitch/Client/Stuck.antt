-- ===== src/Snitch/Client/Stuck.antt =====
-- What one message that json.Marshal refuses makes of the HTTP client.
use gobol.Base.{
  ◌≡◌, ap, ◌∙◌, refl, inl, inr, Bool, true, false, ◌&&◌, Option, none, some, List, [], ◌∷◌, ◌++◌,
  Elem, if◌then◌else◌,
}
use gobol.Snitch.Point.{Arithmetic, Message}
use gobol.Snitch.Registry.{Stats, run_job}
use gobol.Snitch.Client.{
  Event, received, tick, HttpClient, all_marshal, on_event, check, http_turn, Step, job, post,
  receive, step, steps,
}

Elem-append : {A : Type 0} (a : A) (xs ys : List A) → Elem a xs → Elem a (xs ++ ys)
Elem-append a (x ∷ xs) ys (inl h) = inl h
Elem-append a (x ∷ xs) ys (inr h) = inr (Elem-append a xs ys h)
Elem-append a [] ys h = absurd h

module _ (marshals : Message → Bool) (m : Message) (bad : marshals m ≡ false) where
  all_marshal-bad : (ms : List Message) → Elem m ms → all_marshal marshals ms ≡ false
  unfolding all_marshal
  all_marshal-bad [] h = absurd h
  all_marshal-bad (x ∷ ms) (inl h) = ap (λ y. marshals y && all_marshal marshals ms) h ∙ rw bad refl
  all_marshal-bad (x ∷ ms) (inr h) = rw (all_marshal-bad ms h) (and-false (marshals x))
    where
      and-false : (b : Bool) → (b && false) ≡ false
      and-false true = refl
      and-false false = refl

  -- The answers stay, and the message stays in the buffer.
  abbrev IsStuck : HttpClient → HttpClient → Type 0
  IsStuck c d = (d.answers ≡ c.answers) × Elem m d.buffer

  if-IsStuck :
      (b : Bool) (c x y : HttpClient) → IsStuck c x → IsStuck c y → IsStuck c (if b then x else y)
  if-IsStuck true c x y h k = h
  if-IsStuck false c x y h k = k

  on_event-IsStuck :
      (e : Event) (c : HttpClient) → Elem m c.buffer → IsStuck c (on_event marshals e c)
  unfolding on_event
  on_event-IsStuck (received n) c h = (refl, Elem-append m c.buffer (n ∷ []) h)
  on_event-IsStuck (tick p) c h = rw (all_marshal-bad c.buffer h) (refl, h)

  http_turn-IsStuck :
      (e : Event) (c : HttpClient) → Elem m c.buffer → IsStuck c (http_turn marshals e c)
  unfolding http_turn check
  http_turn-IsStuck e c h =
      if-IsStuck c.running c (check (on_event marshals e c)) c (on_event-IsStuck e c h) (refl, h)

  receive-IsStuck :
      (o : Option Message) (c : HttpClient) → Elem m c.buffer → IsStuck c (receive marshals o c)
  unfolding receive
  receive-IsStuck none c h = (refl, h)
  receive-IsStuck (some n) c h = http_turn-IsStuck (received n) c h

  -- Once the buffer of the HTTP client holds a message that json.Marshal refuses, as one with a value that is
  -- no number, no payload is answered any more, whatever jobs and ticks follow and however their requests
  -- would end, and the message stays in the buffer.
  pub steps-stuck :
      (ops : Arithmetic) (es : List Step) (st : Stats) (c : HttpClient)
      → Elem m c.buffer
      → ((steps ops marshals es (st, c)).1.answers ≡ c.answers)
        × Elem m (steps ops marshals es (st, c)).1.buffer
  unfolding steps step
  steps-stuck ops [] st c h = (refl, h)
  steps-stuck ops (job now key ∷ es) st c h =
      let (o, st') = run_job ops now key st in
      let (e, k) = receive-IsStuck o c h in
      let (f, l) = steps-stuck ops es st' (receive marshals o c) k in (f ∙ e, l)
  steps-stuck ops (post p ∷ es) st c h =
      let (e, k) = http_turn-IsStuck (tick p) c h in
      let (f, l) = steps-stuck ops es st (http_turn marshals (tick p) c) k in (f ∙ e, l)
