-- ===== src/Election/Session/Restart.antt =====
-- After a lost session the manager runs again, once an attempt succeeds.
use gobol.Base.{
  ℕ, ◌+◌, ◌≤◌, ◌<◌, leb, length, ◌⊎◌, inl, inr, Bool-cases, arith, ◌≡◌, ap, ◌∙◌, true, false, List,
  [], ◌∷◌, ◌++◌, if◌then◌else◌,
}
use gobol.Base.Text.{GoString}
use gobol.Election.{
  Outcome, ok, err, panicked, Client, Config, Manager, disconnected, signal, and_then,
}
use gobol.Election.Run.{connect, start}
use gobol.Election.Run.Role.{IsTold}
use gobol.Election.Run.Start.{start-tells}
use gobol.Election.Session.{
  Event, is_lost, Attempt, restarted, terminated, listening, attempt, after_attempt, reconnect,
  on_lost, on_session_event, unblocked_turn, session_turn, blocked, within, fits,
}

module _ {S : Type 0} (zk : Client S) (c : Config) where
  -- The state after some attempts.
  abbrev pub tried : List (Attempt S) → Manager S → Manager S
  tried [] m = m
  tried (a ∷ attempts) m = tried attempts (attempt zk c a m).0

  -- Each of the attempts fails with an error, from the state that those before it left.
  abbrev pub AllFail : List (Attempt S) → Manager S → Type 0
  AllFail [] m = Unit
  AllFail (a ∷ attempts) m =
      ((e : GoString) × ((attempt zk c a m).1 ≡ err e)) × AllFail attempts (attempt zk c a m).0

  reconnect-tried :
      (failing : List (Attempt S)) (a : Attempt S) (later : List (Attempt S)) (m : Manager S)
      → AllFail failing m
      → (attempt zk c a (tried failing m)).1 ≡ ok tt
      → reconnect zk c (failing ++ a ∷ later) m ≡ restarted (attempt zk c a (tried failing m)).0
  unfolding reconnect after_attempt
  reconnect-tried [] a later m f h =
      ap (λ o. after_attempt zk c (reconnect zk c later) ((attempt zk c a m).0, o)) h
  reconnect-tried (b ∷ failing) a later m ((e, q), f) h =
      ap (λ o. after_attempt zk c (reconnect zk c (failing ++ a ∷ later)) ((attempt zk c b m).0, o))
        q
      ∙ reconnect-tried failing a later (attempt zk c b m).0 f h

  -- What Start tells, it has told since the first connection of the attempt too.
  attempt-tells :
      (a : Attempt S) (m : Manager S) → (attempt zk c a m).1 ≡ ok tt → IsTold m (attempt zk c a m).0
  unfolding attempt connect
  attempt-tells a m h = tells a.first h
    where
      tells :
          (o : Outcome S)
          → (and_then (connect o m) (λ u. start zk c a.second a.hostname)).1 ≡ ok tt
          → IsTold m (and_then (connect o m) (λ u. start zk c a.second a.hostname)).0
      tells (ok s) q =
          start-tells zk c a.second a.hostname (record m { connected = true; zk = s }) q
      tells (err e) q = absurd cc
      tells panicked q = absurd cc

  unblocked_turn-restarts :
      (e : Event) (failing : List (Attempt S)) (a : Attempt S) (later : List (Attempt S))
      (m : Manager S)
      → m.terminate ≡ false
      → is_lost e ≡ true
      → AllFail failing (on_lost zk c m)
      → (attempt zk c a (tried failing (on_lost zk c m))).1 ≡ ok tt
      → unblocked_turn zk c e (failing ++ a ∷ later) m
        ≡ restarted (attempt zk c a (tried failing (on_lost zk c m))).0
  unfolding unblocked_turn on_session_event
  unblocked_turn-restarts e failing a later m t lost f h =
      let l = on_lost zk c m in
      ap
        (λ b.
          if b
          then terminated (signal disconnected m)
          else on_session_event zk c e (failing ++ a ∷ later) m)
        t
      ∙ ap (λ b. if b then reconnect zk c (failing ++ a ∷ later) l else listening m) lost
      ∙ reconnect-tried failing a later l f h

  -- The manager after a lost session, failing attempts and one that succeeds.
  abbrev pub recovered : List (Attempt S) → Attempt S → Manager S → Manager S
  recovered failing a m = (attempt zk c a (tried failing (on_lost zk c m))).0

  -- Where the session of a manager that is not told to end is lost, and the attempts to connect again fail
  -- with errors up to one that succeeds: if the feedback channel has room for the signals that are sent
  -- on the way, in free places or by what is received meanwhile, the loop ends with a manager that has told
  -- its role by one signal since that attempt began; if it has not, a send waits, and the loop with it.
  pub session_turn-restarts :
      (room : ℕ) (e : Event) (failing : List (Attempt S)) (a : Attempt S) (later : List (Attempt S))
      (m : Manager S)
      → m.terminate ≡ false
      → is_lost e ≡ true
      → AllFail failing (on_lost zk c m)
      → (attempt zk c a (tried failing (on_lost zk c m))).1 ≡ ok tt
      → ((length (recovered failing a m).feedback ≤ length m.feedback + room)
          × (session_turn zk c room e (failing ++ a ∷ later) m ≡ restarted (recovered failing a m))
          × IsTold (tried failing (on_lost zk c m)) (recovered failing a m))
        ⊎ ((length m.feedback + room < length (recovered failing a m).feedback)
            × (session_turn zk c room e (failing ++ a ∷ later) m ≡ blocked))
  unfolding session_turn within fits
  session_turn-restarts room e failing a later m t lost f h =
      let n = recovered failing a m in
      let u = unblocked_turn-restarts e failing a later m t lost f h in
      elim (Bool-cases (leb (length n.feedback) (length m.feedback + room))) [
        | inl q ↦ inl (
          ground arith,
          ap (within room m) u ∙ ap (λ b. if b then restarted n else blocked) q,
          attempt-tells a (tried failing (on_lost zk c m)) h,
        )
        | inr q ↦
            inr
              (ground arith, ap (within room m) u ∙ ap (λ b. if b then restarted n else blocked) q)
      ]
