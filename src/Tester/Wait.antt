-- ===== src/Tester/Wait.antt =====
-- WaitForHTTPServerRequest of tester/httpserver/utils.go. `polls` is what the channel gives without waiting,
-- at each second.
use gobol.Base.{
  ◌≡◌, refl, inl, inr, ℕ, zero, suc, ◌+◌, ◌≤◌, leb, Option, none, some, if◌then◌else◌, arith,
  Option-cases,
}

module _ {R : Type 0} where
  -- A turn with no request.
  pass : Option (Option R × ℕ) → ℕ → Option (Option R × ℕ)
  pass rest seconds = if leb 10 (seconds + 1) then some (none, seconds + 1) else rest

  -- The loop, with the seconds that it has waited; `none` if it has not ended within the fuel.
  unfoldable pub wait_loop : ℕ → (ℕ → Option R) → ℕ → Option (Option R × ℕ)
  unfolding pass
  wait_loop zero polls seconds = none
  wait_loop (suc fuel) polls seconds =
      let rest = wait_loop fuel polls (seconds + 1) in
      elim (polls seconds) [ some r ↦ some (some r, seconds) | none ↦ pass rest seconds ]

  unfoldable pub wait_for_request : (ℕ → Option R) → Option (Option R × ℕ)
  unfolding wait_loop
  wait_for_request polls = wait_loop 10 polls 0

  -- The first request from a second on, within some turns.
  abbrev pub first_within : ℕ → (ℕ → Option R) → ℕ → Option R
  first_within zero polls seconds = none
  first_within (suc n) polls seconds = elim (polls seconds) [
    | some r ↦ some r
    | none ↦ first_within n polls (seconds + 1)
  ]

  -- The loop ends, after at most ten seconds, with the first request of the ten turns.
  abbrev pub Ends : ℕ → (ℕ → Option R) → ℕ → Type 0
  Ends n polls seconds =
      (t : ℕ) × (wait_loop n polls seconds ≡ some (first_within n polls seconds, t)) × (t ≤ 10)

  wait_loop-Ends :
      (n : ℕ) (polls : ℕ → Option R) (seconds : ℕ)
      → seconds + suc n ≡ 10
      → Ends (suc n) polls seconds
  unfolding wait_loop pass
  wait_loop-Ends zero polls seconds h = elim (Option-cases (polls seconds)) [
    | inr (r, e) ↦ (seconds, rw (e, wait_loop, first_within) refl, omega arith)
    | inl e ↦ (seconds + 1, rw (e, wait_loop, first_within) (ground arith), omega arith)
  ]
  wait_loop-Ends (suc m) polls seconds h = elim (Option-cases (polls seconds)) [
    | inr (r, e) ↦ (seconds, rw (e, wait_loop, first_within) refl, omega arith)
    | inl e ↦
        let (t, same, least) = wait_loop-Ends m polls (seconds + 1) (omega arith) in
        (t, rw (e, wait_loop, first_within) (ground arith), least)
  ]

  -- WaitForHTTPServerRequest returns, after at most ten seconds, whatever arrives and whenever: it gives the
  -- first request that one of its ten polls finds, and nothing if none does.
  pub wait_for_request-ends :
      (polls : ℕ → Option R)
      → (t : ℕ) × (wait_for_request polls ≡ some (first_within 10 polls 0, t)) × (t ≤ 10)
  unfolding wait_for_request
  wait_for_request-ends polls = wait_loop-Ends 9 polls 0 refl
