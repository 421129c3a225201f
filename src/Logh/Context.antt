-- ===== src/Logh/Context.antt =====
-- The fields of the events of a logger with a context, and the order of the flags.
use gobol.Base.{
  ◌≡◌, ap, ◌∙◌, ◌⊎◌, inl, inr, refl, ℕ, Bool, true, false, ◌&&◌, ◌≤◌, arith, Option, none, some,
  List, [], ◌∷◌, ◌++◌, append-nil, append_assoc, Bool-cases,
}
use gobol.Base.Text.{GoString}
use gobol.Base.Outcome.{ok, panicked, ◌>>=◌}
use gobol.Logh.{
  ZeroLevel, debug_level, info_level, warn_level, error_level, fatal_level, panic_level, Event,
  Logger, event, info, debug, warn, error, panic, fatal, is_some, global_level,
  configure_global_logger, ContextualLogger, is_even, create_contextual_logger, with_field,
  add_fields, add_context,
}

-- The keys with their values.
abbrev pub pairs : List GoString → List (GoString × GoString)
pairs [] = []
pairs (k ∷ []) = []
pairs (k ∷ v ∷ kvs) = (k, v) ∷ pairs kvs

abbrev pub with_fields : List (GoString × GoString) → Option Event → Option Event
with_fields kvs none = none
with_fields kvs (some e) = some (record e { fields = e.fields ++ kvs })

add_fields-even :
    (kvs : List GoString) (e : Event)
    → is_even kvs ≡ true
    → add_fields kvs e ≡ ok (record e { fields = e.fields ++ pairs kvs })
unfolding is_even add_fields with_field
add_fields-even [] e h = rw append-nil refl
add_fields-even (k ∷ []) e h = absurd cc
add_fields-even (k ∷ v ∷ kvs) e h =
    add_fields-even kvs (with_field k v e) h
    ∙ ap (λ l. ok (record e { fields = l })) (append_assoc e.fields ((k, v) ∷ []) (pairs kvs))

add_context-even :
    (kvs : List GoString) (o : Option Event)
    → is_even kvs ≡ true
    → add_context (record { key_values = kvs }) o ≡ ok (with_fields (pairs kvs) o)
unfolding add_context
add_context-even kvs none h = refl
add_context-even kvs (some e) h = ap (λ r. r >>= λ f. ok (some f)) (add_fields-even kvs e h)

-- CreateContextualLogger panics, or gives a logger each of whose events has its fields and then all keys with
-- their values, in their order; on no event it is out of range, and where an event is not enabled there is
-- still none.
pub add_context-create :
    (kvs : List GoString) (o : Option Event)
    → (create_contextual_logger kvs ≡ panicked)
      ⊎ ((el : ContextualLogger) × (create_contextual_logger kvs ≡ ok el)
          × (add_context el o ≡ ok (with_fields (pairs kvs) o)))
unfolding create_contextual_logger
add_context-create kvs o = elim (Bool-cases (is_even kvs)) [
  | inl e ↦ inr (record { key_values = kvs }, rw e refl, add_context-even kvs o e)
  | inr e ↦ inl (rw e refl)
]

-- The severity of a level.
abbrev pub severity : ZeroLevel → ℕ
severity debug_level = 0
severity info_level = 1
severity warn_level = 2
severity error_level = 3
severity fatal_level = 4
severity panic_level = 5
severity _ = 6

module _ (enabled : ZeroLevel → ZeroLevel → Bool) where
  -- What the code relies on: under a global level, an event is enabled where a less severe one is.
  abbrev pub IsGraded : Type 0
  IsGraded =
      (global a b : ZeroLevel)
      → severity a ≤ severity b
      → enabled global a ≡ true
      → enabled global b ≡ true

  is_some-event :
      (level : ZeroLevel) (to_stderr : Bool) (global : ZeroLevel)
      → is_some enabled (event enabled level to_stderr global) ≡ enabled global level
  unfolding is_some event
  is_some-event level to_stderr global = elim (Bool-cases (enabled global level)) [
    | inl e ↦ rw e refl
    | inr e ↦ rw e refl
  ]

  -- A flag and that of a more severe level.
  graded :
      (law : IsGraded) (global a b : ZeroLevel) (x y : Bool)
      → severity a ≤ severity b
      → is_some enabled (event enabled a x global) && is_some enabled (event enabled b y global)
        ≡ is_some enabled (event enabled a x global)
  graded law global a b x y h = elim (Bool-cases (enabled global a)) [
    | inl e ↦ rw (is_some-event a x global, is_some-event b y global, e, law global a b h e) refl
    | inr e ↦ rw (is_some-event a x global, is_some-event b y global, e) refl
  ]

  -- After ConfigureGlobalLogger, with any level, also an unknown one, and any format, each of the flags debug,
  -- info, warn, error, fatal and panic implies the next.
  pub configure_global_logger-graded :
      (law : IsGraded) (lvl fmt : GoString) (old : Logger)
      → ((configure_global_logger enabled lvl fmt old).debug_enabled
            && (configure_global_logger enabled lvl fmt old).info_enabled
          ≡ (configure_global_logger enabled lvl fmt old).debug_enabled)
        × ((configure_global_logger enabled lvl fmt old).info_enabled
              && (configure_global_logger enabled lvl fmt old).warn_enabled
            ≡ (configure_global_logger enabled lvl fmt old).info_enabled)
        × ((configure_global_logger enabled lvl fmt old).warn_enabled
              && (configure_global_logger enabled lvl fmt old).error_enabled
            ≡ (configure_global_logger enabled lvl fmt old).warn_enabled)
        × ((configure_global_logger enabled lvl fmt old).error_enabled
              && (configure_global_logger enabled lvl fmt old).fatal_enabled
            ≡ (configure_global_logger enabled lvl fmt old).error_enabled)
        × ((configure_global_logger enabled lvl fmt old).fatal_enabled
              && (configure_global_logger enabled lvl fmt old).panic_enabled
            ≡ (configure_global_logger enabled lvl fmt old).fatal_enabled)
  unfolding configure_global_logger info debug warn error fatal panic
  configure_global_logger-graded law lvl fmt old =
      let g = global_level lvl old.global in
      (
        graded law g debug_level info_level false false (omega arith),
        graded law g info_level warn_level false false (omega arith),
        graded law g warn_level error_level false true (omega arith),
        graded law g error_level fatal_level true true (omega arith),
        graded law g fatal_level panic_level true true (omega arith),
      )
