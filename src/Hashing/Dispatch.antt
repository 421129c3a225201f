-- ===== src/Hashing/Dispatch.antt =====
-- Which algorithms Generate and GenerateSHAKE accept, and when they succeed.
use gobol.Base.{ℕ, ◌≡◌, ◌≢◌, refl, ◌↔◌, inl, inr, true, false, List, [], ◌∷◌, Elem, Bool-cases, sym}
use gobol.Base.Text.{Bytes, codes, str_eq, str_eq_iff}
use gobol.Base.Outcome.{Succeeds}
use gobol.Hashing.Value.{Value, HashError, no_algorithm, Outcome, ok, err, panicked, ◌>>=◌}
use gobol.Base.Int.{pos}
use gobol.Hashing.Generate.{Digests, Algorithm, generate_byte_array, generate, generate_shake}

abbrev pub fixed_size : List Algorithm
fixed_size = codes "sha256" ∷ codes "sha1" ∷ codes "md5" ∷ codes "crc32" ∷ []

abbrev pub extendable : List Algorithm
extendable = codes "shake128" ∷ codes "shake256" ∷ []

hashed : (h : Bytes → Bytes) (o : Outcome Bytes) → Succeeds (o >>= λ b. ok (h b)) ↔ Succeeds o
hashed h (ok b) = (λ _. (b, refl), λ _. (h b, refl))
hashed h (err e) = (λ s. cc (s.1), λ s. cc (s.1))
hashed h panicked = (λ s. cc (s.1), λ s. cc (s.1))

known :
    (h : Bytes → Bytes) (a : Algorithm) (l : List Algorithm) (o : Outcome Bytes)
    → Elem a l
    → Succeeds (o >>= λ b. ok (h b)) ↔ (Elem a l × Succeeds o)
known h a l o m = (λ s. (m, (hashed h o).0 s), λ s. (hashed h o).1 s.1)

unknown :
    (a : Algorithm) (l : List Algorithm) (o : Outcome Bytes)
    → ¬ Elem a l
    → Succeeds {E = HashError} {A = Bytes} (err (no_algorithm a)) ↔ (Elem a l × Succeeds o)
unknown a l o n = (λ s. cc (s.1), λ s. absurd (n s.0))

named : (a b : Algorithm) → str_eq a b ≡ true → b ≡ a
named a b e = sym ((str_eq_iff a b).0 e)

differs : (a b : Algorithm) → str_eq a b ≡ false → b ≢ a
differs a b e q = cc ((str_eq_iff a b).1 (sym q), e)

-- Generate succeeds exactly when the algorithm is one of the four of fixed size and every parameter
-- has bytes.
pub generate-Succeeds :
    (d : Digests) (a : Algorithm) (ps : List Value)
    → Succeeds (generate d a ps) ↔ (Elem a fixed_size × Succeeds (generate_byte_array ps))
unfolding generate
generate-Succeeds d a ps = elim (Bool-cases (str_eq a (codes "sha256"))) [
  | inl e ↦ rw e (known d.sha256 a fixed_size _ (inl (named _ _ e)))
  | inr e ↦ elim (Bool-cases (str_eq a (codes "sha1"))) [
    | inl f ↦ rw (e, f) (known d.sha1 a fixed_size _ (inr (inl (named _ _ f))))
    | inr f ↦ elim (Bool-cases (str_eq a (codes "md5"))) [
      | inl g ↦ rw (e, f, g) (known d.md5 a fixed_size _ (inr (inr (inl (named _ _ g)))))
      | inr g ↦ elim (Bool-cases (str_eq a (codes "crc32"))) [
        | inl h ↦
            rw (e, f, g, h) (known d.crc32 a fixed_size _ (inr (inr (inr (inl (named _ _ h))))))
        | inr h ↦
            rw (e, f, g, h)
              (unknown a fixed_size _ λ m. elim m [
                | inl p ↦ differs _ _ e p
                | inr (inl p) ↦ differs _ _ f p
                | inr (inr (inl p)) ↦ differs _ _ g p
                | inr (inr (inr (inl p))) ↦ differs _ _ h p
                | inr (inr (inr (inr p))) ↦ p
              ])
      ]
    ]
  ]
]

-- GenerateSHAKE with a size that is not negative succeeds exactly when the algorithm is one of the two of free size and every
-- parameter has bytes.
generate_shake-Succeeds :
    (d : Digests) (a : Algorithm) (n : ℕ) (ps : List Value)
    → Succeeds (generate_shake d a (pos n) ps)
      ↔ (Elem a extendable × Succeeds (generate_byte_array ps))
unfolding generate_shake
generate_shake-Succeeds d a n ps = elim (Bool-cases (str_eq a (codes "shake128"))) [
  | inl e ↦ rw e (known (d.shake128 n) a extendable _ (inl (named _ _ e)))
  | inr e ↦ elim (Bool-cases (str_eq a (codes "shake256"))) [
    | inl f ↦ rw (e, f) (known (d.shake256 n) a extendable _ (inr (inl (named _ _ f))))
    | inr f ↦
        rw (e, f)
          (unknown a extendable _ λ m. elim m [
            | inl p ↦ differs _ _ e p
            | inr (inl p) ↦ differs _ _ f p
            | inr (inr p) ↦ p
          ])
  ]
]
