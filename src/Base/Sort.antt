-- ===== src/Base/Sort.antt =====
-- `sort.Sort` and `sort.Strings`: the algorithm of the standard library is not part of the program,
-- so an insertion sort by the `Less` test stands for it. Among distinct keys under a strict total
-- order every sort gives its result, whatever the order of the input.
use mathlib.Core.Path.{◌≡◌, refl, sym, subst, ap, ◌∙◌}
use mathlib.Core.Logic.{◌≢◌}
use mathlib.Core.Bool.{Bool}
use mathlib.Core.List.{List, [], ◌∷◌, map}
use native.Mathlib.Omega.{arith}
use gobol.Base.Tests.{if◌then◌else◌, Bool-cases}
use gobol.Base.Lists.{Elem, Distinct}
use mathlib.Core.Logic.{inl, inr}
use gobol.Base.Order.{IsStrictOrder}
use mathlib.Core.List.{Permᴰ}

module _ {ℓ κ} {A : Type ℓ} {K : Type κ} (less : K → K → Bool) (key : A → K) where
  unfoldable pub insert : A → List A → List A
  insert x [] = x ∷ []
  insert x (y ∷ ys) = if less (key y) (key x) then y ∷ insert x ys else x ∷ y ∷ ys

  unfoldable pub sort : List A → List A
  unfolding insert
  sort [] = []
  sort (x ∷ xs) = insert x (sort xs)

module _ {K A : Type 0} (less : K → K → Bool) (key : A → K) (order : IsStrictOrder less) where
  -- Items with different keys may be inserted in either order.
  insert_comm :
      (x y : A) (l : List A)
      → key x ≢ key y
      → insert less key x (insert less key y l) ≡ insert less key y (insert less key x l)
  unfolding insert
  insert_comm x y [] ne = ground (
    arith,
    order.asymm (key x) (key y),
    order.asymm (key y) (key x),
    order.total (key x) (key y),
    ne,
  )
  insert_comm x y (z ∷ l) ne = ground (
    arith,
    order.asymm (key x) (key y),
    order.asymm (key y) (key x),
    order.total (key x) (key y),
    ne,
    insert_comm x y l ne,
    order.asymm (key z) (key x),
    order.asymm (key z) (key y),
    order.asymm (key x) (key z),
    order.asymm (key y) (key z),
    order.trans (key x) (key z) (key y),
    order.trans (key y) (key z) (key x),
    order.trans (key z) (key x) (key y),
    order.trans (key z) (key y) (key x),
    order.total (key x) (key z),
    order.total (key y) (key z),
  )

module _ {K A : Type 0} (key : A → K) where
  Elem-perm : {xs ys : List A} (a : K) → Permᴰ xs ys → Elem a (map key ys) → Elem a (map key xs)
  Elem-perm a Permᴰ.nil h = h
  Elem-perm a (Permᴰ.cons e p) (inl h) = inl (ap key e ∙ h)
  Elem-perm a (Permᴰ.cons e p) (inr h) = inr (Elem-perm a p h)
  Elem-perm a (Permᴰ.swap e f) (inl h) = inr (inl (ap key f ∙ h))
  Elem-perm a (Permᴰ.swap e f) (inr (inl h)) = inl (ap key e ∙ h)
  Elem-perm a (Permᴰ.swap e f) (inr (inr h)) = inr (inr h)
  Elem-perm a (Permᴰ.trans p q) h = Elem-perm a p (Elem-perm a q h)

  Distinct-perm : {xs ys : List A} → Permᴰ xs ys → Distinct (map key xs) → Distinct (map key ys)
  Distinct-perm Permᴰ.nil d = d
  Distinct-perm (Permᴰ.cons {l₂ = ys} e p) (n, d) = (
    λ h. n (Elem-perm _ p (subst (λ k. Elem k (map key ys)) (sym (ap key e)) h)),
    Distinct-perm p d,
  )
  Distinct-perm (Permᴰ.swap {l = l} e f) (n, (m, d)) = (
    λ h. elim h [
      | inl q ↦ n (inl (ap key f ∙ sym q ∙ sym (ap key e)))
      | inr q ↦ m (subst (λ k. Elem k (map key l)) (sym (ap key f)) q)
    ],
    (λ h. n (inr (subst (λ k. Elem k (map key l)) (sym (ap key e)) h)), d),
  )
  Distinct-perm (Permᴰ.trans p q) d = Distinct-perm q (Distinct-perm p d)

module _ {K A : Type 0} (less : K → K → Bool) (key : A → K) (order : IsStrictOrder less) where
  -- Among items with different keys the sorted list does not depend on the order of the input.
  pub sort-perm :
      {xs ys : List A} → Permᴰ xs ys → Distinct (map key xs) → sort less key xs ≡ sort less key ys
  unfolding sort
  sort-perm Permᴰ.nil d = refl
  sort-perm (Permᴰ.cons e p) (n, d) = cc (sort-perm p d)
  sort-perm (Permᴰ.swap {a = x} {b = y} {l = l} e f) (n, d) =
      rw (← e, ← f) (insert_comm less key order x y (sort less key l) (λ h. n (inl (sym h))))
  sort-perm (Permᴰ.trans p q) d = sort-perm p d ∙ sort-perm q (Distinct-perm key p d)

module _ {A : Type 0} (less : A → A → Bool) (order : IsStrictOrder less) where
  insert_comm_self :
      (x y : A) (l : List A)
      → insert less (λ s. s) x (insert less (λ s. s) y l)
        ≡ insert less (λ s. s) y (insert less (λ s. s) x l)
  insert_comm_self x y l = elim (Bool-cases (less x y)) [
    | inl e ↦ insert_comm less (λ s. s) order x y l (λ q. cc (order.asymm x y e, e, q))
    | inr e ↦ elim (Bool-cases (less y x)) [
      | inl f ↦ insert_comm less (λ s. s) order x y l (λ q. cc (order.asymm y x f, f, q))
      | inr f ↦
          ap (λ z. insert less (λ s. s) z (insert less (λ s. s) y l)) (order.total x y e f)
          ∙ ap (λ z. insert less (λ s. s) y (insert less (λ s. s) z l)) (sym (order.total x y e f))
    ]
  ]

  -- A list that is sorted by the items themselves may hold one twice.
  pub sort-perm_self :
      {xs ys : List A} → Permᴰ xs ys → sort less (λ s. s) xs ≡ sort less (λ s. s) ys
  unfolding sort
  sort-perm_self Permᴰ.nil = refl
  sort-perm_self (Permᴰ.cons e p) = cc (sort-perm_self p)
  sort-perm_self (Permᴰ.swap {a = x} {b = y} {l = l} e f) =
      rw (← e, ← f) (insert_comm_self x y (sort less (λ s. s) l))
  sort-perm_self (Permᴰ.trans p q) = sort-perm_self p ∙ sort-perm_self q

pub map-perm :
    {A B : Type 0} (f : A → B) {xs ys : List A} → Permᴰ xs ys → Permᴰ (map f xs) (map f ys)
map-perm f Permᴰ.nil = Permᴰ.nil
map-perm f (Permᴰ.cons e p) = Permᴰ.cons (ap f e) (map-perm f p)
map-perm f (Permᴰ.swap e q) = Permᴰ.swap (ap f e) (ap f q)
map-perm f (Permᴰ.trans p q) = Permᴰ.trans (map-perm f p) (map-perm f q)
