-- ===== src/Election/Nodes/Watch.antt =====
-- How a round of listenForNodeEvents notices that the nodes of the cluster are others.
use mathlib.Core.Path.{subst}
use gobol.Base.{
  ap, sym, ◌∙◌, ◌≡◌, ◌↔◌, ◌⊎◌, inl, inr, refl, ℕ, suc, ◌+◌, ◌≤◌, Bool, true, false, List, [], ◌∷◌,
  ◌++◌, arith, length, Elem, Distinct, Bool-cases, Option-cases,
}
use gobol.Base.Text.{GoString, str_eq, str_eq_iff}
use gobol.Base.SyncMap.{
  SyncMap, load, store, keys, load-store, load-some, load-none, delete_each, delete_each_self,
}
use gobol.Election.{Manager, cluster_changed}
use gobol.Election.Nodes.{
  get_sync_map_size, count_entries, store_nodes, any_new, is_changed, is_loaded, observe,
}

abbrev pub Same : List GoString → List GoString → Type 0
Same xs ys = (k : GoString) → Elem k xs ↔ Elem k ys

-- A list without the place of one of its elements.
take_out :
    (x : GoString) (ys : List GoString)
    → Elem x ys
    → (zs : List GoString) × (length ys ≡ suc (length zs))
      × ((z : GoString) → Elem z ys → (z ≡ x) ⊎ Elem z zs)
take_out x [] h = absurd h
take_out x (y ∷ ys) (inl e) = (ys, refl, λ z h. elim h [ inl q ↦ inl (sym q ∙ e) | inr q ↦ inr q ])
take_out x (y ∷ ys) (inr h) =
    let (zs, l, f) = take_out x ys h in
    (
      y ∷ zs,
      ap suc l,
      λ z k. elim k [
        | inl q ↦ inr (inl q)
        | inr q ↦ elim (f z q) [ inl e ↦ inl e | inr i ↦ inr (inr i) ]
      ],
    )

-- Distinct names that all stand in a list of their number are all of its names.
pub covers :
    (xs ys : List GoString)
    → Distinct xs
    → length xs ≡ length ys
    → ((k : GoString) → Elem k xs → Elem k ys)
    → (k : GoString) → Elem k ys
    → Elem k xs
covers [] [] d l f k h = h
covers [] (y ∷ ys) d l f k h = absurd (omega (arith, l))
covers (x ∷ xs) ys (n, d) l f k h =
    let (zs, m, g) = take_out x ys (f x (inl refl)) in
    elim (g k h) [
      | inl e ↦ inl (sym e)
      | inr i ↦ inr (
          covers xs zs d (omega (arith, l, m))
            (λ z p. elim (g z (f z (inr p))) [
              | inl e ↦ absurd (n (subst (λ w. Elem w xs) e p))
              | inr q ↦ q
            ])
            k i)
    ]

count_entries-length : (m : SyncMap Bool) (n : ℕ) → count_entries m n ≡ n + length (keys m)
unfolding count_entries
count_entries-length [] n = omega arith
count_entries-length (_ ∷ m) n = omega (arith, count_entries-length m (n + 1))

size-length : (m : SyncMap Bool) → get_sync_map_size m ≡ length (keys m)
unfolding get_sync_map_size
size-length m = omega (arith, count_entries-length m 0)

is_loaded-keys : (m : SyncMap Bool) (k : GoString) → (is_loaded (load m k) ≡ true) ↔ Elem k (keys m)
unfolding is_loaded
is_loaded-keys m k = elim (Option-cases (load m k)) [
  | inl e ↦ rw e ((λ h. cc), λ h. absurd (load-none m k e h))
  | inr (v, e) ↦ rw e ((λ h. load-some m k e), λ h. refl)
]

any_new-false :
    (ns : List GoString) (m : SyncMap Bool)
    → any_new ns m ≡ false
    → (k : GoString) → Elem k ns
    → Elem k (keys m)
unfolding any_new
any_new-false [] m h k i = absurd i
any_new-false (n ∷ ns) m h k (inl e) =
    subst (λ w. Elem w (keys m)) e ((is_loaded-keys m n).0 (ground arith))
any_new-false (n ∷ ns) m h k (inr i) = any_new-false ns m (ground arith) k i

any_new-true :
    (ns : List GoString) (m : SyncMap Bool)
    → any_new ns m ≡ true
    → ¬ ((k : GoString) → Elem k ns → Elem k (keys m))
unfolding any_new
any_new-true [] m h f = cc
any_new-true (n ∷ ns) m h f =
    any_new-true ns m (ground (arith, (is_loaded-keys m n).1 (f n (inl refl)))) (λ k i. f k (inr i))

fits :
    (xs ys : List GoString)
    → Distinct xs
    → ((k : GoString) → Elem k xs → Elem k ys)
    → length xs ≤ length ys
fits [] ys d f = omega arith
fits (x ∷ xs) ys (n, d) f =
    let (zs, m, g) = take_out x ys (f x (inl refl)) in
    let rest : length xs ≤ length zs = fits xs zs d (λ z p. elim (g z (f z (inr p))) [
      | inl e ↦ absurd (n (subst (λ w. Elem w xs) e p))
      | inr q ↦ q
    ]) in
    omega (arith, rest, m)

Distinct-count :
    (xs ys : List GoString) → Distinct xs → Distinct ys → Same xs ys → length xs ≡ length ys
Distinct-count xs ys d e s = omega (arith, fits xs ys d (λ k. (s k).0), fits ys xs e (λ k. (s k).1))

store-keys :
    (m : SyncMap Bool) (n k : GoString)
    → Elem k (keys (store m n true)) ↔ ((n ≡ k) ⊎ Elem k (keys m))
unfolding is_loaded
store-keys m n k =
    let now = is_loaded-keys (store m n true) k in
    let before = is_loaded-keys m k in
    elim (Bool-cases (str_eq n k)) [
      | inl e ↦
          (λ h. inl ((str_eq_iff n k).0 e), λ h. now.0 (rw (load-store m n k true, e, is_loaded)))
      | inr e ↦
          let same : load (store m n true) k ≡ load m k = rw (load-store m n k true, e) in
          (
            λ h. inr (before.0 (ap is_loaded (sym same) ∙ now.1 h)),
            λ h. elim h [
              | inl q ↦ absurd (cc ((str_eq_iff n k).1 q, e))
              | inr i ↦ now.0 (ap is_loaded same ∙ before.1 i)
            ],
          )
    ]

-- The keys after the loop over the nodes.
store_nodes-keys :
    (ns : List GoString) (m : SyncMap Bool) (k : GoString)
    → Elem k (keys (store_nodes ns m)) ↔ (Elem k ns ⊎ Elem k (keys m))
unfolding store_nodes
store_nodes-keys [] m k = (inr, λ h. elim h [ inl i ↦ absurd i | inr i ↦ i ])
store_nodes-keys (n ∷ ns) m k =
    let (there, back) = store_nodes-keys ns (store m n true) k in
    let (one, more) = store-keys m n k in
    (
      λ h. elim (there h) [
        | inl i ↦ inl (inr i)
        | inr i ↦ elim (one i) [ inl e ↦ inl (inl e) | inr j ↦ inr j ]
      ],
      λ h. elim h [
        | inl (inl e) ↦ back (inr (more (inl e)))
        | inl (inr i) ↦ back (inl i)
        | inr j ↦ back (inr (more (inr j)))
      ],
    )

no_keys : (m : SyncMap Bool) (k : GoString) → ¬ Elem k (keys (delete_each m m))
no_keys m k = load-none (delete_each m m) k (delete_each_self m k)

replaced-keys :
    (ns : List GoString) (m : SyncMap Bool) → Same (keys (store_nodes ns (delete_each m m))) ns
replaced-keys ns m k =
    let (there, back) = store_nodes-keys ns (delete_each m m) k in
    (λ h. elim (there h) [ inl i ↦ i | inr i ↦ absurd (no_keys m k i) ], λ i. back (inl i))

-- Distinct nodes are found to be changed exactly when they are not the known ones.
is_changed-Same :
    (ns : List GoString) (m : SyncMap Bool)
    → Distinct ns
    → Distinct (keys m)
    → ((is_changed ns m ≡ false) → Same ns (keys m))
      × ((is_changed ns m ≡ true) → ¬ Same ns (keys m))
unfolding is_changed
is_changed-Same ns m d e = (
  λ h.
      let subset = any_new-false ns m (ground arith) in
      λ k. (subset k, covers ns (keys m) d (ground (arith, size-length m)) subset k),
  λ h s. elim (Bool-cases (any_new ns m)) [
    | inl q ↦ any_new-true ns m q (λ k. (s k).0)
    | inr q ↦ ground (arith, size-length m, Distinct-count ns (keys m) d e s)
  ],
)

-- A round that finds nodes with distinct names, where each known name is known once, does nothing if
-- they are the known ones, in any order; if they are not, it sends ClusterChanged once and knows
-- them from then on, and no others.
pub observe-tracks :
    {S : Type 0} (nodes : List GoString) (m : Manager S)
    → Distinct nodes
    → Distinct (keys m.cluster_nodes)
    → (Same nodes (keys m.cluster_nodes) × (observe nodes m ≡ m))
      ⊎ ((¬ Same nodes (keys m.cluster_nodes))
          × ((observe nodes m).feedback ≡ m.feedback ++ cluster_changed ∷ [])
          × Same (keys (observe nodes m).cluster_nodes) nodes)
unfolding observe
observe-tracks nodes m d e = elim (Bool-cases (is_changed nodes m.cluster_nodes)) [
  | inl q ↦ inr (
    (is_changed-Same nodes m.cluster_nodes d e).1 q,
    rw q,
    rw q (replaced-keys nodes m.cluster_nodes),
  )
  | inr q ↦ inl ((is_changed-Same nodes m.cluster_nodes d e).0 q, rw q)
]

-- A round does nothing whenever it finds as many names as are known and each of them is known: where a
-- name is found twice, the loss of another node goes unnoticed.
pub observe-misses_loss :
    {S : Type 0} (nodes : List GoString) (m : Manager S)
    → length nodes ≡ length (keys m.cluster_nodes)
    → ((k : GoString) → Elem k nodes → Elem k (keys m.cluster_nodes))
    → observe nodes m ≡ m
unfolding observe is_changed
observe-misses_loss nodes m l s = elim (Bool-cases (any_new nodes m.cluster_nodes)) [
  | inl e ↦ absurd (any_new-true nodes m.cluster_nodes e s)
  | inr e ↦
      let same : is_changed nodes m.cluster_nodes ≡ false =
        ground (arith, size-length m.cluster_nodes) in
      rw same
]
