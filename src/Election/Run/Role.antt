-- ===== src/Election/Run/Role.antt =====
-- The role that electForMaster gives to a node, and the signal that tells it.
use mathlib.Core.Path.{subst}
use gobol.Base.{
  ap, sym, ◌∙◌, ◌≡◌, ◌≢◌, ◌⊎◌, inl, inr, refl, Bool, true, false, [], ◌∷◌, ◌++◌, Option, none, some,
  if◌then◌else◌, arith,
}
use gobol.Base.Text.{GoString, codes, str_eq, str_eq_refl}
use gobol.Election.{
  Outcome, ok, err, panicked, Client, Config, master, slave, Manager, ephemeral, and_then, request,
}
use gobol.Election.Run.Kept.{
  IsKept, request-IsKept, get_node_data-IsKept, get_zk_master_node-IsKept, create_if_missing-IsKept,
  create_slave_dir-IsKept,
}
use gobol.Election.Run.{
  no_node, get_node_data, get_zk_master_node, create_if_missing, create_slave_dir, slave_node,
  become_slave, register_as_slave, delete_slave, become_master, on_created, create_master,
  elect_with, elect_for_master,
}

module _ {S : Type 0} where
  -- No signal has been sent in between.
  abbrev pub IsSilent : Manager S → Manager S → Type 0
  IsSilent m m' = m'.feedback ≡ m.feedback

  -- One signal was sent, and it tells the role.
  abbrev pub IsTold : Manager S → Manager S → Type 0
  IsTold m m' =
      ((m'.feedback ≡ m.feedback ++ master ∷ []) × (m'.is_master ≡ true))
      ⊎ ((m'.feedback ≡ m.feedback ++ slave ∷ []) × (m'.is_master ≡ false))

  abbrev Tells : Manager S → Manager S × Outcome (Unit {0}) → Type 0
  Tells m r = r.1 ≡ ok tt → IsTold m r.0

  abbrev Demotes : Manager S → Manager S × Outcome (Unit {0}) → Type 0
  Demotes m r = r.1 ≡ ok tt → (r.0.feedback ≡ m.feedback ++ slave ∷ []) × (r.0.is_master ≡ false)

  Tells-if :
      (m : Manager S) (b : Bool) (x y : Manager S × Outcome (Unit {0}))
      → Tells m x
      → Tells m y
      → Tells m (if b then x else y)
  Tells-if m true x y p q = p
  Tells-if m false x y p q = q

  and_then_cases :
      {A B : Type 0} (T : Manager S × Outcome B → Type 0) (m : Manager S)
      (r : Manager S × Outcome A) (k : A → Manager S → Manager S × Outcome B)
      → IsSilent m r.0
      → ((a : A) (m' : Manager S) → IsSilent m m' → T (k a m'))
      → ((e : GoString) (m' : Manager S) → IsSilent m m' → T (m', err e))
      → ((m' : Manager S) → IsSilent m m' → T (m', panicked))
      → T (and_then r k)
  and_then_cases T m (m', ok a) k s f g h = f a m' s
  and_then_cases T m (m', err e) k s f g h = g e m' s
  and_then_cases T m (m', panicked) k s f g h = h m' s

  and_then-IsSilent :
      {A B : Type 0} (m : Manager S) (r : Manager S × Outcome A)
      (k : A → Manager S → Manager S × Outcome B)
      → IsSilent m r.0
      → ((a : A) (m' : Manager S) → IsSilent m m' → IsSilent m (k a m').0)
      → IsSilent m (and_then r k).0
  and_then-IsSilent m r k s f =
      and_then_cases (λ r. IsSilent m r.0) m r k s f (λ e m' q. q) (λ m' q. q)

  and_then-Demotes :
      {A : Type 0} (m : Manager S) (r : Manager S × Outcome A)
      (k : A → Manager S → Manager S × Outcome (Unit {0}))
      → IsSilent m r.0
      → ((a : A) (m' : Manager S) → IsSilent m m' → Demotes m (k a m'))
      → Demotes m (and_then r k)
  and_then-Demotes m r k s f =
      and_then_cases (λ r. Demotes m r) m r k s f (λ e m' q h. cc) (λ m' q h. cc)

  -- Either the call succeeds, with the one signal that tells the role of a slave, or it does not, with no
  -- signal and the role as it was.
  abbrev Settles : Manager S → Manager S × Outcome (Unit {0}) → Type 0
  Settles m r =
      ((r.1 ≡ ok tt) × (r.0.feedback ≡ m.feedback ++ slave ∷ []) × (r.0.is_master ≡ false))
      ⊎ ((r.1 ≢ ok tt) × (r.0.feedback ≡ m.feedback) × (r.0.is_master ≡ m.is_master))

  and_then-Settles :
      {A : Type 0} (m : Manager S) (r : Manager S × Outcome A)
      (k : A → Manager S → Manager S × Outcome (Unit {0}))
      → IsKept m r.0
      → ((a : A) (m' : Manager S) → IsKept m m' → Settles m (k a m'))
      → Settles m (and_then r k)
  and_then-Settles m (m', ok a) k s f = f a m' s
  and_then-Settles m (m', err e) k s f = inr ((λ h. cc), ap (λ v. v.0) s, ap (λ v. v.1) s)
  and_then-Settles m (m', panicked) k s f = inr ((λ h. cc), ap (λ v. v.0) s, ap (λ v. v.1) s)

module _ {S : Type 0} (zk : Client S) (c : Config) where
  register_as_slave-Demotes :
      (name : GoString) (m : Manager S) → Demotes m (register_as_slave zk c name m)
  unfolding register_as_slave become_slave
  register_as_slave-Demotes name m =
      and_then-Demotes m (create_slave_dir zk c m) _
        (ap (λ v. v.0) (create_slave_dir-IsKept zk c m))
        λ _ m1 q1.
          and_then-Demotes m (get_node_data zk (slave_node c name) m1) _
            (ap (λ v. v.0) (get_node_data-IsKept zk c (slave_node c name) m1) ∙ q1)
            λ text m2 q2.
              and_then-Demotes m (create_if_missing zk (slave_node c name) name ephemeral text m2) _
                (ap (λ v. v.0)
                    (create_if_missing-IsKept zk c (slave_node c name) name ephemeral text m2)
                  ∙ q2)
                (λ _ m3 q3 h. (ap (λ l. l ++ slave ∷ []) q3, refl))

  register_as_slave-Tells :
      (name : GoString) (m m' : Manager S)
      → IsSilent m m'
      → Tells m (register_as_slave zk c name m')
  register_as_slave-Tells name m m' s h =
      let (f, b) = register_as_slave-Demotes name m' h in inr (f ∙ ap (λ l. l ++ slave ∷ []) s, b)

  delete_slave-feedback :
      (name : GoString) (r : Manager S × Outcome (Option GoString))
      → ((delete_slave zk c name r).0.feedback ≡ r.0.feedback)
        × ((delete_slave zk c name r).0.is_master ≡ r.0.is_master)
  unfolding delete_slave request
  delete_slave-feedback name (m, ok none) = (refl, refl)
  delete_slave-feedback name (m, ok (some x)) = (ground arith, ground arith)
  delete_slave-feedback name (m, err e) = (refl, refl)
  delete_slave-feedback name (m, panicked) = (refl, refl)

  on_created-Tells :
      (name : GoString) (m : Manager S) (r : Manager S × Outcome GoString)
      → IsSilent m r.0
      → Tells m (on_created zk c name r)
  unfolding on_created become_master
  on_created-Tells name m (m', ok path) s h =
      let m1 = become_master m' in
      let got = get_node_data zk (slave_node c name) m1 in
      inl (
        (delete_slave-feedback name got).0
            ∙ ap (λ v. v.0) (get_node_data-IsKept zk c (slave_node c name) m1)
            ∙ ap (λ l. l ++ master ∷ []) s,
        (delete_slave-feedback name got).1
            ∙ ap (λ v. v.1) (get_node_data-IsKept zk c (slave_node c name) m1),
      )
  on_created-Tells name m (m', err e) s h =
      Tells-if m (str_eq e (codes "zk: node already exists")) (register_as_slave zk c name m')
        (m', err e) (register_as_slave-Tells name m m' s) (λ q. cc) h
  on_created-Tells name m (m', panicked) s h = cc

  elect_with-Tells :
      (name : GoString) (o : Option GoString) (m m' : Manager S)
      → IsSilent m m'
      → Tells m (elect_with zk c name o m')
  unfolding elect_with create_master
  elect_with-Tells name none m m' s =
      on_created-Tells name m (request (zk.create c.zk_election_node_uri name ephemeral) m')
        (ap (λ v. v.0) (request-IsKept (zk.create c.zk_election_node_uri name ephemeral) m') ∙ s)
  elect_with-Tells name (some node) m m' s =
      let m1 : Manager S = record m' { is_master = true } in
      let made = request (zk.create c.zk_election_node_uri name ephemeral) m1 in
      Tells-if m (str_eq name node) (on_created zk c name made) (register_as_slave zk c name m')
        (on_created-Tells name m made
          (ap (λ v. v.0) (request-IsKept (zk.create c.zk_election_node_uri name ephemeral) m1) ∙ s))
        (register_as_slave-Tells name m m' s)

  -- An election that returns without an error has sent one signal, which tells the role that the node
  -- has then: Master if it is the master, and Slave if it is not, whatever ZooKeeper answered.
  pub elect_for_master-tells :
      (hostname : Outcome GoString) (m : Manager S)
      → (elect_for_master zk c hostname m).1 ≡ ok tt
      → IsTold m (elect_for_master zk c hostname m).0
  unfolding elect_for_master
  elect_for_master-tells (ok name) m h =
      and_then_cases (λ r. Tells m r) m (get_zk_master_node zk c m) (elect_with zk c name)
        (ap (λ v. v.0) (get_zk_master_node-IsKept zk c m))
        (λ o m' s. elect_with-Tells name o m m' s) (λ e m' s q. cc) (λ m' s q. cc) h
  elect_for_master-tells (err e) m h = cc
  elect_for_master-tells panicked m h = cc

  elect_again-register :
      (name : GoString) (m : Manager S)
      → m.connected ≡ true
      → (zk.get c.zk_election_node_uri m.zk).1 ≡ ok name
      → (zk.create c.zk_election_node_uri name ephemeral (zk.get c.zk_election_node_uri m.zk).0).1
        ≡ err (codes "zk: node already exists")
      → (m' : Manager S) × IsSilent m m'
        × (m'.is_master ≡ true)
        × (elect_for_master zk c (ok name) m ≡ register_as_slave zk c name m')
  unfolding elect_for_master
  elect_again-register name m h g k =
      let s = (zk.get c.zk_election_node_uri m.zk).0 in
      let m1 : Manager S = record m { zk = s } in
      let m2 : Manager S = record m1 { is_master = true } in
      let m3 : Manager S = record m2 {
        zk = (zk.create c.zk_election_node_uri name ephemeral s).0;
      } in
      let found : get_zk_master_node zk c m ≡ (m1, ok (some name)) =
        unfold get_zk_master_node get_node_data request no_node in rw (h, g) in
      let made : request (zk.create c.zk_election_node_uri name ephemeral) m2
          ≡ (m3, err (codes "zk: node already exists")) =
        unfold request in rw (h, k) in
      (
        m3,
        refl,
        refl,
        ap (λ r. and_then r (elect_with zk c name)) found
            ∙ (unfold elect_with create_master in rw (str_eq_refl name))
            ∙ ap (on_created zk c name) made
            ∙ (unfold on_created in rw (str_eq_refl (codes "zk: node already exists"))),
      )

  register_as_slave-Settles :
      (name : GoString) (m : Manager S) → Settles m (register_as_slave zk c name m)
  unfolding register_as_slave become_slave
  register_as_slave-Settles name m =
      and_then-Settles m (create_slave_dir zk c m) _ (create_slave_dir-IsKept zk c m) λ _ m1 q1.
        and_then-Settles m (get_node_data zk (slave_node c name) m1) _
          (get_node_data-IsKept zk c (slave_node c name) m1 ∙ q1)
          λ text m2 q2.
            and_then-Settles m (create_if_missing zk (slave_node c name) name ephemeral text m2) _
              (create_if_missing-IsKept zk c (slave_node c name) name ephemeral text m2 ∙ q2)
              (λ _ m3 q3. inl (refl, ap (λ v. v.0 ++ slave ∷ []) q3, refl))

  -- A master that elects again, when the connection is kept, finds its own name and tries to create the
  -- node that exists. If that is refused, and the node is then registered as a slave, the election
  -- returns without an error, the master has ended as a slave, and tells so by one signal; if the
  -- registration fails, the election does not succeed, the node is still the master, and tells nothing.
  pub elect_again-demotes :
      (name : GoString) (m : Manager S)
      → m.connected ≡ true
      → (zk.get c.zk_election_node_uri m.zk).1 ≡ ok name
      → (zk.create c.zk_election_node_uri name ephemeral (zk.get c.zk_election_node_uri m.zk).0).1
        ≡ err (codes "zk: node already exists")
      → (((elect_for_master zk c (ok name) m).1 ≡ ok tt)
          × ((elect_for_master zk c (ok name) m).0.feedback ≡ m.feedback ++ slave ∷ [])
          × ((elect_for_master zk c (ok name) m).0.is_master ≡ false))
        ⊎ (((elect_for_master zk c (ok name) m).1 ≢ ok tt)
            × ((elect_for_master zk c (ok name) m).0.feedback ≡ m.feedback)
            × ((elect_for_master zk c (ok name) m).0.is_master ≡ true))
  elect_again-demotes name m h g k =
      let (m', s, b, e) = elect_again-register name m h g k in
      subst (λ r. Settles (record m { is_master = true }) r) (sym e)
        (elim (register_as_slave-Settles name m') [
          | inl (o, f, r) ↦ inl (o, f ∙ ap (λ l. l ++ slave ∷ []) s, r)
          | inr (o, f, r) ↦ inr (o, f ∙ s, r ∙ b)
        ])
