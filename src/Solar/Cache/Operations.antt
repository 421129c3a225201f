-- ===== src/Solar/Cache/Operations.antt =====
-- The interfaces after any operations of a service.
use gobol.Base.{◌≡◌, refl, ℕ, Bool, Option, none, some, List, [], ◌∷◌, ◌++◌}
use gobol.Base.Text.{GoString, codes}
use gobol.Base.Int.{ℤ}
use gobol.Base.SyncMap.{load}
use gobol.Base.Outcome.{ok}
use gobol.Solar.{
  Field, Library, SolrService, call, recovered, get_solr_interface, commit_values, add_all,
  add_document, add_documents, succeeded, delete_all, delete_document_by_query,
  delete_document_by_id,
}
use gobol.Solar.Search.{simple_query, filtered_query, facets}
use gobol.Solar.Admin.{
  get_schema, add_new_field, create_collection, delete_collection, list_collections,
}
use gobol.Solar.Cache.{
  MakesOwned, IsOwned, and_then-IsOwned, recovered-IsOwned, recovered_result-IsOwned,
  through-IsOwned, acted-IsOwned, succeeded-IsOwned, get_solr_interface-Gives,
}

-- The operations of a service.
pub data Operation (l : Library) : Type 0 where
  add_one : GoString → Bool → Option l.Document → Operation l
  add_many : GoString → Bool → List l.Document → Operation l
  delete_id : GoString → Bool → GoString → Operation l
  delete_query : GoString → Bool → GoString → Operation l
  simple : GoString → GoString → GoString → ℤ → ℤ → Operation l
  filtered : GoString → GoString → GoString → ℤ → ℤ → List GoString → Operation l
  faceted :
      GoString
      → GoString
      → GoString
      → ℤ
      → ℤ
      → List GoString
      → List GoString
      → List GoString
      → Bool
      → ℤ
      → ℤ
      → Operation l
  add_field : GoString → Field → Operation l
  create : GoString → GoString → ℕ → ℕ → Operation l
  remove : GoString → Operation l
  list : Operation l

module _ (l : Library) where
  abbrev pub perform : Operation l → SolrService l → SolrService l
  perform (add_one c commit d) s = (add_document l c commit d s).0
  perform (add_many c commit ds) s = (add_documents l c commit ds s).0
  perform (delete_id c commit id) s = (delete_document_by_id l c commit id s).0
  perform (delete_query c commit query) s = (delete_document_by_query l c commit query s).0
  perform (simple c query fields a n) s = (simple_query l c query fields a n s).0
  perform (filtered c query fields a n fs) s = (filtered_query l c query fields a n fs s).0
  perform (faceted c query fields a n fs gs hs b lim least) s =
      (facets l c query fields a n fs gs hs b lim least s).0
  perform (add_field c field) s = (add_new_field l c field s).0
  perform (create c config n m) s = (create_collection l c config n m s).0
  perform (remove c) s = (delete_collection l c s).0
  perform list s = (list_collections l s).0

  abbrev pub perform_all : List (Operation l) → SolrService l → SolrService l
  perform_all [] s = s
  perform_all (o ∷ os) s = perform_all os (perform o s)

module _ (l : Library) where
  get_solr_interface-cached :
      (collection : GoString) (i : l.Interface) (s : SolrService l)
      → load s.cache collection ≡ some i
      → get_solr_interface l collection s ≡ (s, ok i)
  unfolding get_solr_interface
  get_solr_interface-cached collection i s h = rw (h, get_solr_interface) refl

module _ (l : Library) (owner : l.Interface → GoString) (law : MakesOwned l owner)
    (kept : Option (GoString × l.Interface)) where
  delete_all-IsOwned :
      (c : GoString) (commit : Bool) (query : GoString) (s : SolrService l)
      → IsOwned l owner kept s
      → IsOwned l owner kept (delete_all l c commit query s).0
  unfolding delete_all succeeded
  delete_all-IsOwned c commit query s h =
      through-IsOwned l owner kept law c _ s
        (λ i t k.
          and_then-IsOwned l owner kept (call l (l.delete i query (commit_values l commit)) t)
            (succeeded l) k (λ b u m. succeeded-IsOwned l owner kept b u m))
        h

  perform-IsOwned :
      (o : Operation l) (s : SolrService l)
      → IsOwned l owner kept s
      → IsOwned l owner kept (perform l o s)
  unfolding add_document add_documents add_all delete_document_by_id delete_document_by_query
      simple_query filtered_query facets add_new_field get_schema create_collection
      delete_collection list_collections call
  perform-IsOwned (add_one c commit none) s h = h
  perform-IsOwned (add_one c commit (some d)) s h =
      recovered-IsOwned l owner kept _ (through-IsOwned l owner kept law c _ s (λ i t k. k) h)
  perform-IsOwned (add_many c commit []) s h = h
  perform-IsOwned (add_many c commit (d ∷ ds)) s h =
      recovered-IsOwned l owner kept _ (through-IsOwned l owner kept law c _ s (λ i t k. k) h)
  perform-IsOwned (delete_id c commit []) s h = h
  perform-IsOwned (delete_id c commit (x ∷ id)) s h =
      let r = delete_all l c commit (codes "id:" ++ x ∷ id) s in
      recovered-IsOwned l owner kept (recovered l r)
        (recovered-IsOwned l owner kept r (delete_all-IsOwned c commit (codes "id:" ++ x ∷ id) s h))
  perform-IsOwned (delete_query c commit []) s h = h
  perform-IsOwned (delete_query c commit (x ∷ query)) s h =
      recovered-IsOwned l owner kept (delete_all l c commit (x ∷ query) s)
        (delete_all-IsOwned c commit (x ∷ query) s h)
  perform-IsOwned (simple c query fields a n) s h =
      recovered_result-IsOwned l owner kept _
        (through-IsOwned l owner kept law c _ s (λ i t k. k) h)
  perform-IsOwned (filtered c query fields a n fs) s h =
      recovered_result-IsOwned l owner kept _
        (through-IsOwned l owner kept law c _ s (λ i t k. k) h)
  perform-IsOwned (faceted c query fields a n fs gs hs b lim least) s h =
      recovered_result-IsOwned l owner kept _
        (through-IsOwned l owner kept law c _ s (λ i t k. k) h)
  perform-IsOwned (add_field c field) s h =
      and_then-IsOwned l owner kept _ _ (through-IsOwned l owner kept law c _ s (λ i t k. k) h)
        (λ x t k. k)
  perform-IsOwned (create c config n m) s h =
      and_then-IsOwned l owner kept _ _ (acted-IsOwned l owner kept _ _ _ s h) (λ r t k. k)
  perform-IsOwned (remove c) s h =
      and_then-IsOwned l owner kept _ _ (acted-IsOwned l owner kept _ _ _ s h) (λ r t k. k)
  perform-IsOwned list s h =
      and_then-IsOwned l owner kept _ _ (acted-IsOwned l owner kept _ _ _ s h) (λ r t k. k)

  perform_all-IsOwned :
      (os : List (Operation l)) (s : SolrService l)
      → IsOwned l owner kept s
      → IsOwned l owner kept (perform_all l os s)
  perform_all-IsOwned [] s h = h
  perform_all-IsOwned (o ∷ os) s h = perform_all-IsOwned os (perform l o s) (perform-IsOwned o s h)

module _ (l : Library) (owner : l.Interface → GoString) (law : MakesOwned l owner) where
  -- From a service whose cache holds each interface under its own collection, after any operations, one
  -- after the other, also ones that fail or panic, the interface that is given for a collection is that of
  -- the collection; and after any further operations, one after the other, the same interface is given
  -- for it, without a call of the server.
  pub perform_all-interface :
      (os more : List (Operation l)) (s : SolrService l) (collection : GoString) (i : l.Interface)
      → IsOwned l owner none s
      → (get_solr_interface l collection (perform_all l os s)).1 ≡ ok i
      → let t = perform_all l more (get_solr_interface l collection (perform_all l os s)).0 in
        (owner i ≡ collection) × (get_solr_interface l collection t ≡ (t, ok i))
  perform_all-interface os more s collection i h e =
      let u = (get_solr_interface l collection (perform_all l os s)).0 in
      let g =
        get_solr_interface-Gives l owner none law collection (perform_all l os s)
          (perform_all-IsOwned l owner law none os s h) in
      let (o, c) = g.1 i e in
      (
        o,
        get_solr_interface-cached l collection i (perform_all l more u)
            (perform_all-IsOwned l owner law (some (collection, i)) more u (g.0.0, c)).1,
      )
