-- ===== src/Solar.antt =====
-- solar/solr_service.go: the documents of a Solr server, through a cache of interfaces by collection. The
-- package go-solr, with the server behind it, is a parameter; each of its calls may panic.
pub mod Search
pub mod Admin
pub mod Cache
pub mod Recovery
mod Tests
use gobol.Base.{ℕ, Bool, true, false, Option, none, some, List, [], ◌∷◌, ◌++◌, if◌then◌else◌}
use gobol.Base.Text.{GoString, codes, str_eq}
use gobol.Base.Int.{ℤ}
use gobol.Base.SyncMap.{SyncMap, load, store}
use gobol.Base.Outcome.{Outcome as GoOutcome, ok, err, panicked, ◌>>=◌}

pub data Error : Type 0 where
  -- an error that go-solr returns
  of_solr : GoString → Error
  no_document : Error
  no_documents : Error
  no_id : Error
  no_query : Error
  not_deleted : Error
  not_created : Error
  not_removed : Error
  not_listed : Error

abbrev pub Outcome : Type 0 → Type 0
Outcome = GoOutcome Error

-- url.Values, in the order of the calls of Add
abbrev pub Values : Type 0
Values = List (GoString × GoString)

-- The calls that build a solr.Query.
pub data QueryCall : Type 0 where
  q : GoString → QueryCall
  field_list : GoString → QueryCall
  start : ℤ → QueryCall
  rows : ℤ → QueryCall
  filter_query : GoString → QueryCall
  add_facet : GoString → QueryCall
  add_child_facet : GoString → QueryCall
  set_facet_min_count : ℤ → QueryCall
  set_param : GoString → GoString → QueryCall

-- Field
pub record Field : Type 0 where
  pub name : GoString
  pub field_type : GoString
  pub multi_valued : Bool
  pub stored : Bool
  pub indexed : Bool
  pub doc_values : Bool

-- The answer to an action: its status, and the names under "collections", if that is a list; a name is
-- missing where the item is no string.
pub record Answer : Type 0 where
  pub status : ℕ
  pub collections : Option (List (Option GoString))

-- What the code uses of go-solr. A call takes and gives the state of the server.
pub record Library : Type 1 where
  pub Server : Type 0
  pub Interface : Type 0
  pub Schema : Type 0
  pub Document : Type 0
  pub Result : Type 0
  pub new_solr_interface : GoString → GoString → Server → Server × Outcome Interface
  pub add : Interface → List Document → Values → Server → Server × Outcome (Unit {0})
  -- Delete by a query, with the field Success
  pub delete : Interface → GoString → Values → Server → Server × Outcome Bool
  pub search : Interface → List QueryCall → Server → Server × Outcome Result
  pub block_join_faceting : Interface → List QueryCall → Server → Server × Outcome Result
  pub schema : Interface → Server → Server × Outcome Schema
  pub post : Schema → Field → Server → Server × Outcome (Unit {0})
  pub action : GoString → Values → Server → Server × Outcome Answer

-- SolrService, with the server
pub record SolrService (l : Library) : Type 0 where
  pub url : GoString
  pub cache : SyncMap l.Interface
  pub server : l.Server

module _ (l : Library) where
  abbrev pub Call : Type 0 → Type 0
  Call A = SolrService l × Outcome A

  unfoldable pub and_then : {A B : Type 0} → Call A → (A → SolrService l → Call B) → Call B
  and_then (s, ok a) k = k a s
  and_then (s, err e) k = (s, err e)
  and_then (s, panicked) k = (s, panicked)

  -- A call of go-solr.
  unfoldable pub call : {A : Type 0} → (l.Server → l.Server × Outcome A) → SolrService l → Call A
  call f s = let (v, o) = f s.server in (record s { server = v }, o)

  -- recoverFromFailure: the results of the function are unnamed, so that they are then nil.
  unfoldable pub recovered : Call (Unit {0}) → Call (Unit {0})
  recovered (s, ok a) = (s, ok a)
  recovered (s, err e) = (s, err e)
  recovered (s, panicked) = (s, ok tt)

  remember : GoString → l.Interface → SolrService l → Call l.Interface
  remember collection i s = (record s { cache = store s.cache collection i }, ok i)

  -- getSolrInterface
  unfoldable pub get_solr_interface : GoString → SolrService l → Call l.Interface
  unfolding and_then call remember
  get_solr_interface collection s = elim (load s.cache collection) [
    | some i ↦ (s, ok i)
    | none ↦ and_then (call (l.new_solr_interface s.url collection) s) (remember collection)
  ]

  abbrev commit_values : Bool → Values
  commit_values commit = if commit then (codes "commit", codes "true") ∷ [] else []

  add_all : GoString → Bool → List l.Document → SolrService l → Call (Unit {0})
  unfolding and_then call get_solr_interface
  add_all collection commit docs s =
      and_then (get_solr_interface collection s) (λ i. call (l.add i docs (commit_values commit)))

  -- AddDocument, of a document that may be nil
  unfoldable pub add_document :
      GoString → Bool → Option l.Document → SolrService l → Call (Unit {0})
  unfolding recovered add_all
  add_document collection commit none s = (s, err no_document)
  add_document collection commit (some d) s = recovered (add_all collection commit (d ∷ []) s)

  -- AddDocuments
  unfoldable pub add_documents : GoString → Bool → List l.Document → SolrService l → Call (Unit {0})
  unfolding recovered add_all
  add_documents collection commit [] s = (s, err no_documents)
  add_documents collection commit (d ∷ ds) s = recovered (add_all collection commit (d ∷ ds) s)

  succeeded : Bool → SolrService l → Call (Unit {0})
  succeeded true s = (s, ok tt)
  succeeded false s = (s, err not_deleted)

  delete_all : GoString → Bool → GoString → SolrService l → Call (Unit {0})
  unfolding and_then call get_solr_interface succeeded
  delete_all collection commit query s =
      and_then (get_solr_interface collection s)
        (λ i t. and_then (call (l.delete i query (commit_values commit)) t) succeeded)

  -- DeleteDocumentByQuery
  unfoldable pub delete_document_by_query :
      GoString → Bool → GoString → SolrService l → Call (Unit {0})
  unfolding recovered delete_all
  delete_document_by_query collection commit [] s = (s, err no_query)
  delete_document_by_query collection commit (c ∷ query) s =
      recovered (delete_all collection commit (c ∷ query) s)

  -- DeleteDocumentByID
  unfoldable pub delete_document_by_id :
      GoString → Bool → GoString → SolrService l → Call (Unit {0})
  unfolding recovered delete_document_by_query
  delete_document_by_id collection commit [] s = (s, err no_id)
  delete_document_by_id collection commit (c ∷ id) s =
      recovered (delete_document_by_query collection commit (codes "id:" ++ c ∷ id) s)

  -- NewSolrService, with the result of solr.NewCollectionsAdmin
  unfoldable pub new_solr_service :
      Outcome (Unit {0}) → GoString → l.Server → Outcome (SolrService l)
  new_solr_service admin url server =
      admin >>= λ u. ok (record { url = url; cache = []; server = server })
