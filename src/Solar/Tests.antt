-- ===== src/Solar/Tests.antt =====
-- The theorems on the Solr service over a server that counts its calls, and runs of its operations.
use gobol.Base.{◌≡◌, refl, ℕ, ◌+◌, true, false, none, some, List, [], ◌∷◌}
use gobol.Base.Text.{GoString, codes, str_eq}
use gobol.Base.Int.{pos}
use gobol.Base.SyncMap.{load, store}
use gobol.Base.Outcome.{ok, err, panicked}
use gobol.Solar.{
  Library, SolrService, Answer, no_id, get_solr_interface, add_document, add_documents, and_then,
  call, recovered, delete_document_by_id, delete_document_by_query, commit_values,
}
use gobol.Solar.Search.{facet_query, build_basic_query, build_filtered_query}
use gobol.Solar.Admin.{list_collections}
use gobol.Solar.Cache.{MakesOwned}
use gobol.Solar.Cache.Operations.{
  Operation, add_one, delete_id, simple, remove, list, perform_all, perform_all-interface,
}
use gobol.Solar.Recovery.{recovered-succeeds}

-- The server is the number of its calls, and an interface the name of its collection; a deletion panics.
abbrev library : Library
library = record {
  Server = ℕ;
  Interface = GoString;
  Schema = Unit;
  Document = GoString;
  Result = GoString;
  new_solr_interface = λ url c n. (n + 1, ok c);
  add = λ i docs v n. (n + 1, panicked);
  delete = λ i query v n. (n + 1, panicked);
  search = λ i query n. (n + 1, ok []);
  block_join_faceting = λ i query n. (n + 1, ok []);
  schema = λ i n. (n + 1, ok tt);
  post = λ s f n. (n + 1, ok tt);
  action = λ name v n.
      (n + 1, ok (record { status = 0; collections = some (some (codes "a") ∷ none ∷ []) }));
}

abbrev service : SolrService library
service = record { url = codes "http://solr"; cache = []; server = 0 }

owned : MakesOwned library (λ i. i)
owned url collection v w i h = cc

abbrev course : List (Operation library)
course =
    add_one (codes "c") true (some (codes "d"))
    ∷ delete_id (codes "c") false (codes "7")
    ∷ simple (codes "b") (codes "*:*") [] (pos 0) (pos 10)
    ∷ []

abbrev after : SolrService library
after = perform_all library course service

known : (get_solr_interface library (codes "c") after).1 ≡ ok (codes "c")
unfolding get_solr_interface add_document delete_document_by_id delete_document_by_query
    gobol.Solar.Search.simple_query gobol.Solar.Search.recovered_result load store str_eq
known = refl

abbrev later : SolrService library
later =
    perform_all library (remove (codes "c") ∷ list ∷ [])
      (get_solr_interface library (codes "c") after).0

perform_all-interface_example :
    (codes "c" ≡ codes "c")
    × (get_solr_interface library (codes "c") later ≡ (later, ok (codes "c")))
perform_all-interface_example =
    perform_all-interface library (λ i. i) owned course (remove (codes "c") ∷ list ∷ []) service
      (codes "c") (codes "c") (tt, tt) known

abbrev opened : SolrService library
opened = record service { cache = (codes "c", codes "c") ∷ []; server = 1 }

opens : get_solr_interface library (codes "c") service ≡ (opened, ok (codes "c"))
unfolding get_solr_interface load store
opens = refl

reported :
    (add_document library (codes "c") true (some (codes "d")) service
      ≡ (record opened { server = 2 }, ok tt))
    × (delete_document_by_query library (codes "c") true (codes "q") service
        ≡ (record opened { server = 2 }, ok tt))
reported =
    recovered-succeeds library (codes "c") true (codes "d") b'q' [] service opened (codes "c") 2 2
      opens refl refl

refused : delete_document_by_id library (codes "c") true [] service ≡ (service, err no_id)
unfolding delete_document_by_id
refused = refl

-- An item of the list that is no string makes ListCollections panic.
unlisted : (list_collections library service).1 ≡ panicked
unfolding list_collections and_then call
unlisted = refl
