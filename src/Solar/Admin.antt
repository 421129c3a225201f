-- ===== src/Solar/Admin.antt =====
-- solar/solr_admin.go: the schema of a collection, and the collections.
use gobol.Base.{ℕ, ◌==◌, Option, none, some, List, [], ◌∷◌, if◌then◌else◌}
use gobol.Base.Text.{GoString, codes, str_eq, itoa}
use gobol.Base.Outcome.{ok, err, panicked, ◌>>=◌}
use gobol.Solar.{
  Error, Outcome, Values, Field, Answer, not_created, not_removed, not_listed, Library, SolrService,
  Call, and_then, call, get_solr_interface,
}

-- The names in the answer to LIST; the assertions panic on a missing list and on an item that is no string.
names_of : List (Option GoString) → Outcome (List GoString)
names_of [] = ok []
names_of (none ∷ items) = panicked
names_of (some name ∷ items) = names_of items >>= λ names. ok (name ∷ names)

collections_of : Option (List (Option GoString)) → Outcome (List GoString)
unfolding names_of
collections_of none = panicked
collections_of (some items) = names_of items

create_values : GoString → GoString → ℕ → ℕ → Values
create_values collection config_set num_shards replication_factor =
    (codes "name", collection)
    ∷ (codes "numShards", itoa num_shards)
    ∷ (codes "replicationFactor", itoa replication_factor)
    ∷ (codes "waitForFinalState", codes "true")
    ∷ (if str_eq config_set [] then [] else (codes "collection.configName", config_set) ∷ [])

module _ (l : Library) where
  -- getSchema
  unfoldable pub get_schema : GoString → SolrService l → Call l l.Schema
  get_schema collection s =
      and_then l (get_solr_interface l collection s) (λ i. call l (l.schema i))

  -- AddNewField
  unfoldable pub add_new_field : GoString → Field → SolrService l → Call l (Unit {0})
  unfolding get_schema
  add_new_field collection field s =
      and_then l (get_schema collection s) (λ schema. call l (l.post schema field))

  -- The test of the status of an action.
  unfoldable pub accepted : Error → Answer → SolrService l → Call l Answer
  accepted problem r s = if r.status == 0 then (s, ok r) else (s, err problem)

  unfoldable pub acted : Error → GoString → Values → SolrService l → Call l Answer
  unfolding accepted
  acted problem name params s = and_then l (call l (l.action name params) s) (accepted problem)

  -- CreateCollection
  unfoldable pub create_collection : GoString → GoString → ℕ → ℕ → SolrService l → Call l (Unit {0})
  unfolding acted create_values
  create_collection collection config_set num_shards replication_factor s =
      and_then l
        (acted not_created (codes "CREATE")
          (create_values collection config_set num_shards replication_factor) s)
        (λ r t. (t, ok tt))

  -- DeleteCollection
  unfoldable pub delete_collection : GoString → SolrService l → Call l (Unit {0})
  unfolding acted
  delete_collection collection s =
      and_then l (acted not_removed (codes "DELETE") ((codes "name", collection) ∷ []) s)
        (λ r t. (t, ok tt))

  -- ListCollections
  unfoldable pub list_collections : SolrService l → Call l (List GoString)
  unfolding acted collections_of
  list_collections s =
      and_then l (acted not_listed (codes "LIST") [] s) (λ r t. (t, collections_of r.collections))
