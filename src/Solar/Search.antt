-- ===== src/Solar/Search.antt =====
-- solar/solr_search.go: the queries. A result is `none` where the functions return nil without an error,
-- after a panic.
use gobol.Base.{Bool, true, false, Option, none, some, List, [], ◌∷◌, ◌++◌, map, if◌then◌else◌}
use gobol.Base.Text.{GoString, codes, str_eq}
use gobol.Base.Int.{int_itoa, ℤ}
use gobol.Base.Outcome.{ok, err, panicked}
use gobol.Solar.{
  Outcome, QueryCall, q, field_list, start, rows, filter_query, add_facet, add_child_facet,
  set_facet_min_count, set_param, Library, SolrService, Call, and_then, call, get_solr_interface,
}

-- buildBasicQuery
unfoldable pub build_basic_query : GoString → GoString → ℤ → ℤ → List QueryCall
build_basic_query query fields first count =
    q query
    ∷ ((if str_eq fields [] then [] else field_list fields ∷ []) ++ start first ∷ rows count ∷ [])

-- buildFilteredQuery
unfoldable pub build_filtered_query : GoString → GoString → ℤ → ℤ → List GoString → List QueryCall
build_filtered_query query fields first count filters =
    build_basic_query query fields first count ++ map filter_query filters

-- The query of Facets, with addFacets and addChildrenFacets
unfoldable pub facet_query :
    GoString
    → GoString
    → ℤ
    → ℤ
    → List GoString
    → List GoString
    → List GoString
    → ℤ
    → ℤ
    → List QueryCall
unfolding int_itoa
facet_query query fields first count filters facets children limit least =
    build_filtered_query query fields first count filters
    ++ map add_facet facets
    ++ map add_child_facet children
    ++ set_facet_min_count least ∷ set_param (codes "facet.limit") (int_itoa limit) ∷ []

module _ (l : Library) where
  -- recoverFromFailure in the functions that return a result
  unfoldable pub recovered_result : Call l l.Result → Call l (Option l.Result)
  recovered_result (s, ok r) = (s, ok (some r))
  recovered_result (s, err e) = (s, err e)
  recovered_result (s, panicked) = (s, ok none)

  -- SimpleQuery
  unfoldable pub simple_query :
      GoString → GoString → GoString → ℤ → ℤ → SolrService l → Call l (Option l.Result)
  simple_query collection query fields first count s = recovered_result (
      and_then l (get_solr_interface l collection s)
        (λ i. call l (l.search i (build_basic_query query fields first count))))

  -- FilteredQuery
  unfoldable pub filtered_query :
      GoString
      → GoString
      → GoString
      → ℤ
      → ℤ
      → List GoString
      → SolrService l
      → Call l (Option l.Result)
  filtered_query collection query fields first count filters s = recovered_result (
      and_then l (get_solr_interface l collection s)
        (λ i. call l (l.search i (build_filtered_query query fields first count filters))))

  -- The search of Facets.
  search_facets : Bool → List QueryCall → l.Interface → l.Server → l.Server × Outcome l.Result
  search_facets true query i = l.block_join_faceting i query
  search_facets false query i = l.search i query

  -- Facets
  unfoldable pub facets :
      GoString
      → GoString
      → GoString
      → ℤ
      → ℤ
      → List GoString
      → List GoString
      → List GoString
      → Bool
      → ℤ
      → ℤ
      → SolrService l
      → Call l (Option l.Result)
  unfolding search_facets
  facets collection query fields first count filters facet_fields children block_join limit least
        s =
      recovered_result (
        and_then l (get_solr_interface l collection s) (λ i. call l (
          search_facets block_join
            (facet_query query fields first count filters facet_fields children limit least) i)))
