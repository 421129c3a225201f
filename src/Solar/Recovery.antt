-- ===== src/Solar/Recovery.antt =====
-- What the recovery from a panic of go-solr makes of an operation.
use gobol.Base.{◌≡◌, ap, ◌∙◌, ℕ, Bool, some, [], ◌∷◌}
use gobol.Base.Text.{GoString}
use gobol.Base.Outcome.{ok, panicked}
use gobol.Solar.{
  Library, SolrService, and_then, call, recovered, get_solr_interface, commit_values, add_all,
  add_document, delete_all, delete_document_by_query, succeeded,
}

-- Where go-solr panics in the update of an interface, AddDocument returns no error, though nothing says that
-- the document was added, and so does DeleteDocumentByQuery.
pub recovered-succeeds :
    (l : Library) (collection : GoString) (commit : Bool) (d : l.Document) (c : ℕ)
    (query : GoString) (s t : SolrService l) (i : l.Interface) (v w : l.Server)
    → get_solr_interface l collection s ≡ (t, ok i)
    → l.add i (d ∷ []) (commit_values l commit) t.server ≡ (v, panicked)
    → l.delete i (c ∷ query) (commit_values l commit) t.server ≡ (w, panicked)
    → (add_document l collection commit (some d) s ≡ (record t { server = v }, ok tt))
      × (delete_document_by_query l collection commit (c ∷ query) s
          ≡ (record t { server = w }, ok tt))
unfolding add_document add_all delete_document_by_query delete_all and_then call recovered succeeded
recovered-succeeds l collection commit d c query s t i v w g a b = (
  ap (λ r. recovered l (and_then l r (λ j. call l (l.add j (d ∷ []) (commit_values l commit))))) g
      ∙ ap (λ r. recovered l (record t { server = r.0 }, r.1)) a,
  ap
        (λ r. recovered l (
          and_then l r (λ j u.
            and_then l (call l (l.delete j (c ∷ query) (commit_values l commit)) u) (succeeded l))))
        g
      ∙ ap (λ r. recovered l (and_then l (record t { server = r.0 }, r.1) (succeeded l))) b,
)
