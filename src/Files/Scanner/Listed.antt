-- ===== src/Files/Scanner/Listed.antt =====
-- The result of a scan, by the files of the tree.
use gobol.Base.{
  ◌≡◌, ap, sym, ◌∙◌, refl, inl, inr, Bool, true, false, not, ◌&&◌, Option, none, some, List, [],
  ◌∷◌, ◌++◌, append-nil, append_assoc, if◌then◌else◌, arith, Bool-cases, ◌+◌, length,
}
use gobol.Base.Text.{GoString}
use gobol.Base.Int.{ℤ, int_lt}
use gobol.Files.Walk.{
  FileInfo, Node, Entries, refused, file, folder, end, entry, walk, walk_entries, enter,
  unless_failed,
}
use gobol.Files.Scanner.{File, Scanner, file_of, ignore, visit_file, visit, scan}

-- IsDir holds for the folders, and for no file.
abbrev mutual
  pub IsTree : Node → Type 0
  IsTree (refused e) = Unit
  IsTree (file f) = f.is_dir ≡ false
  IsTree (folder f e es) = (f.is_dir ≡ true) × AreTrees es

  AreTrees : Entries → Type 0
  AreTrees end = Unit
  AreTrees (entry name node es) = IsTree node × AreTrees es

-- The files up to the first path that cannot be read, in the order of the tree, and the error of that path.
abbrev pub Listing : Type 0
Listing = List (GoString × FileInfo) × Option GoString

followed_by : Listing → Listing → Listing
followed_by (fs, none) (gs, e) = (fs ++ gs, e)
followed_by (fs, some d) l = (fs, some d)

module _ (join : GoString → GoString → GoString) where
  unfoldable mutual
    unfolding followed_by

    pub listed : GoString → Node → Listing
    listed path (refused e) = ([], some e)
    listed path (file f) = ((path, f) ∷ [], none)
    listed path (folder f none es) = listed_entries path es
    listed path (folder f (some e) es) = ([], some e)

    pub listed_entries : GoString → Entries → Listing
    listed_entries path end = ([], none)
    listed_entries path (entry name node es) =
        followed_by (listed (join path name) node) (listed_entries path es)

module _ (matches : GoString → Bool) (size : ℤ) where
  -- The files that match and have the least size, and the others.
  unfoldable pub found : List (GoString × FileInfo) → List File
  found [] = []
  found ((path, f) ∷ fs) =
      let rest = found fs in
      if matches path && not (int_lt f.size size) then file_of path f false ∷ rest else rest

  unfoldable pub passed_over : List (GoString × FileInfo) → List File
  passed_over [] = []
  passed_over ((path, f) ∷ fs) =
      let rest = passed_over fs in
      if matches path && not (int_lt f.size size) then rest else file_of path f true ∷ rest

  found-append : (fs gs : List (GoString × FileInfo)) → found (fs ++ gs) ≡ found fs ++ found gs
  unfolding found
  found-append [] gs = refl
  found-append ((path, f) ∷ fs) gs = elim (Bool-cases (matches path && not (int_lt f.size size))) [
    | inl e ↦ rw e (ap (λ l. file_of path f false ∷ l) (found-append fs gs))
    | inr e ↦ rw e (found-append fs gs)
  ]

  passed_over-append :
      (fs gs : List (GoString × FileInfo))
      → passed_over (fs ++ gs) ≡ passed_over fs ++ passed_over gs
  unfolding passed_over
  passed_over-append [] gs = refl
  passed_over-append ((path, f) ∷ fs) gs =
      elim (Bool-cases (matches path && not (int_lt f.size size))) [
        | inl e ↦ rw e (passed_over-append fs gs)
        | inr e ↦ rw e (ap (λ l. file_of path f true ∷ l) (passed_over-append fs gs))
      ]

abbrev pub list_of : Option GoString → List GoString
list_of none = []
list_of (some e) = e ∷ []

-- The scanner after a listing.
abbrev after : Listing → Scanner → Scanner
after (fs, e) s = record s {
  files_found = s.files_found ++ found s.file_regexp s.min_file_size fs;
  ignored_files = s.ignored_files ++ passed_over s.file_regexp s.min_file_size fs;
  errors_found = s.errors_found ++ list_of e;
}

visit_file-after :
    (path : GoString) (f : FileInfo) (s : Scanner)
    → visit_file path f s ≡ after ((path, f) ∷ [], none) s
unfolding visit_file ignore found passed_over
visit_file-after path f s = elim (Bool-cases (s.file_regexp path)) [
  | inl e ↦ elim (Bool-cases (int_lt f.size s.min_file_size)) [
    | inl d ↦ rw (e, d) (simp append-nil)
    | inr d ↦ rw (e, d) (simp append-nil)
  ]
  | inr e ↦ rw e (simp append-nil)
]

visit-file :
    (path : GoString) (f : FileInfo) (s : Scanner)
    → f.is_dir ≡ false
    → visit path (some f) none s ≡ (after ((path, f) ∷ [], none) s, none)
unfolding visit
visit-file path f s d =
    ap (λ b. if b then (s, none) else (visit_file path f s, none)) d
    ∙ ap (λ x. (x, none)) (visit_file-after path f s)

visit-folder :
    (path : GoString) (f : FileInfo) (s : Scanner)
    → f.is_dir ≡ true
    → visit path (some f) none s ≡ (s, none)
unfolding visit
visit-folder path f s d = ap (λ b. if b then (s, none) else (visit_file path f s, none)) d

visit-error :
    (path : GoString) (f : Option FileInfo) (e : GoString) (s : Scanner)
    → visit path f (some e) s ≡ (after ([], some e) s, some e)
unfolding visit found passed_over
visit-error path f e s = simp append-nil

after-nothing : (s : Scanner) → after ([], none) s ≡ s
unfolding found passed_over
after-nothing s = simp append-nil

after-followed :
    (l m : Listing) (s : Scanner) → l.1 ≡ none → after m (after l s) ≡ after (followed_by l m) s
unfolding followed_by
after-followed (fs, none) (gs, e) s h = simp (
  found-append s.file_regexp s.min_file_size fs gs,
  passed_over-append s.file_regexp s.min_file_size fs gs,
  append-nil,
  append_assoc,
)
after-followed (fs, some d) m s h = absurd cc

found-count :
    (matches : GoString → Bool) (size : ℤ) (fs : List (GoString × FileInfo))
    → length (found matches size fs) + length (passed_over matches size fs) ≡ length fs
unfolding found passed_over
found-count matches size [] = omega arith
found-count matches size ((path, f) ∷ fs) = ground (arith, found-count matches size fs)

module _ (join : GoString → GoString → GoString) where
  -- The walk and the listing of one path agree.
  abbrev Agrees : Listing → Scanner → Scanner × Option GoString → Type 0
  Agrees l s r = r ≡ (after l s, l.1)

  Agrees-entry :
      (l m : Listing) (s : Scanner) (r : Scanner × Option GoString)
      (k : Scanner → Scanner × Option GoString)
      → Agrees l s r
      → ((t : Scanner) → Agrees m t (k t))
      → Agrees (followed_by l m) s (unless_failed r k)
  unfolding followed_by unless_failed
  Agrees-entry (fs, none) m s r k a b =
      ap (λ x. unless_failed x k) a
      ∙ b (after (fs, none) s)
      ∙ ap (λ x. (x, m.1)) (after-followed (fs, none) m s refl)
  Agrees-entry (fs, some d) m s r k a b = ap (λ x. unless_failed x k) a

  mutual
    unfolding walk listed enter unless_failed

    walk-listed :
        (path : GoString) (node : Node) (s : Scanner)
        → IsTree node
        → Agrees (listed join path node) s (walk join visit path node s)
    walk-listed path (refused e) s t = visit-error path none e s
    walk-listed path (file f) s t = visit-file path f s t
    walk-listed path (folder f (some e) es) s (d, t) = visit-error path (some f) e s
    walk-listed path (folder f none es) s (d, t) =
        ap (λ x. unless_failed x (walk_entries join visit path es)) (visit-folder path f s d)
        ∙ walk_entries-listed path es s t

    walk_entries-listed :
        (path : GoString) (es : Entries) (s : Scanner)
        → AreTrees es
        → Agrees (listed_entries join path es) s (walk_entries join visit path es s)
    walk_entries-listed path end s t = ap (λ x. (x, none)) (sym (after-nothing s))
    walk_entries-listed path (entry name node es) s (t, ts) =
        Agrees-entry (listed join (join path name) node) (listed_entries join path es) s
          (walk join visit (join path name) node s) (walk_entries join visit path es)
          (walk-listed (join path name) node s t) (λ u. walk_entries-listed path es u ts)

  -- A scan of a tree, whatever the scanner found before, gives the files that match the expression and have
  -- the least size, and apart from them all others, both in the order of the tree. At the first path that
  -- cannot be read the scan ends: it returns that error, which is the only one of the result, with the
  -- files before it; without such a path it returns no error.
  pub scan-listed :
      (root : GoString) (node : Node) (s : Scanner)
      → IsTree node
      → ((scan join root node s).1 ≡ record {
        files = found s.file_regexp s.min_file_size (listed join root node).0;
        ignored = passed_over s.file_regexp s.min_file_size (listed join root node).0;
        errors = list_of (listed join root node).1;
      })
        × ((scan join root node s).2 ≡ (listed join root node).1)
        × (length (scan join root node s).1.files + length (scan join root node s).1.ignored
            ≡ length (listed join root node).0)
  unfolding scan
  scan-listed root node s t =
      let clean : Scanner = record s { files_found = []; ignored_files = []; errors_found = [] } in
      let e = walk-listed root node clean t in
      let same =
        ap
          (λ r. record {
            files = r.0.files_found;
            ignored = r.0.ignored_files;
            errors = r.0.errors_found;
          })
          e in
      (
        same,
        ap (λ r. r.1) e,
        ap (λ r. length r.files + length r.ignored) same
            ∙ found-count s.file_regexp s.min_file_size (listed join root node).0,
      )
