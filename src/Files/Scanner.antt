-- ===== src/Files/Scanner.antt =====
-- files/scanner.go and files/structs.go. The regular expression is a predicate on paths, and the logging
-- has no part in the state.
pub mod Listed
use gobol.Base.{Bool, true, false, Option, none, some, List, [], ◌∷◌, ◌++◌, if◌then◌else◌}
use gobol.Base.Text.{GoString}
use gobol.Base.Int.{ℤ, int_lt}
use gobol.Files.Walk.{FileInfo, Node, walk}

-- File
pub record File : Type 0 where
  pub name : GoString
  pub path : GoString
  pub size : ℤ
  pub last_modification : ℤ
  pub ignored : Bool

-- ScanResult
pub record ScanResult : Type 0 where
  pub files : List File
  pub ignored : List File
  pub errors : List GoString

pub record Scanner : Type 0 where
  pub file_regexp : GoString → Bool
  pub min_file_size : ℤ
  pub files_found : List File
  pub ignored_files : List File
  pub errors_found : List GoString

-- NewScanner
abbrev pub new_scanner : (GoString → Bool) → ℤ → Scanner
new_scanner matches size = record {
  file_regexp = matches;
  min_file_size = size;
  files_found = [];
  ignored_files = [];
  errors_found = [];
}

unfoldable pub file_of : GoString → FileInfo → Bool → File
file_of path f ignored = record {
  name = f.name;
  path = path;
  size = f.size;
  last_modification = f.mod_time;
  ignored = ignored;
}

ignore : GoString → FileInfo → Scanner → Scanner
unfolding file_of
ignore path f s = record s { ignored_files = s.ignored_files ++ file_of path f true ∷ [] }

visit_file : GoString → FileInfo → Scanner → Scanner
unfolding ignore file_of
visit_file path f s =
    if s.file_regexp path
    then (if int_lt f.size s.min_file_size
        then ignore path f s
        else record s { files_found = s.files_found ++ file_of path f false ∷ [] })
    else ignore path f s

-- (s *Scanner) visit; Walk gives either an error or a FileInfo.
unfoldable pub visit :
    GoString → Option FileInfo → Option GoString → Scanner → Scanner × Option GoString
unfolding visit_file
visit path info (some e) s = (record s { errors_found = s.errors_found ++ e ∷ [] }, some e)
visit path none none s = (s, none)
visit path (some f) none s = if f.is_dir then (s, none) else (visit_file path f s, none)

-- (s *Scanner) Scan, on the tree at the root
unfoldable pub scan :
    (GoString → GoString → GoString)
    → GoString
    → Node
    → Scanner
    → Scanner × ScanResult × Option GoString
scan join root node s =
    let (s', e) =
      walk join visit root node
        (record s { files_found = []; ignored_files = []; errors_found = [] }) in
    (s', record { files = s'.files_found; ignored = s'.ignored_files; errors = s'.errors_found }, e)
