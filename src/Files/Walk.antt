-- ===== src/Files/Walk.antt =====
-- What the scanner uses of the standard library: os.FileInfo, and filepath.Walk over a tree of folders and
-- files.
use gobol.Base.{Bool, Option, none, some}
use gobol.Base.Text.{GoString}
use gobol.Base.Int.{ℤ}

pub record FileInfo : Type 0 where
  pub name : GoString
  pub size : ℤ
  pub mod_time : ℤ
  pub is_dir : Bool

mutual
  -- A path of the tree: one that os.Lstat refuses, a file, or a folder, whose list of names may not be
  -- readable.
  pub data Node : Type 0 where
    refused : GoString → Node
    file : FileInfo → Node
    folder : FileInfo → Option GoString → Entries → Node

  pub data Entries : Type 0 where
    end : Entries
    entry : GoString → Node → Entries → Entries

-- The function that Walk calls at each path; it does not give SkipDir.
abbrev pub WalkFunc : Type 0 → Type 0
WalkFunc S = GoString → Option FileInfo → Option GoString → S → S × Option GoString

module _ {S : Type 0} where
  -- Whether the walk goes on after a call.
  unfoldable pub unless_failed :
      S × Option GoString → (S → S × Option GoString) → S × Option GoString
  unless_failed (s, none) k = k s
  unless_failed (s, some e) k = (s, some e)

  -- The end of a folder whose names could not be read.
  unfoldable pub enter :
      Option GoString → S × Option GoString → (S → S × Option GoString) → S × Option GoString
  unfolding unless_failed
  enter none r k = unless_failed r k
  enter (some e) r k = r

module _ (join : GoString → GoString → GoString) {S : Type 0} (fn : WalkFunc S) where
  unfoldable mutual
    unfolding enter unless_failed

    -- filepath.Walk, with Lstat of the root
    pub walk : GoString → Node → S → S × Option GoString
    walk path (refused e) s = fn path none (some e) s
    walk path (file f) s = fn path (some f) none s
    walk path (folder f e es) s = enter e (fn path (some f) e s) (walk_entries path es)

    pub walk_entries : GoString → Entries → S → S × Option GoString
    walk_entries path end s = (s, none)
    walk_entries path (entry name node es) s =
        unless_failed (walk (join path name) node s) (walk_entries path es)
