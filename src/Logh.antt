-- ===== src/Logh.antt =====
-- logh/logh.go: the levels of the logger and the loggers with a context. The package zerolog is a
-- parameter: whether an event of a level is enabled under a global level.
pub mod Context
mod Tests
use gobol.Base.{ℕ, ◌≡◌, Bool, true, false, Option, none, some, List, [], ◌∷◌, ◌++◌, if◌then◌else◌}
use gobol.Base.Text.{GoString, codes, str_eq}
use gobol.Base.Outcome.{Outcome, ok, panicked, ◌>>=◌}

-- The levels of zerolog that the code uses.
pub data ZeroLevel : Type 0 where
  debug_level : ZeroLevel
  info_level : ZeroLevel
  warn_level : ZeroLevel
  error_level : ZeroLevel
  fatal_level : ZeroLevel
  panic_level : ZeroLevel
  no_level : ZeroLevel
  disabled : ZeroLevel

-- The switch of ConfigureGlobalLogger; another text keeps the level that is set.
unfoldable pub global_level : GoString → ZeroLevel → ZeroLevel
global_level lvl old =
    if str_eq lvl (codes "info")
    then info_level
    else if str_eq lvl (codes "debug")
    then debug_level
    else if str_eq lvl (codes "warn")
    then warn_level
    else if str_eq lvl (codes "error")
    then error_level
    else if str_eq lvl (codes "panic")
    then panic_level
    else if str_eq lvl (codes "fatal")
    then fatal_level
    else if str_eq lvl (codes "none")
    then no_level
    else if str_eq lvl (codes "silent")
    then disabled
    else old

-- An event of a level, with its fields, on the way to an output.
pub record Event : Type 0 where
  pub level : ZeroLevel
  pub to_stderr : Bool
  pub fields : List (GoString × GoString)

-- The global level, the outputs and the flags of the package.
pub record Logger : Type 0 where
  pub global : ZeroLevel
  pub console : Bool
  pub info_enabled : Bool
  pub debug_enabled : Bool
  pub warn_enabled : Bool
  pub error_enabled : Bool
  pub panic_enabled : Bool
  pub fatal_enabled : Bool

module _ (enabled : ZeroLevel → ZeroLevel → Bool) where
  event : ZeroLevel → Bool → ZeroLevel → Option Event
  event level to_stderr global =
      if enabled global level
      then some (record { level = level; to_stderr = to_stderr; fields = [] })
      else none

  -- Info, Debug, Warn, Error, Panic and Fatal, under a global level
  unfoldable pub info : ZeroLevel → Option Event
  unfolding event
  info = event info_level false

  unfoldable pub debug : ZeroLevel → Option Event
  unfolding event
  debug = event debug_level false

  unfoldable pub warn : ZeroLevel → Option Event
  unfolding event
  warn = event warn_level false

  unfoldable pub error : ZeroLevel → Option Event
  unfolding event
  error = event error_level true

  unfoldable pub panic : ZeroLevel → Option Event
  unfolding event
  panic = event panic_level true

  unfoldable pub fatal : ZeroLevel → Option Event
  unfolding event
  fatal = event fatal_level true

  is_some : Option Event → Bool
  is_some none = false
  is_some (some e) = true

  -- ConfigureGlobalLogger
  unfoldable pub configure_global_logger : GoString → GoString → Logger → Logger
  unfolding is_some
  configure_global_logger lvl fmt old =
      let global = global_level lvl old.global in
      record {
        global = global;
        console = str_eq fmt (codes "console");
        info_enabled = is_some (info global);
        debug_enabled = is_some (debug global);
        warn_enabled = is_some (warn global);
        error_enabled = is_some (error global);
        panic_enabled = is_some (panic global);
        fatal_enabled = is_some (fatal global);
      }

-- ContextualLogger, with its keys and values
pub record ContextualLogger : Type 0 where
  pub key_values : List GoString

is_even : List GoString → Bool
is_even [] = true
is_even (k ∷ []) = false
is_even (k ∷ v ∷ kvs) = is_even kvs

-- CreateContextualLogger
unfoldable pub create_contextual_logger : List GoString → Outcome GoString ContextualLogger
unfolding is_even
create_contextual_logger key_values =
    if is_even key_values then ok (record { key_values = key_values }) else panicked

with_field : GoString → GoString → Event → Event
with_field k v e = record e { fields = e.fields ++ (k, v) ∷ [] }

-- The loop of addContext; a key without a value is an index out of range.
add_fields : List GoString → Event → Outcome GoString Event
unfolding with_field
add_fields [] e = ok e
add_fields (k ∷ []) e = panicked
add_fields (k ∷ v ∷ kvs) e = add_fields kvs (with_field k v e)

-- (el *ContextualLogger) addContext
unfoldable pub add_context : ContextualLogger → Option Event → Outcome GoString (Option Event)
unfolding add_fields
add_context el none = ok none
add_context el (some e) = add_fields el.key_values e >>= λ f. ok (some f)
