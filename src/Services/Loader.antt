-- ===== src/Services/Loader.antt =====
-- loader/loader.go: a file is found, opened and decoded into the settings. The file system and the decoders
-- of encoding/json, yaml and toml are parameters.
use gobol.Base.Text.{GoString, Bytes}
use gobol.Base.Outcome.{Outcome, ◌>>=◌}

module _ {Settings : Type 0} (absolute : GoString → Outcome GoString GoString)
    (read_file : GoString → Outcome GoString Bytes)
    (decode : Bytes → Settings → Outcome GoString Settings) where
  -- ConfJson, with os.Open in front of the decoder
  unfoldable pub conf_json : GoString → Settings → Outcome GoString Settings
  conf_json path settings = absolute path >>= λ p. read_file p >>= λ b. decode b settings

  -- ConfYaml
  unfoldable pub conf_yaml : GoString → Settings → Outcome GoString Settings
  conf_yaml path settings = absolute path >>= λ p. read_file p >>= λ b. decode b settings

-- ConfToml
unfoldable pub conf_toml :
    {Settings : Type 0}
    → (GoString → Outcome GoString GoString)
    → (GoString → Settings → Outcome GoString Settings)
    → GoString
    → Settings
    → Outcome GoString Settings
conf_toml absolute decode_file path settings = absolute path >>= λ p. decode_file p settings
