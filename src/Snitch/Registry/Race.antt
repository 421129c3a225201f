-- ===== src/Snitch/Registry/Race.antt =====
-- Two calls of getPoint that overlap.
use gobol.Base.{◌≡◌, List, [], ◌∷◌, ◌++◌, map}
use gobol.Base.Text.{GoString}
use gobol.Base.SyncMap.{keys}
use gobol.Snitch.Registry.{Stats}
use gobol.Snitch.Registry.Jobs.{IsScheduled}

abbrev job_keys : Stats → List GoString
job_keys st = map (λ j. j.1) st.jobs

abbrev Doubled : GoString → Stats → Stats → Type 0
Doubled key st st'' =
    (keys st''.points ≡ keys st.points ++ key ∷ [])
    × (map (λ j. j.1) st''.jobs ≡ (keys st.points ++ key ∷ []) ++ key ∷ [])
    × ¬ IsScheduled st''
