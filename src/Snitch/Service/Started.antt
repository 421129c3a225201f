-- ===== src/Snitch/Service/Started.antt =====
-- When a service starts, and its jobs then.
use gobol.Base.{◌≡◌, ap, ◌∙◌, refl, [], ◌∷◌, ◌++◌, map}
use gobol.Base.Text.{GoString}
use gobol.Base.SyncMap.{SyncMap, keys}
use gobol.Snitch.Point.{CustomPoint}
use gobol.Snitch.Registry.{Stats}
use gobol.Snitch.Registry.Jobs.{IsScheduled, map-append}
use gobol.Snitch.Service.{start}

job_keys :
    (m : SyncMap CustomPoint)
    → map
        (λ (j : GoString × GoString). j.1)
        (map (λ (e : GoString × CustomPoint). (e.1.interval, e.0)) m)
      ≡ keys m
job_keys [] = refl
job_keys ((k, p) ∷ m) = ap (λ l. k ∷ l) (job_keys m)

-- Where every point has one cron job, as the calls of the statistics leave it, the start of the service,
-- which runs in a goroutine of its own, adds a second job for each point that was made before.
pub start-doubles :
    (st : Stats)
    → IsScheduled st
    → map (λ (j : GoString × GoString). j.1) (start st).jobs ≡ keys st.points ++ keys st.points
unfolding start
start-doubles st s =
    map-append (λ j. j.1) st.jobs
      (map (λ (e : GoString × CustomPoint). (e.1.interval, e.0)) st.points)
    ∙ ap (λ l. map (λ (j : GoString × GoString). j.1) st.jobs ++ l) (job_keys st.points)
    ∙ ap (λ l. l ++ keys st.points) s
