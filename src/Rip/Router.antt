-- ===== src/Rip/Router.antt =====
-- rip/router.go: the two handlers that NewCustomRouter puts into the httprouter, whose lookup is a
-- parameter.
use gobol.Base.{◌≡◌, ap}
use gobol.NetHttp.Handler.{Request, Handler, done, write_header}

-- What the router finds for a request.
pub data Lookup : Type 0 where
  found : (Request → Handler) → Lookup
  not_allowed : Lookup
  not_found : Lookup

respond : Request → Lookup → Handler
respond r (found handle) = handle r
respond r not_allowed = write_header 405 done
respond r not_found = write_header 404 done

-- NewCustomRouter
unfoldable pub custom_router : (Request → Lookup) → Request → Handler
unfolding respond
custom_router look_up r = respond r (look_up r)

pub custom_router-not_found :
    (look_up : Request → Lookup) (r : Request)
    → look_up r ≡ not_found
    → custom_router look_up r ≡ write_header 404 done
unfolding custom_router
custom_router-not_found look_up r h = ap (respond r) h

pub custom_router-not_allowed :
    (look_up : Request → Lookup) (r : Request)
    → look_up r ≡ not_allowed
    → custom_router look_up r ≡ write_header 405 done
unfolding custom_router
custom_router-not_allowed look_up r h = ap (respond r) h
