-- ===== src/Application/Routers.antt =====
-- The routers of app/v3/__init__.py, app/v3/device_registrations/rest.py, app/v3/notifications/rest.py
-- and app/legacy/v2/notifications/rest.py. FastAPI is a parameter.
use Prim.Native.String
use va_enp_api.Prelude.{ℕ, String, ◌≡◌, List, [], ◌∷◌, ◌++◌}

pub data Method : Type 0 where
  get post : Method

-- What `ChainedDepends` is made of.
pub data Link : Type 0 where
  bearer service_limit daily_limit : Link

-- `Depends(JWTBearerAdmin())`, and `Depends(ChainedDepends(…))`.
pub data Dependency : Type 0 where
  admin_bearer : Dependency
  chain : List Link → Dependency

pub data RouteClass : Type 0 where
  api_route legacy_timed_api_route timed_api_route : RouteClass

-- The functions that the decorators register.
pub data Endpoint : Type 0 where
  simple_route get_legacy_notification create_push_notification : Endpoint
  legacy_notification_post_handler create_device_registration : Endpoint
  get_notification create_notification : Endpoint
  -- The pages that FastAPI itself serves.
  own_page : Endpoint

pub record Route : Type 0 where
  pub method : Method
  pub path : String
  pub status_code : ℕ
  pub dependencies : List Dependency
  pub route_class : RouteClass
  pub endpoint : Endpoint

-- `APIRouter`, with the routes that it has so far.
pub record Router : Type 0 where
  pub prefix : String
  pub dependencies : List Dependency
  pub route_class : RouteClass
  pub routes : List Route

-- A route as a router holds it.
abbrev pub within : Router → Route → Route
within router route = record route {
  path = String.◌++◌ router.prefix route.path;
  dependencies = router.dependencies ++ route.dependencies;
}

abbrev pub holding : Router → List Route → Router
holding router added = record router { routes = router.routes ++ added }

abbrev pub all_within : Router → List Route → List Route
all_within router [] = []
all_within router (route ∷ routes) = within router route ∷ all_within router routes

-- What is documented of FastAPI: a decorator adds a route, of the router's class, and
-- `include_router` adds those of another router; a route gets the prefix of the router that it is
-- added to before its path, and that router's dependencies before its own.
pub record FastApi : Type 0 where
  pub add_api_route : Router → Route → Router
  pub include_router : (router included : Router) → Router
  pub adds :
      (router : Router) (route : Route)
      → add_api_route router route
        ≡ holding router (within router (record route { route_class = router.route_class }) ∷ [])
  pub includes :
      (router included : Router)
      → include_router router included ≡ holding router (all_within router included.routes)

-- The arguments of a decorator, and the function under it.
abbrev pub decorated : Method → String → ℕ → List Dependency → Endpoint → Route
decorated method path status_code dependencies endpoint = record {
  method = method;
  path = path;
  status_code = status_code;
  dependencies = dependencies;
  route_class = api_route;
  endpoint = endpoint;
}

abbrev pub api_router : String → List Dependency → RouteClass → Router
api_router prefix dependencies route_class = record {
  prefix = prefix;
  dependencies = dependencies;
  route_class = route_class;
  routes = [];
}

abbrev pub chained : Dependency
chained = chain (bearer ∷ service_limit ∷ daily_limit ∷ [])

module _ (f : FastApi) where
  abbrev pub device_registrations_router : Router
  device_registrations_router =
      f.add_api_route (api_router "/device-registrations" [] timed_api_route)
        (decorated post "/" 201 [] create_device_registration)

  abbrev pub notifications_router : Router
  notifications_router =
      f.add_api_route
        (f.add_api_route (api_router "/notifications" [] timed_api_route)
          (decorated get "/{notification_id}" 200 [] get_notification))
        (decorated post "/" 202 [] create_notification)

  -- `api_router` of app/v3/__init__.py
  abbrev pub v3_router : Router
  v3_router =
      f.include_router
        (f.include_router (api_router "/v3" (admin_bearer ∷ []) timed_api_route)
          device_registrations_router)
        notifications_router

  abbrev pub v2_legacy_notification_router : Router
  v2_legacy_notification_router =
      f.add_api_route
        (f.add_api_route
          (api_router "/legacy/v2/notifications" (chained ∷ []) legacy_timed_api_route)
          (decorated post "/push" 201 [] create_push_notification))
        (decorated post "/sms" 201 [] legacy_notification_post_handler)

  abbrev pub v2_notification_router : Router
  v2_notification_router =
      f.add_api_route (api_router "/v2/notifications" (chained ∷ []) legacy_timed_api_route)
        (decorated post "/sms" 201 [] legacy_notification_post_handler)
