-- ===== src/Application/Create.antt =====
-- `create_app` and the rest of app/main.py that puts the application together.
use va_enp_api.Prelude.{ℕ, String, ◌≡◌, Bool, true, false, List, [], ◌∷◌, ◌++◌, if◌then◌else◌}
use va_enp_api.State.{EnpState, new_enp_state}
use va_enp_api.Logging.Loggers.{LoggingState, make_logger}
use va_enp_api.Start.Lifespan.{RedisManager}
use va_enp_api.Application.Routers.{
  Method, get, post, admin_bearer, chained, api_route, legacy_timed_api_route, timed_api_route,
  Endpoint, simple_route, get_legacy_notification, create_push_notification,
  legacy_notification_post_handler, create_device_registration, get_notification,
  create_notification, own_page, Dependency, RouteClass, Route, Router, FastApi, decorated,
  v3_router, v2_legacy_notification_router, v2_notification_router,
}

-- `CustomFastAPI`: a FastAPI application is a router too. A mount is its path and its directory.
pub record CustomFastApi : Type 0 where
  pub router : Router
  pub enp_state : EnpState RedisManager
  pub mounts : List (String × String)
  pub middleware : List String
  pub instrumented : Bool

-- The pages about the interface that FastAPI adds to every application, unless it is told not to.
abbrev pub own_page_at : String → Route
own_page_at path = record {
  method = get;
  path = path;
  status_code = 200;
  dependencies = [];
  route_class = api_route;
  endpoint = own_page;
}

abbrev pub own_pages : List Route
own_pages =
    own_page_at "/openapi.json"
    ∷ own_page_at "/docs"
    ∷ own_page_at "/docs/oauth2-redirect"
    ∷ own_page_at "/redoc"
    ∷ []

-- `CustomFastAPI(lifespan=lifespan)`
abbrev pub new_app : CustomFastApi
new_app = record {
  router = record { prefix = ""; dependencies = []; route_class = api_route; routes = own_pages };
  enp_state = new_enp_state;
  mounts = [];
  middleware = [];
  instrumented = false;
}

abbrev pub mkdocs_directory : String
mkdocs_directory = "site"

module _ (f : FastApi) where
  abbrev pub include : Router → CustomFastApi → CustomFastApi
  include router app = record app { router = f.include_router app.router router }

  abbrev pub register : Route → CustomFastApi → CustomFastApi
  register route app = record app { router = f.add_api_route app.router route }

  -- `os.path.exists(MKDOCS_DIRECTORY)` is the second argument.
  abbrev pub mount_docs : Bool → CustomFastApi → CustomFastApi
  mount_docs exists app =
      if exists
      then record app { mounts = app.mounts ++ ("/mkdocs", mkdocs_directory) ∷ [] }
      else app

  abbrev pub instrument : CustomFastApi → CustomFastApi
  instrument app = record app { instrumented = true }

  unfoldable pub create_app : Bool → LoggingState → CustomFastApi × LoggingState
  unfolding make_logger
  create_app docs_exist loggers = (
    mount_docs docs_exist (
        instrument (
          include (v2_notification_router f)
            (include (v2_legacy_notification_router f) (include (v3_router f) new_app)))),
    make_logger loggers,
  )

  abbrev pub add_context_middleware : CustomFastApi → CustomFastApi
  add_context_middleware app = record app {
    middleware = app.middleware ++ "ContextMiddleware" ∷ [];
  }

  -- The module itself, with the two routes that it declares.
  unfoldable pub app : Bool → LoggingState → CustomFastApi × LoggingState
  unfolding create_app
  app docs_exist loggers =
      let (made, loggers') = create_app docs_exist loggers in
      (
        register
            (decorated get "/legacy/notifications/{notification_id}" 200 (admin_bearer ∷ [])
              get_legacy_notification)
            (register (decorated get "/enp" 200 [] simple_route) (add_context_middleware made)),
        loggers',
      )

abbrev served : Method → String → ℕ → List Dependency → RouteClass → Endpoint → Route
served method path status_code dependencies route_class endpoint = record {
  method = method;
  path = path;
  status_code = status_code;
  dependencies = dependencies;
  route_class = route_class;
  endpoint = endpoint;
}

-- The routes of the application, in the order in which FastAPI tries them.
abbrev pub all_routes : List Route
all_routes =
    own_page_at "/openapi.json"
    ∷ own_page_at "/docs"
    ∷ own_page_at "/docs/oauth2-redirect"
    ∷ own_page_at "/redoc"
    ∷ served post "/v3/device-registrations/" 201 (admin_bearer ∷ []) timed_api_route
        create_device_registration
    ∷ served get "/v3/notifications/{notification_id}" 200 (admin_bearer ∷ []) timed_api_route
        get_notification
    ∷ served post "/v3/notifications/" 202 (admin_bearer ∷ []) timed_api_route create_notification
    ∷ served post "/legacy/v2/notifications/push" 201 (chained ∷ []) legacy_timed_api_route
        create_push_notification
    ∷ served post "/legacy/v2/notifications/sms" 201 (chained ∷ []) legacy_timed_api_route
        legacy_notification_post_handler
    ∷ served post "/v2/notifications/sms" 201 (chained ∷ []) legacy_timed_api_route
        legacy_notification_post_handler
    ∷ served get "/enp" 200 [] api_route simple_route
    ∷ served get "/legacy/notifications/{notification_id}" 200 (admin_bearer ∷ []) api_route
        get_legacy_notification
    ∷ []

pub app-all_routes :
    (f : FastApi) (docs_exist : Bool) (loggers : LoggingState)
    → (app f docs_exist loggers).0.router.routes ≡ all_routes
unfolding app create_app
app-all_routes f true loggers = simp (f.adds, f.includes)
app-all_routes f false loggers = simp (f.adds, f.includes)
