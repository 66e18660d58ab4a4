-- ===== src/Application/Samples.antt =====
-- FastAPI's two operations on routers, as they are documented.
use va_enp_api.Prelude.{refl, [], ◌∷◌}
use va_enp_api.Application.Routers.{FastApi, holding, within, all_within}

abbrev pub fast_api : FastApi
fast_api = record {
  add_api_route = λ router route.
      holding router (within router (record route { route_class = router.route_class }) ∷ []);
  include_router = λ router included. holding router (all_within router included.routes);
  adds = λ router route. refl;
  includes = λ router included. refl;
}
