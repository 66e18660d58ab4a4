-- ===== src/Start/Legacy.antt =====
-- The routes that app/main.py has itself.
use va_enp_api.Prelude.{String, List, [], ◌∷◌}
use va_enp_api.Effects.{Exception, Exec, pure, ◌>>=◌}
use va_enp_api.Dao.Lookups.{get_notification}
use va_enp_api.Auth.Service.{Collaborators}
use va_enp_api.Auth.Bearer.{Credentials, jwt_bearer_admin}

-- `GET /enp`
abbrev pub simple_route : List (String × String)
simple_route = ("Hello", "World") ∷ []

-- `GET /legacy/notifications/{notification_id}`, behind its dependency; the row is only logged.
unfoldable pub get_legacy_notification :
    {W : Type 0} → Collaborators W → Credentials → String → Exec W Exception (Unit {0})
unfolding jwt_bearer_admin get_notification
get_legacy_notification c credentials notification_id = do
  passed ← jwt_bearer_admin c credentials
  found ← get_notification c.tenacity c.db notification_id
  pure tt
