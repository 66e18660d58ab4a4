-- ===== src/V3/Devices.antt =====
-- What registering a device comes to: `create_device_registration` of
-- app/v3/device_registrations/rest.py, behind the router's dependency.
use va_enp_api.Prelude.{
  ℕ, suc, String, ◌≡◌, refl, subst, inl, inr, Option, none, some, List, [], ◌∷◌, arith,
}
use va_enp_api.Constants.{mobile_app_value}
use va_enp_api.Effects.{
  Exception, attribute_error, ok, err, of_result, item, async_with, Result-cases, >>=-eq-ok,
}
use va_enp_api.Retry.Outcomes.{AllFail, Reaches, more_attempts}
use va_enp_api.Auth.Service.{Collaborators}
use va_enp_api.Auth.Bearer.{Credentials, jwt_bearer_admin}
use va_enp_api.Auth.Admin.{IsAdmin, jwt_bearer_admin-ok_iff}
use va_enp_api.Providers.Schemas.{PushRegistrationModel}
use va_enp_api.Providers.Sns.{
  SnsClient, AwsSettings, get_platform_application_arn, attempt_register, register_device,
}
use va_enp_api.Providers.Laws.{register_push_endpoint-ok, register_push_endpoint_exhausted}
use va_enp_api.State.{Provider, provider_aws, EnpState}
use va_enp_api.V3.Parts.{IsLastPart, last_of-IsLastPart, last_of_total, split_path, last_of}
use va_enp_api.V3.Endpoints.{
  DeviceRegistrationRequest, DeviceReply, task_for, model_for, device_reply, register_with,
  create_device_registration, post_device_registration,
}

module _ {W Manager : Type 0} (c : Collaborators W) (client : SnsClient W) (settings : AwsSettings)
    (state : EnpState Manager) where
  -- The registration that SNS is asked for.
  abbrev pub registration_for : DeviceRegistrationRequest → PushRegistrationModel
  registration_for request = record {
    platform_application_arn =
        get_platform_application_arn settings (mobile_app_value request.app_name);
    token = request.device_token;
  }

  -- A reply to a request: some attempt, each before it having failed with `RetryableError`, had SNS
  -- make an endpoint for the device on the application's platform, the reply has the last part of its ARN, and the one task that follows takes it to VA Profile.
  pub record IsRegistered (request : DeviceRegistrationRequest) (w : W) (reply : DeviceReply)
      (w' : W) : Type 0 where
    pub started : W
    pub retried :
        Reaches c.tenacity.pause
          (attempt_register c.tenacity client settings (registration_for request))
          (more_attempts settings.max_retries)
          w
          started
    pub response : List (String × String)
    pub endpoint_arn : String
    pub asked :
        async_with client.enter client.exit
          (client.create_platform_endpoint
            (get_platform_application_arn settings (mobile_app_value request.app_name))
            request.device_token)
          started
        ≡ (ok response, w')
    pub listed : item "EndpointArn" response ≡ ok endpoint_arn
    pub last_part : IsLastPart endpoint_arn reply.endpoint_sid
    pub follows : reply.background_tasks ≡ task_for request reply.endpoint_sid ∷ []

  device_reply-ok :
      (request : DeviceRegistrationRequest) (response : Option String) (reply : DeviceReply)
      → device_reply request response ≡ ok reply
      → (arn : String) × (response ≡ some arn)
        × IsLastPart arn reply.endpoint_sid
        × (reply.background_tasks ≡ task_for request reply.endpoint_sid ∷ [])
  device_reply-ok request none reply h = absurd (ground arith)
  device_reply-ok request (some arn) reply h = elim (Result-cases (last_of (split_path arn))) [
    | inl (sid, e) ↦
        let made : record { endpoint_sid = sid; background_tasks = task_for request sid ∷ [] }
            ≡ reply =
          ground arith in
        let (last_part, follows) =
          subst
            (λ r.
              IsLastPart arn r.endpoint_sid
              × (r.background_tasks ≡ task_for request r.endpoint_sid ∷ []))
            made (last_of-IsLastPart arn sid e, refl) in
        (arn, refl, last_part, follows)
    | inr (x, e) ↦ absurd (ground arith)
  ]

  register_with-IsRegistered :
      (request : DeviceRegistrationRequest) (provider : Provider) (w w' : W) (reply : DeviceReply)
      → register_with c client settings state request provider w ≡ (ok reply, w')
      → IsRegistered request w reply w'
  unfolding register_device
  register_with-IsRegistered request provider_aws w w' reply h =
      let (response, w₀, registered, h₀) =
        >>=-eq-ok (register_device c.tenacity client settings (model_for request))
          (λ response. of_result (device_reply request response)) w h in
      let (arn, e, last_part, follows) = device_reply-ok request response reply (ground arith) in
      let (started, retried, dict, asked, listed) =
        register_push_endpoint-ok c.tenacity client settings (registration_for request) w w' arn
          (ground arith) in
      record {
        started = started;
        retried = retried;
        response = dict;
        endpoint_arn = arn;
        asked = asked;
        listed = listed;
        last_part = last_part;
        follows = follows;
      }

  create_device_registration-IsRegistered :
      (request : DeviceRegistrationRequest) (w w' : W) (reply : DeviceReply)
      → create_device_registration c client settings state request w ≡ (ok reply, w')
      → IsRegistered request w reply w'
  unfolding create_device_registration register_device
  create_device_registration-IsRegistered request w w' reply h =
      let (provider, w₀, known, h₀) =
        >>=-eq-ok (of_result (item "aws" state.providers))
          (register_with c client settings state request) w h in
      let h₁ : register_with c client settings state request provider w ≡ (ok reply, w') =
        ground arith in
      register_with-IsRegistered request provider w w' reply h₁

  -- `POST /v3/device-registrations/` answers only a request with the administrator's token, and
  -- then: SNS made an endpoint with the request's device token on the platform application of its
  -- app, the reply has the part of the endpoint's ARN behind its last slash, and one task follows,
  -- which takes that and the request's device to VA Profile.
  pub post_device_registration-ok :
      (credentials : Credentials) (request : DeviceRegistrationRequest) (w w' : W)
      (reply : DeviceReply)
      → post_device_registration c client settings state credentials request w ≡ (ok reply, w')
      → IsAdmin c credentials w × IsRegistered request w reply w'
  unfolding post_device_registration
  post_device_registration-ok credentials request w w' reply h =
      let (_, w₀, passed, h₀) =
        >>=-eq-ok (jwt_bearer_admin c credentials)
          (λ _. create_device_registration c client settings state request) w h in
      let (admin, same) = (jwt_bearer_admin-ok_iff c credentials w w₀).0 passed in
      let h₁ : create_device_registration c client settings state request w ≡ (ok reply, w') =
        ground arith in
      (admin, create_device_registration-IsRegistered request w w' reply h₁)

  -- A request with the administrator's token is answered whenever the provider is there and its
  -- registration returns an ARN, of whatever form, and in the state that the registration left.
  pub post_device_registration_answers :
      (credentials : Credentials) (request : DeviceRegistrationRequest) (w w' : W) (arn : String)
      → IsAdmin c credentials w
      → item "aws" state.providers ≡ ok provider_aws
      → register_device c.tenacity client settings (model_for request) w ≡ (ok (some arn), w')
      → (reply : DeviceReply) × (post_device_registration c client settings state credentials
            request w
          ≡ (ok reply, w'))
  unfolding post_device_registration create_device_registration
  post_device_registration_answers credentials request w w' arn admin known registered =
      let passed = (jwt_bearer_admin-ok_iff c credentials w w).1 (admin, refl) in
      let (last, found) = last_of_total arn in
      (record { endpoint_sid = last; background_tasks = task_for request last ∷ [] }, ground arith)

  -- If the administrator's token is right and every attempt at making the endpoint fails with a
  -- retriable fault, `MAX_RETRIES` being `more + 1`, the handler ends in an `AttributeError`: the
  -- retried method returned `None`.
  pub post_device_registration_exhausted :
      (credentials : Credentials) (request : DeviceRegistrationRequest) (more : ℕ) (w w' : W)
      (x : Exception)
      → IsAdmin c credentials w
      → item "aws" state.providers ≡ ok provider_aws
      → settings.max_retries ≡ suc more
      → AllFail c.tenacity.pause
          (attempt_register c.tenacity client settings (registration_for request))
          more
          w
          x
          w'
      → post_device_registration c client settings state credentials request w
        ≡ (err attribute_error, w')
  unfolding post_device_registration create_device_registration register_device
  post_device_registration_exhausted credentials request more w w' x admin known allowed fail =
      let passed = (jwt_bearer_admin-ok_iff c credentials w w).1 (admin, refl) in
      let registered =
        register_push_endpoint_exhausted c.tenacity client settings (registration_for request) more
          w w' x allowed fail in
      ground arith
