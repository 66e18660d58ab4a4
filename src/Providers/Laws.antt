-- ===== src/Providers/Laws.antt =====
-- What a call of Amazon SNS comes to: app/providers/provider_base.py and
-- app/providers/provider_aws.py.
use va_enp_api.Prelude.{
  ℕ, suc, String, ◌≡◌, ◌≢◌, refl, sym, subst, Option, none, some, List, [], ◌∷◌, arith,
}
use va_enp_api.Effects.{
  Exception, retryable_error, ok, err, Exec, pure, of_result, ◌>>=◌, async_with, item, >>=-eq-ok,
  catch-raise-ok,
}
use va_enp_api.Retry.{Tenacity, policy, log_last_attempt_on_failure}
use va_enp_api.Retry.Outcomes.{
  AllFail, Reaches, more_attempts, run_exhausted, run-Tries_any, Tries-returned_some,
  Tries-ne-retryable,
}
use va_enp_api.Providers.Schemas.{PushModel, PushRegistrationModel, check_arn}
use va_enp_api.Providers.Sns.{
  SnsFault, SnsClient, AwsSettings, handle_sns_exceptions, publish_params, call_sns, sns_item,
  attempt_push, send_notification, attempt_register, register_push_endpoint, push_failed,
  registration_failed,
}

-- The message goes to `arn`, which the entry `key` of the arguments holds.
pub data Addressed : PushModel → String → String → Type 0 where
  to_target :
      {message arn : String}
      → Addressed
          (record { message = message; target_arn = some arn; topic_arn = none })
          "TargetArn"
          arn
  to_topic :
      {message arn : String}
      → Addressed
          (record { message = message; target_arn = none; topic_arn = some arn })
          "TopicArn"
          arn

valid-Addressed :
    (message : String) (target_arn topic_arn : Option String) (model : PushModel)
    → check_arn (record { message = message; target_arn = target_arn; topic_arn = topic_arn })
      ≡ ok model
    → (key : String) × (arn : String) × Addressed
        (record { message = message; target_arn = target_arn; topic_arn = topic_arn })
        key
        arn
unfolding check_arn
valid-Addressed message (some t) none model h = ("TargetArn", t, to_target)
valid-Addressed message none (some t) model h = ("TopicArn", t, to_topic)
valid-Addressed message none none model h = absurd (ground arith)
valid-Addressed message (some t) (some u) model h = absurd (ground arith)

Addressed-params :
    {model : PushModel} {key arn : String}
    → Addressed model key arn
    → publish_params model ≡ ("Message", some model.message) ∷ (key, some arn) ∷ []
Addressed-params to_target = refl
Addressed-params to_topic = refl

module _ {W : Type 0} (tenacity : Tenacity W) (client : SnsClient W) (settings : AwsSettings) where
  -- What a call that gave an entry of its response went through.
  sns_item-ok :
      (message key : String) (call : Exec W SnsFault (List (String × String))) (w w' : W)
      (a : String)
      → sns_item tenacity client settings message call key w ≡ (ok a, w')
      → (response : List (String × String)) × (async_with client.enter client.exit call w
          ≡ (ok response, w'))
        × (item key response ≡ ok a)
  sns_item-ok message key call w w' a h =
      let caught = call_sns tenacity client settings message call in
      let (response, w₁, called, e) = >>=-eq-ok caught (λ r. of_result (item key r)) w h in
      let ran =
        catch-raise-ok (async_with client.enter client.exit call) (handle_sns_exceptions message) w
          called in
      (response, ground arith, ground arith)

  -- What a retried one went through in the attempt that succeeded.
  retried_item-ok :
      (message key : String) (call : Exec W SnsFault (List (String × String))) (w w' : W)
      (a : String)
      → tenacity.run
          (Option String)
          (policy (some log_last_attempt_on_failure) settings.max_retries)
          (sns_item tenacity client settings message call key >>= λ r. pure (some r))
          w
        ≡ (ok (some a), w')
      → (w₀ : W) × Reaches tenacity.pause
          (sns_item tenacity client settings message call key >>= λ r. pure (some r))
          (more_attempts settings.max_retries)
          w
          w₀
        × (response : List (String × String)) × (async_with client.enter client.exit call w₀
            ≡ (ok response, w'))
        × (item key response ≡ ok a)
  retried_item-ok message key call w w' a h =
      let once = sns_item tenacity client settings message call key in
      let (w₀, reached, e) =
        Tries-returned_some
          (run-Tries_any tenacity (once >>= λ r. pure (some r)) (some log_last_attempt_on_failure)
            settings.max_retries w)
          h in
      let (r, w₁, found, same) = >>=-eq-ok once (λ r. pure (some r)) w₀ e in
      let (response, ran, listed) = sns_item-ok message key call w₀ w' a (ground arith) in
      (w₀, reached, response, ran, listed)

  -- A call of `send_notification` that returns a reference for a model that passed its validator:
  -- the last attempt, after at most `MAX_RETRIES` less one that failed with `RetryableError`, opened
  -- the client, published the message to the model's one ARN, as a target or as a topic, and closed
  -- the client without an exception, and the reference is the `MessageId` of the response.
  pub send_notification-ok :
      (model model' : PushModel) (w w' : W) (reference : String)
      → check_arn model ≡ ok model'
      → send_notification tenacity client settings model w ≡ (ok (some reference), w')
      → (key : String) × (arn : String) × Addressed model key arn
        × (w₀ : W) × Reaches tenacity.pause
            (attempt_push tenacity client settings model)
            (more_attempts settings.max_retries)
            w
            w₀
        × (response : List (String × String)) × (async_with client.enter client.exit
              (client.publish (("Message", some model.message) ∷ (key, some arn) ∷ []))
              w₀
            ≡ (ok response, w'))
        × (item "MessageId" response ≡ ok reference)
  unfolding send_notification
  send_notification-ok model model' w w' reference valid h =
      let (key, arn, addressed) =
        valid-Addressed model.message model.target_arn model.topic_arn model' valid in
      let (w₀, reached, response, called, listed) =
        retried_item-ok (push_failed model) "MessageId" (client.publish (publish_params model)) w w'
          reference h in
      let params = Addressed-params addressed in
      (key, arn, addressed, w₀, reached, response, rw (sym params) called, listed)

  -- A call of `register_push_endpoint` that returns an ARN: the last attempt opened the client, asked
  -- for an endpoint with the ARN and the token of the model, and closed the client without an
  -- exception, and the result is the `EndpointArn` of the response.
  pub register_push_endpoint-ok :
      (model : PushRegistrationModel) (w w' : W) (endpoint_arn : String)
      → register_push_endpoint tenacity client settings model w ≡ (ok (some endpoint_arn), w')
      → (w₀ : W) × Reaches tenacity.pause
          (attempt_register tenacity client settings model)
          (more_attempts settings.max_retries)
          w
          w₀
        × (response : List (String × String)) × (async_with client.enter client.exit
              (client.create_platform_endpoint model.platform_application_arn model.token)
              w₀
            ≡ (ok response, w'))
        × (item "EndpointArn" response ≡ ok endpoint_arn)
  unfolding register_push_endpoint
  register_push_endpoint-ok model w w' endpoint_arn h =
      retried_item-ok (registration_failed model) "EndpointArn"
        (client.create_platform_endpoint model.platform_application_arn model.token) w w'
        endpoint_arn h

  -- What a retried one gives up with.
  retried_exhausted :
      (m : Exec W Exception (Option String)) (more : ℕ) (w w' : W) (x : Exception)
      → settings.max_retries ≡ suc more
      → AllFail tenacity.pause m more w x w'
      → tenacity.run
          (Option String)
          (policy (some log_last_attempt_on_failure) settings.max_retries)
          m
          w
        ≡ (ok none, w')
  retried_exhausted m more w w' x allowed fail =
      subst
        (λ k.
          tenacity.run (Option String) (policy (some log_last_attempt_on_failure) k) m w
          ≡ (ok none, w'))
        (sym allowed) (run_exhausted tenacity m (some log_last_attempt_on_failure) more fail)

  -- If each of `MAX_RETRIES` attempts at a publication fails with a retriable fault, and there is
  -- one at least, `send_notification` returns `None`.
  pub send_notification_exhausted :
      (model : PushModel) (more : ℕ) (w w' : W) (x : Exception)
      → settings.max_retries ≡ suc more
      → AllFail tenacity.pause (attempt_push tenacity client settings model) more w x w'
      → send_notification tenacity client settings model w ≡ (ok none, w')
  unfolding send_notification
  send_notification_exhausted model =
      retried_exhausted (attempt_push tenacity client settings model)

  pub register_push_endpoint_exhausted :
      (model : PushRegistrationModel) (more : ℕ) (w w' : W) (x : Exception)
      → settings.max_retries ≡ suc more
      → AllFail tenacity.pause (attempt_register tenacity client settings model) more w x w'
      → register_push_endpoint tenacity client settings model w ≡ (ok none, w')
  unfolding register_push_endpoint
  register_push_endpoint_exhausted model =
      retried_exhausted (attempt_register tenacity client settings model)

  -- Whatever happens, `send_notification` raises no `RetryableError`.
  send_notification-ne-retryable :
      (model : PushModel) (w : W) (message : Option String)
      → (send_notification tenacity client settings model w).0 ≢ err (retryable_error message)
  unfolding send_notification
  send_notification-ne-retryable model w message = Tries-ne-retryable message (
      run-Tries_any tenacity (attempt_push tenacity client settings model)
        (some log_last_attempt_on_failure) settings.max_retries w)
