-- ===== src/Sqs/Producer.antt =====
-- `SqsAsyncProducer` of app/legacy/clients/sqs.py. The client of the AWS library is a parameter.
use va_enp_api.Prelude.{
  ℕ, String, Bool, false, Option, none, some, List, [], ◌∷◌, f_string, is_one_of, if◌then◌else◌,
}
use va_enp_api.Effects.{
  Exception, retryable_error, non_retryable_error, attribute_error, index_error, Result, ok, err,
  Exec, pure, raise, of_result, catch, ◌>>=◌, async_with, is_app_error,
}
use va_enp_api.Retry.{Tenacity, client_retry}
use va_enp_api.Cache.{AlruCache}
use va_enp_api.Sms.Tasks.{Task}
use va_enp_api.Sqs.Envelopes.{
  Encoding, Envelope, with_prefix, generate_celery_task, generate_celery_task_chain,
}

-- `ClientError`, with the code of its response if there is one, and any other `Exception`.
pub data SqsFault : Type 0 where
  client_error : Option String → SqsFault
  other_fault : SqsFault

-- The client, and the context manager that opens and closes it; that `sqs_client_context` makes the
-- manager when it is first asked for is part of `enter`. `get_queue_url` returns the entry
-- `QueueUrl` of the response, `send_message` its `MessageId`.
pub record SqsClient (W : Type 0) : Type 0 where
  pub enter : Exec W Exception (Unit {0})
  pub exit : Exec W Exception (Unit {0})
  pub get_queue_url : String → Exec W SqsFault (Option String)
  pub send_message :
      (queue_url : Option String) (message_body : String) → Exec W SqsFault (Option String)

-- `_handle_client_error`
abbrev pub retryable_codes : List String
retryable_codes = "ThrottlingException" ∷ "RequestTimeout" ∷ "ServiceUnavailable" ∷ []

abbrev pub is_retryable_code : Option String → Bool
is_retryable_code none = false
is_retryable_code (some code) = is_one_of code retryable_codes

unfoldable pub handle_client_error : Option String → String → Exception
handle_client_error code err_msg =
    if is_retryable_code code
    then retryable_error (some (f_string (err_msg ∷ " ClientError: Retryable" ∷ [])))
    else non_retryable_error (some (f_string (err_msg ∷ " ClientError: NonRetryable" ∷ [])))

-- The `except` clauses of the two retried methods: what an exception of the client becomes.
abbrev pub translate_sqs_fault : String → String → SqsFault → Exception
translate_sqs_fault failed unexpected (client_error code) = handle_client_error code failed
translate_sqs_fault failed unexpected other_fault = non_retryable_error (some unexpected)

abbrev pub url_fault : String → SqsFault → Exception
url_fault queue_name =
    translate_sqs_fault (f_string ("Failed to get SQS queue URL for \"" ∷ queue_name ∷ "\"." ∷ []))
      (f_string
        ("Unexpected error occurred while getting SQS queue URL for \"" ∷ queue_name ∷ "\"." ∷ []))

abbrev pub send_fault : String → SqsFault → Exception
send_fault queue_name =
    translate_sqs_fault
      (f_string ("Failed to send message to SQS queue \"" ∷ queue_name ∷ "\"." ∷ []))
      (f_string (
        "Unexpected error occurred while sending message to SQS queue \"" ∷ queue_name ∷ "\"."
        ∷ []))

-- `response['QueueUrl']`; the message of the `KeyError` clause quotes the response.
abbrev pub queue_url_of : Option String → Result Exception String
queue_url_of none = err (non_retryable_error (some "QueueUrl not found in response"))
queue_url_of (some url) = ok url

-- `except (RetryableError, NonRetryableError)`, which logs only.
abbrev pub logged : {W : Type 0} → Exception → Exec W Exception (Unit {0})
logged x = if is_app_error x then pure tt else raise x

-- `response.get('MessageId')`
abbrev pub message_id : Option (Option String) → Result Exception (Unit {0})
message_id none = err attribute_error
message_id (some id) = ok tt

module _ {W : Type 0} (tenacity : Tenacity W) (client : SqsClient W) where
  abbrev pub within_client : {A : Type 0} → Exec W Exception A → Exec W Exception A
  within_client = async_with client.enter client.exit

  abbrev pub find_queue_url : String → Exec W Exception String
  find_queue_url queue_name =
      catch (client.get_queue_url queue_name) (λ f. raise (url_fault queue_name f)) >>= λ url.
      of_result (queue_url_of url)

  abbrev pub attempt_send :
      String → Option String → String → Exec W Exception (Option (Option String))
  attempt_send queue_name queue_url message =
      catch (client.send_message queue_url message) (λ f. raise (send_fault queue_name f)) >>= λ id.
      pure (some id)

  -- `_send_message_to_queue`
  unfoldable pub send_message_to_queue :
      String → Option String → String → Exec W Exception (Option (Option String))
  send_message_to_queue queue_name queue_url message =
      client_retry tenacity (Option String) (attempt_send queue_name queue_url message)

  -- A producer's own cache: its key is the producer, the client and the queue's name. A producer is
  -- named by a number.
  module _ (queue_urls : AlruCache W (ℕ × String) String) (producer : ℕ) (encoding : Encoding)
      (uuid4 : W → String × W) where
    abbrev pub body_of_url : ℕ × String → Exec W Exception String
    body_of_url key = find_queue_url key.1

    abbrev pub attempt_queue_url : String → Exec W Exception (Option String)
    attempt_queue_url queue_name =
        queue_urls.call body_of_url (producer, queue_name) >>= λ url. pure (some url)

    -- `_get_queue_url`
    unfoldable pub get_queue_url : String → Exec W Exception (Option String)
    get_queue_url queue_name = client_retry tenacity String (attempt_queue_url queue_name)

    abbrev pub deliver : String → String → Exec W Exception (Option (Option String))
    deliver queue_name message = do
      queue_url ← get_queue_url queue_name
      send_message_to_queue queue_name queue_url message

    -- `_enqueue_message`
    unfoldable pub enqueue : String → String → Exec W Exception (Unit {0})
    unfolding get_queue_url
    enqueue queue_name message = do
      response ← within_client (deliver queue_name message)
      of_result (message_id response)

    abbrev pub try_enqueue : String → Exec W Exception Envelope → Exec W Exception (Unit {0})
    try_enqueue queue_name envelope = do
      task_envelope ← envelope
      catch (enqueue (with_prefix encoding queue_name) (encoding.dumps_envelope task_envelope))
          logged

    unfoldable pub enqueue_message : List Task → Exec W Exception (Unit {0})
    unfolding enqueue
    enqueue_message [] = raise index_error
    enqueue_message (t ∷ []) = try_enqueue t.queue (generate_celery_task encoding uuid4 t)
    enqueue_message (t ∷ u ∷ ts) =
        try_enqueue t.queue (generate_celery_task_chain encoding uuid4 (t ∷ u ∷ ts))
