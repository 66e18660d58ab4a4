-- ===== src/Sqs/Envelopes.antt =====
-- The messages of app/legacy/clients/sqs.py. The values of the dictionaries that never vary
-- (`kwargs` without entries, `callbacks`, `errbacks`, `chord`, `subtask_type`) are not fields.
use va_enp_api.Prelude.{ℕ, String, Bool, true, Option, none, some, List, [], ◌∷◌, reverse, f_string}
use va_enp_api.Effects.{Exception, index_error, ok, Exec, pure, raise, ◌>>=◌}
use va_enp_api.Sms.Tasks.{Task}

-- `CeleryTaskDict`; `kwargs` is the notification's id, `options` the queue and the task's id.
pub record CeleryTask : Type 0 where
  pub task : String
  pub id : String
  pub args : List String
  pub notification_id : String
  pub queue : String
  pub task_id : Option String
  pub immutable : Bool

-- What the body of a message encodes: one task, or the arguments of the first task of a chain and
-- the tasks that follow it.
pub record TaskBody : Type 0 where
  pub task : String
  pub id : String
  pub args : List String

pub record ChainBody : Type 0 where
  pub args : List String
  pub notification_id : String
  pub chain : List CeleryTask

pub record CeleryHeader : Type 0 where
  pub lang : String
  pub task : String
  pub id : String
  pub root_id : String
  pub chain : List CeleryTask

-- `PropertiesDict` with its `DeliveryInfoDict`.
pub record Properties : Type 0 where
  pub reply_to : Option String
  pub correlation_id : String
  pub delivery_mode : ℕ
  pub priority : ℕ
  pub exchange : String
  pub routing_key : String
  pub body_encoding : String
  pub delivery_tag : String

-- `CeleryTaskEnvelope`
pub record Envelope : Type 0 where
  pub body : String
  pub content_encoding : String
  pub content_type : String
  pub headers : Option CeleryHeader
  pub properties : Properties

-- `json.dumps` of each kind of value, base64, and the environment's prefix.
pub record Encoding : Type 0 where
  pub queue_prefix : String
  pub dumps_task : TaskBody → String
  pub dumps_chain : ChainBody → String
  pub dumps_envelope : Envelope → String
  pub b64encode : String → String

abbrev pub with_prefix : Encoding → String → String
with_prefix e queue_name = f_string (e.queue_prefix ∷ queue_name ∷ [])

module _ {W : Type 0} (encoding : Encoding) (uuid4 : W → String × W) where
  abbrev pub fresh_id : Exec W Exception String
  fresh_id w = let (id, w') = uuid4 w in (ok id, w')

  unfoldable pub generate_celery_task : Task → Exec W Exception Envelope
  generate_celery_task t = do
    id ← fresh_id
    reply_to ← fresh_id
    correlation_id ← fresh_id
    delivery_tag ← fresh_id
    pure (record {
      body =
          encoding.b64encode (
            encoding.dumps_task (record { task = t.name; id = id; args = t.notification_id ∷ [] }));
      content_encoding = "utf-8";
      content_type = "application/json";
      headers = none;
      properties = record {
        reply_to = some reply_to;
        correlation_id = correlation_id;
        delivery_mode = 2;
        priority = 0;
        exchange = "default";
        routing_key = with_prefix encoding t.queue;
        body_encoding = "base64";
        delivery_tag = delivery_tag;
      };
    })

  -- One step of the comprehension of `chain_tasks`, and the comprehension.
  abbrev pub chain_task : Task → Exec W Exception CeleryTask
  chain_task t = do
    id ← fresh_id
    task_id ← fresh_id
    pure (record {
      task = t.name;
      id = id;
      args = [];
      notification_id = t.notification_id;
      queue = t.queue;
      task_id = some task_id;
      immutable = true;
    })

  abbrev pub chain_tasks : List Task → Exec W Exception (List CeleryTask)
  chain_tasks [] = pure []
  chain_tasks (t ∷ ts) = do task ← chain_task t; rest ← chain_tasks ts; pure (task ∷ rest)

  abbrev pub chain_envelope : Task → String → List CeleryTask → String → Envelope
  chain_envelope first id chain delivery_tag = record {
    body = encoding.b64encode (
        encoding.dumps_chain
          (record { args = []; notification_id = first.notification_id; chain = chain }));
    content_encoding = "utf-8";
    content_type = "application/json";
    headers =
        some (record { lang = "py"; task = first.name; id = id; root_id = id; chain = chain });
    properties = record {
      reply_to = none;
      correlation_id = id;
      delivery_mode = 2;
      priority = 0;
      exchange = "default";
      routing_key = with_prefix encoding first.queue;
      body_encoding = "base64";
      delivery_tag = delivery_tag;
    };
  }

  -- `tasks.pop(0)` takes the first task; the others are reversed.
  unfoldable pub generate_celery_task_chain : List Task → Exec W Exception Envelope
  generate_celery_task_chain [] = raise index_error
  generate_celery_task_chain (first ∷ others) = do
    id ← fresh_id
    chain ← chain_tasks (reverse others)
    delivery_tag ← fresh_id
    pure (chain_envelope first id chain delivery_tag)
