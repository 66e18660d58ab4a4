-- ===== src/Sqs/Order.antt =====
-- In which order the tasks of a chain run: `_generate_celery_task_chain` of
-- app/legacy/clients/sqs.py.
use mathlib.Core.List.{reverse-reverse}
use va_enp_api.Prelude.{String, true, ◌≡◌, refl, ap, ◌∙◌, some, List, [], ◌∷◌, map, reverse, arith}
use va_enp_api.Effects.{ok}
use va_enp_api.Sms.Tasks.{Task}
use va_enp_api.Sqs.Envelopes.{
  CeleryTask, CeleryHeader, Envelope, Encoding, with_prefix, chain_tasks, chain_envelope,
  generate_celery_task_chain,
}

-- What a worker reads off an entry of a chain.
abbrev pub task_of : CeleryTask → Task
task_of t = record { queue = t.queue; name = t.task; notification_id = t.notification_id }

-- The tasks that follow the first one, in the order in which a worker takes them: it pops them off
-- the end of the list.
abbrev pub run_order : List CeleryTask → List Task
run_order chain = reverse (map task_of chain)

module _ {W : Type 0} (encoding : Encoding) (uuid4 : W → String × W) where
  chain_tasks-task_of :
      (ts : List Task) (w : W)
      → (chain : List CeleryTask) × (w' : W) × (chain_tasks encoding uuid4 ts w ≡ (ok chain, w'))
        × (map task_of chain ≡ ts)
  chain_tasks-task_of [] w = ([], w, refl, refl)
  chain_tasks-task_of (t ∷ ts) w =
      let (id, w₁) = uuid4 w in
      let (task_id, w₂) = uuid4 w₁ in
      let (rest, w', e, same) = chain_tasks-task_of ts w₂ in
      (
        record {
          task = t.name;
          id = id;
          args = [];
          notification_id = t.notification_id;
          queue = t.queue;
          task_id = some task_id;
          immutable = true;
        }
            ∷ rest,
        w',
        ground arith,
        ap (λ l. t ∷ l) same,
      )

  -- A message for a chain of tasks.
  pub record IsChain (first : Task) (others : List Task) (envelope : Envelope) : Type 0 where
    pub header : CeleryHeader
    pub headers : envelope.headers ≡ some header
    pub starts : header.task ≡ first.name
    pub routed : envelope.properties.routing_key ≡ with_prefix encoding first.queue
    pub body :
        envelope.body
        ≡ encoding.b64encode (
            encoding.dumps_chain
              (record { args = []; notification_id = first.notification_id; chain = header.chain }))
    pub in_order : run_order header.chain ≡ others

  -- A chain of tasks is always made: its message is for the queue of the first task and starts it,
  -- its header and its body hold the same chain, and a worker that takes the tasks off the end of
  -- that chain runs the others in the order in which they were given.
  pub generate_celery_task_chain-IsChain :
      (first : Task) (others : List Task) (w : W)
      → (envelope : Envelope) × (w' : W) × (generate_celery_task_chain encoding uuid4
            (first ∷ others)
            w
          ≡ (ok envelope, w'))
        × IsChain first others envelope
  unfolding generate_celery_task_chain
  generate_celery_task_chain-IsChain first others w =
      let (id, w₁) = uuid4 w in
      let (chain, w₂, e, same) = chain_tasks-task_of (reverse others) w₁ in
      let (delivery_tag, w₃) = uuid4 w₂ in
      (
        chain_envelope encoding uuid4 first id chain delivery_tag,
        w₃,
        ground arith,
        record {
          header = record { lang = "py"; task = first.name; id = id; root_id = id; chain = chain };
          headers = refl;
          starts = refl;
          routed = refl;
          body = refl;
          in_order = ap reverse same ∙ reverse-reverse others;
        },
      )
