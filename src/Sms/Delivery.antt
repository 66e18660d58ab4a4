-- ===== src/Sms/Delivery.antt =====
-- What a request that the SMS handler answers has gone through: `_sms_post` and what it calls, and
-- the endpoint behind its dependencies (app/legacy/v2/notifications).
use va_enp_api.Prelude.{String, ◌≡◌, Option, none, some, arith, inl, inr, Option-cases}
use va_enp_api.Effects.{ok, Exec-cases, Result-cases, catch-raise-ok}
use va_enp_api.Cache.{Obtained, call-Obtained}
use va_enp_api.Dao.Rows.{TemplateRow}
use va_enp_api.Dao.Laws.{create_notification-ok_iff}
use va_enp_api.Auth.Service.{State}
use va_enp_api.Limits.Limiter.{required}
use va_enp_api.Sms.Requests.{SmsRequest, get_channel}
use va_enp_api.Sms.Tasks.{SmsTaskResolver, get_tasks}
use va_enp_api.Sms.Fields.{validate_template_personalisation}
use va_enp_api.Sms.Templates.{TemplateKey, find_valid_template, validate_template}
use va_enp_api.Sms.Handler.{
  SmsCollaborators, Reply, response_for, server_error, row_for, save_recipient, save_notification,
  reply_to, create_body, create_notification, sms_post,
}

required-ok : {o : Option String} {a : String} → required o ≡ ok a → o ≡ some a
required-ok {o = none} h = absurd (ground arith)
required-ok {o = some b} h = ground arith

module _ {W : Type 0} (c : SmsCollaborators W) where
  -- The notification was inserted into the database, and its recipient, if there is one.
  pub record IsCreated (id : String) (template : TemplateRow) (request : SmsRequest)
      (s s' : State W) : Type 0 where
    pub service_id : String
    pub api_key_id : String
    pub reply_to_text : String
    pub w₁ : W
    pub w₂ : W
    pub w₃ : W
    pub served : s.context.service_id ≡ some service_id
    pub keyed : s.context.api_key_id ≡ some api_key_id
    pub replies : reply_to c request service_id s.outside ≡ (ok reply_to_text, w₁)
    pub inserted :
        c.auth.db.insert_notification
          (row_for c id template request reply_to_text service_id api_key_id)
          w₁
        ≡ (ok tt, w₂)
    pub recipient : save_recipient c id request.recipient_identifier w₂ ≡ (ok tt, w₃)
    pub after : s' ≡ record s { outside = w₃ }

  create_body-IsCreated :
      (id : String) (template : TemplateRow) (request : SmsRequest) (s s' : State W)
      → create_body c id template request s ≡ (ok tt, s')
      → IsCreated id template request s s'
  create_body-IsCreated id template request s s' h = elim (Option-cases s.context.service_id) [
    | inl missing ↦ absurd (ground arith)
    | inr (service_id, served) ↦ elim (Exec-cases (reply_to c request service_id) s.outside) [
      | inr (x, w₁, e₁) ↦ absurd (ground arith)
      | inl (reply_to_text, w₁, e₁) ↦ elim (Option-cases s.context.api_key_id) [
        | inl missing ↦ absurd (ground arith)
        | inr (api_key_id, keyed) ↦
            elim (Exec-cases
              (save_notification c
                (row_for c id template request reply_to_text service_id api_key_id))
              w₁) [
                | inr (x, w₂, e₂) ↦ absurd (ground arith)
                | inl (_, w₂, e₂) ↦
                    elim (Exec-cases (save_recipient c id request.recipient_identifier) w₂) [
                      | inr (x, w₃, e₃) ↦ absurd (ground arith)
                      | inl (_, w₃, e₃) ↦ record {
                        service_id = service_id;
                        api_key_id = api_key_id;
                        reply_to_text = reply_to_text;
                        w₁ = w₁;
                        w₂ = w₂;
                        w₃ = w₃;
                        served = served;
                        keyed = keyed;
                        replies = e₁;
                        inserted =
                            (create_notification-ok_iff c.auth.tenacity c.auth.db c.lower
                                (row_for c id template request reply_to_text service_id api_key_id)
                                w₁ w₂).0
                              e₂;
                        recipient = e₃;
                        after = ground arith;
                      }
                    ]
              ]
      ]
    ]
  ]

  -- A request that was answered: its template is one of its service, its personalisation names each
  -- field, its notification was inserted into the database, and its tasks are those of its resolver.
  pub record IsAnswered (request : SmsRequest) (resolver : SmsTaskResolver) (s : State W)
      (reply : Reply) (s' : State W) : Type 0 where
    pub service_id : String
    pub notification_id : String
    pub template : TemplateRow
    pub w₁ : W
    pub served : s.context.service_id ≡ some service_id
    pub numbered : s.context.request_id ≡ some notification_id
    pub found :
        Obtained c.templates
          (find_valid_template c.auth.tenacity c.auth.db c.template_rows)
          (record {
            template_id = request.template_id;
            service_id = service_id;
            expected_type = get_channel request;
          })
          s.outside
          template
          w₁
    pub complete :
        validate_template_personalisation c.lower c.join template request.personalisation ≡ ok tt
    pub created : IsCreated notification_id template request (record s { outside = w₁ }) s'
    pub replied : reply.response ≡ response_for request notification_id
    pub tasks : reply.background_tasks ≡ get_tasks resolver notification_id

  create_notification-IsCreated :
      (id : String) (template : TemplateRow) (request : SmsRequest) (s s' : State W)
      → create_notification c id template request s ≡ (ok tt, s')
      → IsCreated id template request s s'
  unfolding create_notification
  create_notification-IsCreated id template request s s' h =
      create_body-IsCreated id template request s s'
        (catch-raise-ok (create_body c id template request) server_error s h)

  -- The handler answers a request only if its template came from the cache or from a lookup that
  -- accepted it for the request's service, the personalisation is complete, and no call of the
  -- database raised; it then schedules the tasks of the resolver.
  pub sms_post-IsAnswered :
      (request : SmsRequest) (resolver : SmsTaskResolver) (s s' : State W) (reply : Reply)
      → sms_post c request resolver s ≡ (ok reply, s')
      → IsAnswered request resolver s reply s'
  unfolding sms_post validate_template
  sms_post-IsAnswered request resolver s s' reply h = elim (Option-cases s.context.service_id) [
    | inl missing ↦ absurd (ground arith)
    | inr (service_id, served) ↦ elim (Option-cases s.context.request_id) [
      | inl missing ↦ absurd (ground arith)
      | inr (notification_id, numbered) ↦
          let key : TemplateKey = record {
            template_id = request.template_id;
            service_id = service_id;
            expected_type = get_channel request;
          } in
          elim (Exec-cases
            (c.templates.call (find_valid_template c.auth.tenacity c.auth.db c.template_rows) key)
            s.outside) [
              | inr (x, w₁, e₁) ↦ absurd (ground arith)
              | inl (template, w₁, e₁) ↦
                  elim (Result-cases (
                    validate_template_personalisation c.lower c.join template
                      request.personalisation)) [
                        | inr (x, e₂) ↦ absurd (ground arith)
                        | inl (_, e₂) ↦
                            elim (Exec-cases
                              (create_notification c notification_id template request)
                              (record s { outside = w₁ })) [
                                | inr (x, s₂, e₃) ↦ absurd (ground arith)
                                | inl (_, s₂, e₃) ↦ record {
                                  service_id = service_id;
                                  notification_id = notification_id;
                                  template = template;
                                  w₁ = w₁;
                                  served = served;
                                  numbered = numbered;
                                  found =
                                      call-Obtained c.templates
                                        (find_valid_template c.auth.tenacity c.auth.db
                                          c.template_rows)
                                        key s.outside template w₁ e₁;
                                  complete = e₂;
                                  created =
                                      create_notification-IsCreated notification_id template request
                                        (record s { outside = w₁ }) s' (ground arith);
                                  replied = ground arith;
                                  tasks = ground arith;
                                }
                              ]
                      ]
            ]
    ]
  ]
