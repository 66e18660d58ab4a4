-- ===== src/Sms/Chains.antt =====
-- The tasks of a validated request: app/legacy/v2/notifications/resolvers.py.
use Prim.Native.Char.{Char}
use va_enp_api.Prelude.{
  String, Bool, ◌≡◌, refl, ap, ◌∙◌, Option, none, some, List, [], ◌∷◌, arith, Option-cases,
  Bool-cases, inl, inr, if◌then◌else◌,
}
use va_enp_api.Effects.{ok, Result-cases}
use va_enp_api.Dao.Rows.{RecipientIdentifier}
use va_enp_api.Sms.Requests.{SmsRequest, phone_number_or_recipient_id, valid_identifier, validated}
use va_enp_api.Sms.Tasks.{
  Task, SmsTaskResolver, direct_sms_task_resolver, identifier_sms_task_resolver, deliver_sms,
  lookup_profile, lookup_contact, is_va_profile_id, get_tasks, get_sms_task_resolver,
}

-- The tasks that a request needs: to a phone number the message is delivered at once; otherwise the
-- contact information is looked up before, by the VA profile, which is looked up first for another
-- identifier.
abbrev pub needed : Option String → Option RecipientIdentifier → String → List Task
needed (some phone_number) r id = deliver_sms id ∷ []
needed none none id = []
needed none (some r) id =
    if is_va_profile_id r.id_type
    then lookup_contact id ∷ deliver_sms id ∷ []
    else lookup_profile id ∷ lookup_contact id ∷ deliver_sms id ∷ []

tasks_for_identifier :
    (r : RecipientIdentifier) (id : String)
    → get_tasks (identifier_sms_task_resolver r.id_type r.id_value) id ≡ needed none (some r) id
unfolding get_tasks
tasks_for_identifier r id = elim (Bool-cases (is_va_profile_id r.id_type)) [
  | inl profile ↦ rw profile refl
  | inr other ↦ rw other refl
]

resolves :
    (request : SmsRequest) (id : String)
    → phone_number_or_recipient_id request ≡ ok request
    → (resolver : SmsTaskResolver) × (get_sms_task_resolver request ≡ ok resolver)
      × (get_tasks resolver id ≡ needed request.phone_number request.recipient_identifier id)
unfolding phone_number_or_recipient_id get_sms_task_resolver get_tasks
resolves request id h = elim (Option-cases request.phone_number) [
  | inr (phone, e) ↦ (direct_sms_task_resolver phone, rw e refl, rw e refl)
  | inl absent ↦ elim (Option-cases request.recipient_identifier) [
    | inr (r, e) ↦ (
      identifier_sms_task_resolver r.id_type r.id_value,
      rw (absent, e) refl,
      rw (absent, e) (tasks_for_identifier r id),
    )
    | inl nobody ↦ absurd (ground arith)
  ]
]

pub validated-eq :
    (is_decimal : Char → Bool) (request accepted : SmsRequest)
    → validated is_decimal request ≡ ok accepted
    → phone_number_or_recipient_id request ≡ ok accepted
unfolding validated
validated-eq is_decimal request accepted h =
    elim (Result-cases (valid_identifier is_decimal request.recipient_identifier)) [
      | inl (r, e) ↦ ground arith
      | inr (x, e) ↦ absurd (ground arith)
    ]

pub phone_number_or_recipient_id-eq :
    (request accepted : SmsRequest)
    → phone_number_or_recipient_id request ≡ ok accepted
    → accepted ≡ request
unfolding phone_number_or_recipient_id
phone_number_or_recipient_id-eq request accepted h = elim (Option-cases request.phone_number) [
  | inr (phone, e) ↦ ground arith
  | inl absent ↦ elim (Option-cases request.recipient_identifier) [
    | inr (r, e) ↦ ground arith
    | inl nobody ↦ absurd (ground arith)
  ]
]

-- A request that the validators accept is unchanged, has a resolver, so the assertion holds, and
-- its tasks are those that it needs, in the order in which they have to run.
pub validated-tasks :
    (is_decimal : Char → Bool) (request accepted : SmsRequest) (id : String)
    → validated is_decimal request ≡ ok accepted
    → (accepted ≡ request)
      × ((resolver : SmsTaskResolver) × (get_sms_task_resolver request ≡ ok resolver)
          × (get_tasks resolver id ≡ needed request.phone_number request.recipient_identifier id))
validated-tasks is_decimal request accepted id h =
    let h' = validated-eq is_decimal request accepted h in
    let same = phone_number_or_recipient_id-eq request accepted h' in
    (same, resolves request id (h' ∙ ap ok same))
