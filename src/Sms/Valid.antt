-- ===== src/Sms/Valid.antt =====
-- Which requests the validators of `V2PostSmsRequestModel` accept:
-- app/legacy/v2/notifications/route_schema.py and validators.py.
use Prim.Native.Char.{Char}
use va_enp_api.Prelude.{
  String, Bool, false, ◌≡◌, ◌↔◌, inl, inr, refl, ap, ◌∙◌, Option, none, some, arith, Bool-cases,
  not, ◌&&◌, is_some,
}
use va_enp_api.Effects.{ok, Result-cases}
use va_enp_api.Dao.Rows.{RecipientIdentifier}
use va_enp_api.Sms.Identifiers.{is_valid_recipient_id_value}
use va_enp_api.Sms.Patterns.{HasForm, is_valid_recipient_id_value-eq-true_iff}
use va_enp_api.Sms.Requests.{
  SmsRequest, validate_id, phone_number_or_recipient_id, valid_identifier, validated,
}
use va_enp_api.Sms.Chains.{validated-eq, phone_number_or_recipient_id-eq}

-- There is somebody to send the message to.
abbrev pub HasRecipient : Option String → Option RecipientIdentifier → Type 0
HasRecipient (some phone_number) r = Unit
HasRecipient none (some r) = Unit
HasRecipient none none = ⊥

module _ (is_decimal : Char → Bool) where
  -- The identifier, if there is one, has the form of its type.
  abbrev pub IsIdentified : Option RecipientIdentifier → Type 0
  IsIdentified none = Unit
  IsIdentified (some r) = HasForm is_decimal r.id_type r.id_value

  identified :
      (given : Option RecipientIdentifier) (out : Option RecipientIdentifier)
      → valid_identifier is_decimal given ≡ ok out
      → IsIdentified given
  unfolding validate_id
  identified none out h = tt
  identified (some r) out h =
      elim (Bool-cases (is_valid_recipient_id_value is_decimal r.id_type r.id_value)) [
        | inl valid ↦
            (is_valid_recipient_id_value-eq-true_iff is_decimal r.id_type r.id_value).0 valid
        | inr other ↦ absurd (ground arith)
      ]

  IsIdentified-valid :
      (given : Option RecipientIdentifier)
      → IsIdentified given
      → valid_identifier is_decimal given ≡ ok given
  unfolding validate_id
  IsIdentified-valid none h = refl
  IsIdentified-valid (some r) h =
      let valid = (is_valid_recipient_id_value-eq-true_iff is_decimal r.id_type r.id_value).1 h in
      ground arith

  -- What a request of the model is: its identifier, if any, has the form of its type, and it has a
  -- recipient.
  pub record IsSmsRequest (request : SmsRequest) : Type 0 where
    pub identified : IsIdentified request.recipient_identifier
    pub reachable : HasRecipient request.phone_number request.recipient_identifier

  reachable :
      (phone_number : Option String) (r : Option RecipientIdentifier)
      → (not (is_some phone_number) && not (is_some r) ≡ false) ↔ HasRecipient phone_number r
  reachable (some phone_number) r = (λ _. tt, λ _. refl)
  reachable none (some r) = (λ _. tt, λ _. refl)
  reachable none none = (λ h. absurd (ground arith), λ h. absurd h)

  phone_number_or_recipient_id-ok_iff :
      (request : SmsRequest)
      → (phone_number_or_recipient_id request ≡ ok request)
        ↔ HasRecipient request.phone_number request.recipient_identifier
  unfolding phone_number_or_recipient_id
  phone_number_or_recipient_id-ok_iff request =
      let (to, from) = reachable request.phone_number request.recipient_identifier in
      (λ h. to (ground arith), λ h. let present = from h in ground arith)

  validated-IsSmsRequest :
      (request accepted : SmsRequest)
      → validated is_decimal request ≡ ok accepted
      → IsSmsRequest request × (accepted ≡ request)
  unfolding validated
  validated-IsSmsRequest request accepted h =
      let passed = validated-eq is_decimal request accepted h in
      let same = phone_number_or_recipient_id-eq request accepted passed in
      elim (Result-cases (valid_identifier is_decimal request.recipient_identifier)) [
        | inl (r, e) ↦ (
          record {
            identified = identified request.recipient_identifier r e;
            reachable = (phone_number_or_recipient_id-ok_iff request).0 (passed ∙ ap ok same);
          },
          same,
        )
        | inr (x, e) ↦ absurd (ground arith)
      ]

  IsSmsRequest-validated :
      (request accepted : SmsRequest)
      → IsSmsRequest request × (accepted ≡ request)
      → validated is_decimal request ≡ ok accepted
  unfolding validated
  IsSmsRequest-validated request accepted (valid, same) =
      let first = IsIdentified-valid request.recipient_identifier valid.identified in
      let second = (phone_number_or_recipient_id-ok_iff request).1 valid.reachable in ground arith

  -- The validators accept a request if and only if it has a phone number or an identifier, and its
  -- identifier, if it has one, has the form of its type, which one newline at the end may follow: ten
  -- digits, V and six digits for an ICN, and otherwise one digit or more. The request is then as it
  -- was given.
  pub validated-ok_iff :
      (request accepted : SmsRequest)
      → (validated is_decimal request ≡ ok accepted) ↔ (IsSmsRequest request × (accepted ≡ request))
  validated-ok_iff request accepted =
      (validated-IsSmsRequest request accepted, IsSmsRequest-validated request accepted)
