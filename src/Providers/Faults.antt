-- ===== src/Providers/Faults.antt =====
-- Which failures of Amazon SNS are tried again: `_handle_sns_exceptions` of
-- app/providers/provider_aws.py, within a call.
use va_enp_api.Prelude.{
  String, ◌≡◌, ◌↔◌, inl, inr, true, false, List, [], ◌∷◌, str_eq, arith, Bool-cases,
}
use va_enp_api.Effects.{Exception, err, Exec, async_with, item, is_retryable, Exec-cases}
use va_enp_api.Retry.{Tenacity}
use va_enp_api.Providers.Sns.{
  SnsFault, SnsClient, AwsSettings, is_retriable_fault, handle_sns_exceptions, sns_item,
}

item-ne-retryable :
    (key : String) (response : List (String × String)) (x : Exception)
    → item key response ≡ err x
    → is_retryable x ≡ false
item-ne-retryable key [] x h = ground arith
item-ne-retryable key ((k, v) ∷ entries) x h = elim (Bool-cases (str_eq key k)) [
  | inl same ↦ absurd (ground arith)
  | inr other ↦ item-ne-retryable key entries x (ground arith)
]

handle-retryable :
    (message : String) (f : SnsFault)
    → is_retryable (handle_sns_exceptions message f) ≡ is_retriable_fault f
unfolding handle_sns_exceptions
handle-retryable message f = elim (Bool-cases (is_retriable_fault f)) [
  | inl e ↦ ground arith
  | inr e ↦ ground arith
]

module _ {W : Type 0} (tenacity : Tenacity W) (client : SnsClient W) (settings : AwsSettings) where
  -- What it came to, by what the client did.
  sns_item-err :
      (message key : String) (call : Exec W SnsFault (List (String × String))) (w w' : W)
      (x : Exception)
      → sns_item tenacity client settings message call key w ≡ (err x, w')
      → is_retryable x ≡ true
      → (f : SnsFault) × (is_retriable_fault f ≡ true)
        × (async_with client.enter client.exit call w ≡ (err f, w'))
  sns_item-err message key call w w' x h r =
      elim (Exec-cases (async_with client.enter client.exit call) w) [
        | inl (response, w₁, e) ↦ absurd (let i = item-ne-retryable key response x in ground arith)
        | inr (f, w₁, e) ↦ let k = handle-retryable message f in (f, ground arith, ground arith)
      ]

  -- An attempt at a call of SNS raises `RetryableError` if and only if the client raised one of the
  -- faults in `sns_publish_retriable_exceptions_set`.
  pub sns_item-retryable_iff :
      (message key : String) (call : Exec W SnsFault (List (String × String))) (w w' : W)
      → ((x : Exception) × (is_retryable x ≡ true)
          × (sns_item tenacity client settings message call key w ≡ (err x, w')))
        ↔ ((f : SnsFault) × (is_retriable_fault f ≡ true)
            × (async_with client.enter client.exit call w ≡ (err f, w')))
  sns_item-retryable_iff message key call w w' = (
    λ h. let (x, r, e) = h in sns_item-err message key call w w' x e r,
    λ h.
        let (f, r, e) = h in
        let k = handle-retryable message f in
        (handle_sns_exceptions message f, ground arith, ground arith),
  )
