-- ===== src/Providers/Samples.antt =====
-- An SNS in memory: what was published and registered, and how often the next calls are refused.
use va_enp_api.Prelude.{ℕ, zero, suc, String, Option, none, some, List, [], ◌∷◌, f_string}
use va_enp_api.Effects.{Result, ok, err}
use va_enp_api.Providers.Sns.{SnsFault, client_error, SnsClient, AwsSettings}

pub record Topic : Type 0 where
  pub published : List (List (String × Option String))
  pub registered : List String
  pub refused : ℕ

abbrev pub Outcome : Type 0
Outcome = Result SnsFault (List (String × String)) × Topic

-- A refusal while some are left, and otherwise the response and the topic after it.
abbrev refusing : Topic → List (String × String) → Topic → ℕ → Outcome
refusing t response t' zero = (ok response, t')
refusing t response t' (suc n) =
    (err (client_error (some "KMSThrottlingException")), record t { refused = n })

abbrev pub sns : SnsClient Topic
sns = record {
  enter = λ t. (ok tt, t);
  exit = λ t. (ok tt, t);
  publish = λ params t.
      refusing t (("MessageId", "m1") ∷ []) (record t { published = params ∷ t.published })
        t.refused;
  create_platform_endpoint = λ arn token t.
      refusing t (("EndpointArn", f_string (arn ∷ "/" ∷ token ∷ [])) ∷ [])
        (record t { registered = token ∷ t.registered }) t.refused;
}

abbrev pub quiet : ℕ → Topic
quiet n = record { published = []; registered = []; refused = n }

abbrev pub aws : AwsSettings
aws = record {
  aws_region = "us-east-1";
  max_retries = 3;
  aws_account_id = none;
  aws_platform = none;
}
