-- ===== src/Sms/Filling.antt =====
-- The message of a push notification as texts and fields, and what
-- `send_push_notification_helper` of app/legacy/v2/notifications/utils.py makes of it.
use Prim.Native.String
use Prim.Native.String.{String}
use va_enp_api.Prelude.{
  ◌≡◌, ◌≢◌, refl, sym, ap, ◌∙◌, Option, none, some, List, [], ◌∷◌, str_eq, arith, eq_iff,
  if◌then◌else◌, Bool-cases, inl, inr,
}
use va_enp_api.Dao.Writes.{Personalisation}
use va_enp_api.Auth.Secrets.{Lacks}
use va_enp_api.Sms.Push.{replace_text, filled, personalised}
use va_enp_api.Sms.Marks.{marked, mark-marked}
use va_enp_api.Sms.Replacing.{replaced, replaced_plain, replaced_same, replaced_other}

-- A piece of a message: its own text, or a field that the personalisation fills.
pub data Segment : Type 0 where
  words : String → Segment
  blank : String → Segment

abbrev pub message_of : List Segment → String
message_of [] = ""
message_of (words s ∷ segments) = String.◌++◌ s (message_of segments)
message_of (blank f ∷ segments) = marked f (message_of segments)

abbrev pub AreClean : List Segment → Type 0
AreClean [] = Unit
AreClean (words s ∷ segments) = Lacks b'(' s × AreClean segments
AreClean (blank f ∷ segments) = (Lacks b'(' f × Lacks b')' f) × AreClean segments

-- Keys that close no mark, and values that open none.
abbrev pub AreSafe : Personalisation → Type 0
AreSafe [] = Unit
AreSafe ((key, value) ∷ entries) = (Lacks b')' key × Lacks b'(' value) × AreSafe entries

abbrev pub value_of : String → Personalisation → Option String
value_of f [] = none
value_of f ((key, value) ∷ entries) = if str_eq f key then some value else value_of f entries

abbrev completed_field : String → Option String → Segment
completed_field f none = blank f
completed_field f (some value) = words value

abbrev pub completed : Personalisation → List Segment → List Segment
completed entries [] = []
completed entries (words s ∷ segments) = words s ∷ completed entries segments
completed entries (blank f ∷ segments) =
    completed_field f (value_of f entries) ∷ completed entries segments

module _ (key value : String) where
  abbrev one : Personalisation
  one = (key, value) ∷ []

  replaced-message :
      (segments : List Segment)
      → AreClean segments
      → Lacks b')' key
      → replaced key value (message_of segments) ≡ message_of (completed one segments)
  unfolding replaced
  replaced-message [] h k = refl
  replaced-message (words s ∷ segments) (n, h) k =
      replaced_plain key value s (message_of segments) n
      ∙ ap (String.◌++◌ s) (replaced-message segments h k)
  replaced-message (blank f ∷ segments) ((n, m), h) k = elim (Bool-cases (str_eq f key)) [
    | inl e ↦
        let same = (eq_iff f key).0 e in
        ap (λ g. replaced key value (marked g (message_of segments))) same
        ∙ replaced_same key value (message_of segments)
        ∙ ap (String.◌++◌ value) (replaced-message segments h k)
        ∙ rw e refl
    | inr e ↦
        let different : f ≢ key = λ p. let h = (eq_iff f key).1 p in ground arith in
        replaced_other key value f (message_of segments) n m k different
        ∙ ap (marked f) (replaced-message segments h k)
        ∙ rw e refl
  ]

completed-AreClean :
    (key value : String) (segments : List Segment)
    → Lacks b'(' value
    → AreClean segments
    → AreClean (completed (one key value) segments)
completed-AreClean key value [] v h = tt
completed-AreClean key value (words s ∷ segments) v (n, h) =
    (n, completed-AreClean key value segments v h)
completed-AreClean key value (blank f ∷ segments) v (n, h) = elim (Bool-cases (str_eq f key)) [
  | inl e ↦ rw e (v, completed-AreClean key value segments v h)
  | inr e ↦ rw e (n, completed-AreClean key value segments v h)
]

completed-cons :
    (key value : String) (entries : Personalisation) (segments : List Segment)
    → completed entries (completed (one key value) segments)
      ≡ completed ((key, value) ∷ entries) segments
completed-cons key value entries [] = refl
completed-cons key value entries (words s ∷ segments) =
    ap (λ l. words s ∷ l) (completed-cons key value entries segments)
completed-cons key value entries (blank f ∷ segments) =
    let h = completed-cons key value entries segments in
    elim (Bool-cases (str_eq f key)) [ inl e ↦ rw (e, h) refl | inr e ↦ rw (e, h) refl ]

completed-nil : (segments : List Segment) → completed [] segments ≡ segments
completed-nil [] = refl
completed-nil (words s ∷ segments) = ap (λ l. words s ∷ l) (completed-nil segments)
completed-nil (blank f ∷ segments) = ap (λ l. blank f ∷ l) (completed-nil segments)

filled-message :
    (entries : Personalisation) (segments : List Segment)
    → AreSafe entries
    → AreClean segments
    → filled entries (message_of segments) ≡ message_of (completed entries segments)
unfolding replaced
filled-message [] segments safe clean = sym (ap message_of (completed-nil segments))
filled-message ((key, value) ∷ entries) segments ((k, v), safe) clean =
    ap (λ old. filled entries (replace_text old value (message_of segments))) (mark-marked key)
    ∙ ap (filled entries) (replaced-message key value segments clean k)
    ∙ filled-message entries (completed (one key value) segments) safe
        (completed-AreClean key value segments v clean)
    ∙ ap message_of (completed-cons key value entries segments)

-- A message of words and blanks, with no parenthesis open in the words and none in the name of a
-- blank, comes out with each blank that the dictionary has a value for filled with that value, and
-- the other blanks and the words as they were, if no key has a closing parenthesis and no value an
-- opening one.
pub personalised-message_of :
    (entries : Personalisation) (segments : List Segment)
    → AreSafe entries
    → AreClean segments
    → personalised (some entries) (message_of segments) ≡ message_of (completed entries segments)
unfolding personalised
personalised-message_of entries segments safe clean = filled-message entries segments safe clean
