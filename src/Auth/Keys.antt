-- ===== src/Auth/Keys.antt =====
-- The loop of `verify_service_token` over the API keys of a service, app/auth.py.
use va_enp_api.Prelude.{
  String, ◌≡◌, ◌≢◌, ◌↔◌, refl, sym, ap, ◌∙◌, inl, inr, Bool, true, false, none, List, [], ◌∷◌, ◌++◌,
  All, arith, Option-cases,
}
use va_enp_api.Prelude.Int.{◌-ℤ◌, ltb_ℤ}
use va_enp_api.Constants.{key_revoked}
use va_enp_api.Effects.{Exception, Result, ok, err, Result-cases}
use va_enp_api.Dao.Rows.{DateTime, ApiKeyRow}
use va_enp_api.Auth.Secrets.{from_row, secret}
use va_enp_api.Auth.Tokens.{Payload, access_token_leeway_seconds}
use va_enp_api.Auth.Timeliness.{IsTimely, decode_jwt_token-ok}
use va_enp_api.Auth.Service.{
  State, Collaborators, set_authenticated, forbidden, after_decoding, verify_key,
  validate_service_api_key, try_keys, is_before,
}

after_decoding-ok : (r : Result Exception Bool) → after_decoding r ≡ ok true → r ≡ ok true
after_decoding-ok r h = ground arith

is_before-ok : (d : DateTime) (now : _) → d.tzinfo ≢ none → (b : Bool) × (is_before d now ≡ ok b)
is_before-ok d now aware = elim (Option-cases d.tzinfo) [
  | inl naive ↦ absurd (aware naive)
  | inr (offset, e) ↦ (ltb_ℤ (d.reading -ℤ offset) now, rw e)
]

module _ {W : Type 0} (c : Collaborators W) where
  -- A key verifies a token only when its secret decodes, the token was signed with that secret, and
  -- the token's payload is timely.
  pub verify_key-ok :
      (token : String) (row : ApiKeyRow) (w : W)
      → verify_key c token (from_row row) w ≡ ok true
      → (key : String) × (p : Payload) × (secret c.b64decode (from_row row) ≡ ok key)
        × (c.jwt.decode token key c.settings.algorithm access_token_leeway_seconds w ≡ ok p)
        × IsTimely c.settings c.jwt p w
  unfolding verify_key
  verify_key-ok token row w h = elim (Result-cases (secret c.b64decode (from_row row))) [
    | inl (key, e) ↦
        let (p, decoded, timely) =
          decode_jwt_token-ok c.settings c.jwt token key w (after_decoding-ok _ (rw e at h)) in
        (key, p, e, decoded, timely)
    | inr (x, e) ↦ absurd (let bad = after_decoding-ok _ h in ground arith)
  ]

  -- A key that is not revoked is valid, whatever its expiry date.
  validate-ok :
      (row : ApiKeyRow) (w : W)
      → row.revoked ≡ false
      → validate_service_api_key c (from_row row) w ≡ ok tt
  unfolding validate_service_api_key from_row
  validate-ok row w live = ground arith

  validate-live :
      (row : ApiKeyRow) (w : W)
      → validate_service_api_key c (from_row row) w ≡ ok tt
      → row.revoked ≡ false
  unfolding validate_service_api_key from_row
  validate-live row w h = ground arith

  -- The key that the loop accepts: the first one that verifies the token. It is not revoked, and the
  -- context names it and the service.
  pub record IsMatched (token service_id : String) (rows : List ApiKeyRow) (s s' : State W)
      : Type 0 where
    pub before : List ApiKeyRow
    pub row : ApiKeyRow
    pub after : List ApiKeyRow
    pub listed : rows ≡ before ++ (row ∷ after)
    pub passed_over : All (λ r. verify_key c token (from_row r) s.outside ≡ ok false) before
    pub verified : verify_key c token (from_row row) s.outside ≡ ok true
    pub live : row.revoked ≡ false
    pub authenticated : s' ≡ set_authenticated row.id service_id s

  module _ (token service_id : String) (s s' : State W) where
    IsMatched-cons :
        (first : ApiKeyRow) (rows : List ApiKeyRow)
        → verify_key c token (from_row first) s.outside ≡ ok false
        → IsMatched token service_id rows s s'
        → IsMatched token service_id (first ∷ rows) s s'
    IsMatched-cons first rows rejected m = record {
      before = first ∷ m.before;
      row = m.row;
      after = m.after;
      listed = ap (λ l. first ∷ l) m.listed;
      passed_over = (rejected, m.passed_over);
      verified = m.verified;
      live = m.live;
      authenticated = m.authenticated;
    }

    accepted-IsMatched :
        (row : ApiKeyRow) (rows : List ApiKeyRow)
        → verify_key c token (from_row row) s.outside ≡ ok true
        → try_keys c token service_id (row ∷ rows) s ≡ (ok tt, s')
        → IsMatched token service_id (row ∷ rows) s s'
    unfolding try_keys from_row
    accepted-IsMatched row rows verified h =
        elim (Result-cases (validate_service_api_key c (from_row row) s.outside)) [
          | inl (_, valid) ↦ record {
            before = [];
            row = row;
            after = rows;
            listed = refl;
            passed_over = tt;
            verified = verified;
            live = validate-live row s.outside valid;
            authenticated = ground arith;
          }
          | inr (x, invalid) ↦ absurd (ground arith)
        ]

    try_keys-IsMatched :
        (rows : List ApiKeyRow)
        → try_keys c token service_id rows s ≡ (ok tt, s')
        → IsMatched token service_id rows s s'
    unfolding try_keys
    try_keys-IsMatched [] h = absurd (ground arith)
    try_keys-IsMatched (row ∷ rows) h =
        elim (Result-cases (verify_key c token (from_row row) s.outside)) [
          | inl (true, e) ↦ accepted-IsMatched row rows e h
          | inl (false, e) ↦ IsMatched-cons row rows e (try_keys-IsMatched rows (ground arith))
          | inr (x, e) ↦ absurd (ground arith)
        ]

    try_keys_past :
        (before rows : List ApiKeyRow)
        → All (λ r. verify_key c token (from_row r) s.outside ≡ ok false) before
        → try_keys c token service_id (before ++ rows) s ≡ try_keys c token service_id rows s
    unfolding try_keys
    try_keys_past [] rows h = refl
    try_keys_past (row ∷ before) rows (rejected, h) =
        rw (rejected, try_keys) (try_keys_past before rows h)

    try_keys_at :
        (row : ApiKeyRow) (rows : List ApiKeyRow)
        → verify_key c token (from_row row) s.outside ≡ ok true
        → row.revoked ≡ false
        → try_keys c token service_id (row ∷ rows) s
          ≡ (ok tt, set_authenticated row.id service_id s)
    unfolding try_keys from_row
    try_keys_at row rows verified live = rw (verified, try_keys, validate-ok row s.outside live)

    IsMatched-try_keys :
        (rows : List ApiKeyRow)
        → IsMatched token service_id rows s s'
        → try_keys c token service_id rows s ≡ (ok tt, s')
    IsMatched-try_keys rows m =
        ap (λ l. try_keys c token service_id l s) m.listed
        ∙ try_keys_past m.before (m.row ∷ m.after) m.passed_over
        ∙ try_keys_at m.row m.after m.verified m.live
        ∙ ap (λ z. (ok tt, z)) (sym m.authenticated)

    -- The loop over the keys accepts a token exactly when some key verifies it, every key before that
    -- one decodes to no match without raising, and the key is not revoked; the context then names
    -- that key. Its expiry date decides nothing.
    pub try_keys-ok_iff :
        (rows : List ApiKeyRow)
        → (try_keys c token service_id rows s ≡ (ok tt, s')) ↔ IsMatched token service_id rows s s'
    try_keys-ok_iff rows = (try_keys-IsMatched rows, IsMatched-try_keys rows)

    -- A revoked key that verifies the token, after keys that do not, ends the request with 403, even
    -- if a later key would verify it too; the context is left alone.
    pub try_keys_revoked :
        (before : List ApiKeyRow) (row : ApiKeyRow) (after : List ApiKeyRow)
        → All (λ r. verify_key c token (from_row r) s.outside ≡ ok false) before
        → verify_key c token (from_row row) s.outside ≡ ok true
        → row.revoked ≡ true
        → try_keys c token service_id (before ++ (row ∷ after)) s ≡ (err (forbidden key_revoked), s)
    unfolding try_keys validate_service_api_key from_row
    try_keys_revoked before row after h verified revoked =
        try_keys_past before (row ∷ after) h ∙ rw (verified, try_keys, revoked)
