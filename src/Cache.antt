-- ===== src/Cache.antt =====
-- `async_lru.alru_cache`, which auth.py, route_schema.py, utils.py and the DAOs put before their
-- lookups. The library is a parameter with its documented behaviour: a call takes the value that is
-- stored under its key, or runs the body, stores what it returns and stores no exception. Entries
-- leave the cache by themselves (`ttl`, `maxsize`), so nothing is said of how long one stays.
use va_enp_api.Prelude.{◌≡◌, sym, ap, ◌∙◌, inl, inr, Option, none, some, arith, Option-cases}
use va_enp_api.Effects.{Exception, ok, err, Exec, Exec-cases}

pub record AlruCache (W K V : Type 0) : Type 0 where
  pub call : (K → Exec W Exception V) → K → Exec W Exception V
  -- What is stored under a key.
  pub cached : K → W → Option V
  pub store : K → V → W → W
  -- A hit makes the entry the most recent one.
  pub touch : K → W → W
  pub hits :
      (f : K → Exec W Exception V) (k : K) (w : W) (v : V)
      → cached k w ≡ some v
      → call f k w ≡ (ok v, touch k w)
  pub returns :
      (f : K → Exec W Exception V) (k : K) (w w' : W) (v : V)
      → cached k w ≡ none
      → f k w ≡ (ok v, w')
      → call f k w ≡ (ok v, store k v w')
  pub raises :
      (f : K → Exec W Exception V) (k : K) (w w' : W) (x : Exception)
      → cached k w ≡ none
      → f k w ≡ (err x, w')
      → call f k w ≡ (err x, w')

-- Where the value of a cached call comes from, and the world after it.
pub data Obtained {W K V : Type 0} (c : AlruCache W K V) (f : K → Exec W Exception V) (k : K)
    (w : W) (v : V) (w' : W) : Type 0 where
  from_cache : c.cached k w ≡ some v → w' ≡ c.touch k w → Obtained c f k w v w'
  from_body :
      (w₁ : W)
      → c.cached k w ≡ none
      → f k w ≡ (ok v, w₁)
      → w' ≡ c.store k v w₁
      → Obtained c f k w v w'

module _ {W K V : Type 0} (c : AlruCache W K V) (f : K → Exec W Exception V) (k : K) (w : W) where
  pub call-Obtained : (v : V) (w' : W) → c.call f k w ≡ (ok v, w') → Obtained c f k w v w'
  call-Obtained v w' e = elim (Option-cases (c.cached k w)) [
    | inl miss ↦ elim (Exec-cases (f k) w) [
      | inl (u, w₁, ran) ↦
          let same = c.returns f k w w₁ u miss ran in
          from_body w₁ miss (ground arith) (ground arith)
      | inr (x, w₁, ran) ↦ absurd (let same = c.raises f k w w₁ x miss ran in ground arith)
    ]
    | inr (u, hit) ↦ let same = c.hits f k w u hit in from_cache (ground arith) (ground arith)
  ]

  -- An exception of a cached call is one of the body, which was run.
  pub call-err :
      (x : Exception) (w' : W)
      → c.call f k w ≡ (err x, w')
      → (c.cached k w ≡ none) × (f k w ≡ (err x, w'))
  call-err x w' e = elim (Option-cases (c.cached k w)) [
    | inl miss ↦ elim (Exec-cases (f k) w) [
      | inl (u, w₁, ran) ↦ absurd (let same = c.returns f k w w₁ u miss ran in ground arith)
      | inr (y, w₁, ran) ↦ let same = c.raises f k w w₁ y miss ran in (miss, ground arith)
    ]
    | inr (u, hit) ↦ absurd (let same = c.hits f k w u hit in ground arith)
  ]

pub Obtained-call :
    {W K V : Type 0} (c : AlruCache W K V) (f : K → Exec W Exception V) (k : K) (w : W) {v : V}
    {w' : W}
    → Obtained c f k w v w'
    → c.call f k w ≡ (ok v, w')
Obtained-call c f k w {v} (from_cache hit same) =
    c.hits f k w v hit ∙ ap (λ z. (ok v, z)) (sym same)
Obtained-call c f k w {v} (from_body w₁ miss ran same) =
    c.returns f k w w₁ v miss ran ∙ ap (λ z. (ok v, z)) (sym same)

pub none-ne-some : {V : Type 0} {v : V} → ◌≡◌ {A = Option V} none (some v) → ⊥
none-ne-some h = cc

-- A cache that holds nothing: every call runs the body.
abbrev pub no_cache : (W K V : Type 0) → AlruCache W K V
no_cache W K V = record {
  call = λ f k w. f k w;
  cached = λ k w. none;
  store = λ k v w. w;
  touch = λ k w. w;
  hits = λ f k w v h. absurd (none-ne-some h);
  returns = λ f k w w' v h e. e;
  raises = λ f k w w' x h e. e;
}
