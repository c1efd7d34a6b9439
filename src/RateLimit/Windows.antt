-- ===== src/RateLimit/Windows.antt =====
-- How many requests a window of api/src/lib/database-rate-limiter.ts allows.
use room_booking.Base.{
  ℕ, suc, ◌+◌, ◌-◌, ◌*◌, ◌≤◌, ◌<◌, ◌≡◌, refl, leb, ltb, ==_refl, true, false, Bool-cases, inl, inr,
  none, some, List, [], ◌∷◌, All, All-map, Option-cases, ap, ◌∙◌, arith, Text, text_eq,
}
use room_booking.RateLimit.{
  RateLimitBucket, has_key, bucket_of, touch, upsert, consume_at, consume, allowed_requests,
}

text_eq_refl : (s : Text) → text_eq s s ≡ true
text_eq_refl [] = refl
text_eq_refl (c ∷ cs) = rw (==_refl c, text_eq_refl cs) refl

touch_open :
    (window_seconds now : ℕ) (b : RateLimitBucket)
    → now < b.window_started_at + window_seconds * 1000
    → touch window_seconds now b ≡ record b { count = suc b.count }
touch_open window_seconds now b h =
    let open_window : leb (b.window_started_at + window_seconds * 1000) now ≡ false =
      ground arith in
    rw open_window refl

touch_expired :
    (window_seconds now : ℕ) (b : RateLimitBucket)
    → b.window_started_at + window_seconds * 1000 ≤ now
    → touch window_seconds now b ≡ record b { count = 1; window_started_at = now }
touch_expired window_seconds now b h =
    let expired : leb (b.window_started_at + window_seconds * 1000) now ≡ true = ground arith in
    rw expired refl

module _ (scope : Text) (subject_hash window_seconds now : ℕ) where
  -- the row of the key after the statement
  upsert-some :
      (rows : List RateLimitBucket) (b : RateLimitBucket)
      → bucket_of scope subject_hash rows ≡ some b
      → bucket_of scope subject_hash (upsert scope subject_hash window_seconds now rows)
        ≡ some (touch window_seconds now b)
  unfolding upsert
  upsert-some [] b h = absurd (ground arith)
  upsert-some (x ∷ rows) b h = elim (Bool-cases (has_key scope subject_hash x)) [
    | inl hit ↦ ground arith
    | inr miss ↦ rw (miss, miss) (upsert-some rows b (ground arith))
  ]

  upsert-none :
      (rows : List RateLimitBucket)
      → bucket_of scope subject_hash rows ≡ none
      → bucket_of scope subject_hash (upsert scope subject_hash window_seconds now rows)
        ≡ some (record {
          scope = scope;
          subject_hash = subject_hash;
          window_started_at = now;
          count = 1;
        })
  unfolding upsert
  upsert-none [] h = rw (text_eq_refl scope, ==_refl subject_hash) refl
  upsert-none (x ∷ rows) h = elim (Bool-cases (has_key scope subject_hash x)) [
    | inl hit ↦ absurd (ground arith)
    | inr miss ↦ rw (miss, miss) (upsert-none rows (ground arith))
  ]

module _ (hash : Text → Text → ℕ) (scope subject : Text) (limit window_seconds : ℕ) where
  -- what is left of a window
  allowed_requests_left :
      (ts : List ℕ) (rows : List RateLimitBucket) (b : RateLimitBucket)
      → 1 ≤ limit
      → 1 ≤ window_seconds
      → bucket_of scope (hash scope subject) rows ≡ some b
      → All (λ (t : ℕ). t < b.window_started_at + window_seconds * 1000) ts
      → allowed_requests hash scope subject limit window_seconds ts rows ≤ limit - b.count
  unfolding allowed_requests consume consume_at
  allowed_requests_left [] rows b l v h a = omega arith
  allowed_requests_left (t ∷ ts) rows b l v h a =
      let after = upsert scope (hash scope subject) window_seconds t rows in
      let lim : ltb limit 1 ≡ false = ground arith in
      let win : ltb window_seconds 1 ≡ false = ground arith in
      let at : bucket_of scope (hash scope subject) after
          ≡ some (record b { count = suc b.count }) =
        upsert-some scope (hash scope subject) window_seconds t rows b h
        ∙ ap some (touch_open window_seconds t b a.0) in
      let rest = allowed_requests_left ts after (record b { count = suc b.count }) l v at a.1 in
      rw (lim, win, at) (ground (arith, rest))

  -- no window of the key is open at a time
  abbrev pub NoWindow : ℕ → List RateLimitBucket → Type 0
  NoWindow now rows =
      (b : RateLimitBucket)
      → bucket_of scope (hash scope subject) rows ≡ some b
      → b.window_started_at + window_seconds * 1000 ≤ now

  opened :
      (t : ℕ) (rows : List RateLimitBucket)
      → NoWindow t rows
      → (b : RateLimitBucket) × (bucket_of scope
            (hash scope subject)
            (upsert scope (hash scope subject) window_seconds t rows)
          ≡ some b)
        × (b.count ≡ 1)
        × (b.window_started_at ≡ t)
  opened t rows closed = elim (Option-cases (bucket_of scope (hash scope subject) rows)) [
    | inl e ↦ (_, upsert-none scope (hash scope subject) window_seconds t rows e, refl, refl)
    | inr (b, e) ↦ (
      record b { count = 1; window_started_at = t },
      upsert-some scope (hash scope subject) window_seconds t rows b e
          ∙ ap some (touch_expired window_seconds t b (closed b e)),
      refl,
      refl,
    )
  ]

  -- Of a client's requests that come within `window_seconds` of the one that opens a window, that
  -- one included, at most `limit` are allowed, however many there are. Limit and window are
  -- positive, as the service requires.
  pub allowed_requests_bound :
      (t : ℕ) (ts : List ℕ) (rows : List RateLimitBucket)
      → 1 ≤ limit
      → 1 ≤ window_seconds
      → NoWindow t rows
      → All (λ (s : ℕ). s < t + window_seconds * 1000) ts
      → allowed_requests hash scope subject limit window_seconds (t ∷ ts) rows ≤ limit
  unfolding allowed_requests consume consume_at
  allowed_requests_bound t ts rows l v closed a =
      let after = upsert scope (hash scope subject) window_seconds t rows in
      let lim : ltb limit 1 ≡ false = ground arith in
      let win : ltb window_seconds 1 ≡ false = ground arith in
      let (b, at, one, begun) = opened t rows closed in
      let rest =
        allowed_requests_left ts after b l v at (All-map ts (λ s h. omega (arith, h, begun)) a) in
      rw (lim, win, at) (ground (arith, rest, one))
