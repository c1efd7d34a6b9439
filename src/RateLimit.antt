-- ===== src/RateLimit.antt =====
-- api/src/lib/database-rate-limiter.ts
--
-- `hash` is the digest of `${scope}:${subject}`. `now` is the database's clock at the statement,
-- `read_at` what the server's own clock reads after it.
pub mod Windows
use room_booking.Base.{
  ℕ, suc, ◌+◌, ◌-◌, ◌*◌, ◌/◌, ltb, leb, ◌==◌, ◌&&◌, ◌||◌, max, Bool, Option, none, some, List, [],
  ◌∷◌, Text, text_eq, find_first, if◌then◌else◌,
}
use room_booking.Errors.{Result, ok, err, Error, plain, rate_limit_configuration, rate_limit_no_row}

pub record RateLimitBucket : Type 0 where
  pub scope : Text
  pub subject_hash : ℕ
  pub window_started_at : ℕ
  pub count : ℕ

pub record RateLimitResult : Type 0 where
  pub allowed : Bool
  pub remaining : ℕ
  pub retry_after_seconds : ℕ

-- the primary key of the table
abbrev pub has_key : Text → ℕ → RateLimitBucket → Bool
has_key scope subject_hash b = text_eq b.scope scope && b.subject_hash == subject_hash

abbrev pub bucket_of : Text → ℕ → List RateLimitBucket → Option RateLimitBucket
bucket_of scope subject_hash rows = find_first (has_key scope subject_hash) rows

-- `DO UPDATE SET` of the statement
abbrev pub touch : ℕ → ℕ → RateLimitBucket → RateLimitBucket
touch window_seconds now b =
    if leb (b.window_started_at + window_seconds * 1000) now
    then record b { count = 1; window_started_at = now }
    else record b { count = suc b.count }

-- `INSERT … ON CONFLICT … DO UPDATE`
upsert : Text → ℕ → ℕ → ℕ → List RateLimitBucket → List RateLimitBucket
upsert scope subject_hash window_seconds now [] =
    record { scope = scope; subject_hash = subject_hash; window_started_at = now; count = 1 } ∷ []
upsert scope subject_hash window_seconds now (b ∷ bs) =
    let rest = upsert scope subject_hash window_seconds now bs in
    if has_key scope subject_hash b then touch window_seconds now b ∷ bs else b ∷ rest

abbrev result_of : ℕ → ℕ → ℕ → RateLimitBucket → RateLimitResult
result_of limit window_seconds read_at b = record {
  allowed = leb b.count limit;
  remaining = limit - b.count;
  retry_after_seconds =
      max 1 ((window_seconds * 1000 - (read_at - b.window_started_at) + 999) / 1000);
}

-- the row that the statement returns
abbrev returned :
    ℕ
    → ℕ
    → ℕ
    → List RateLimitBucket
    → Option RateLimitBucket
    → Result (RateLimitResult × List RateLimitBucket)
returned limit window_seconds read_at rows none = err (plain rate_limit_no_row)
returned limit window_seconds read_at rows (some b) =
    ok (result_of limit window_seconds read_at b, rows)

module _ (hash : Text → Text → ℕ) where
  consume_at :
      Text
      → ℕ
      → ℕ
      → ℕ
      → ℕ
      → ℕ
      → List RateLimitBucket
      → Result (RateLimitResult × List RateLimitBucket)
  unfolding upsert
  consume_at scope subject_hash limit window_seconds now read_at rows =
      let after = upsert scope subject_hash window_seconds now rows in
      returned limit window_seconds read_at after (bucket_of scope subject_hash after)

  -- `DatabaseRateLimiter.consume`; a number that is no natural number is `none`
  pub consume :
      Text
      → Text
      → Option ℕ
      → Option ℕ
      → ℕ
      → ℕ
      → List RateLimitBucket
      → Result (RateLimitResult × List RateLimitBucket)
  unfolding consume_at
  consume scope subject (some limit) (some window_seconds) now read_at rows =
      if ltb limit 1 || ltb window_seconds 1
      then err (plain rate_limit_configuration)
      else consume_at scope (hash scope subject) limit window_seconds now read_at rows
  consume scope subject _ _ now read_at rows = err (plain rate_limit_configuration)

  -- how many of a client's requests at the given times, in order, are allowed
  abbrev count_allowed :
      Result (RateLimitResult × List RateLimitBucket) → (List RateLimitBucket → ℕ) → ℕ
  count_allowed (ok (r, rows)) rest = if r.allowed then suc (rest rows) else rest rows
  count_allowed (err e) rest = 0

  pub allowed_requests : Text → Text → ℕ → ℕ → List ℕ → List RateLimitBucket → ℕ
  unfolding consume
  allowed_requests scope subject limit window_seconds [] rows = 0
  allowed_requests scope subject limit window_seconds (t ∷ ts) rows =
      count_allowed (consume scope subject (some limit) (some window_seconds) t t rows)
        (allowed_requests scope subject limit window_seconds ts)
