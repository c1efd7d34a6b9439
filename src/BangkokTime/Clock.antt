-- ===== src/BangkokTime/Clock.antt =====
-- `parseClockMinutes` of api/src/lib/bangkok-time.ts, on texts such as "08:30".
use room_booking.Base.{
  ℕ, ◌+◌, ◌-◌, ◌*◌, ◌/◌, ◌%◌, ◌≤◌, ◌<◌, ◌≡◌, Bool, true, ◌&&◌, ◌||◌, ◌⊎◌, [], ◌∷◌, arith, ltb, leb,
  ◌==◌, Text, if◌then◌else◌,
}
use room_booking.Errors.{Result, ok, err, plain, invalid_clock_time}

-- `\d`
abbrev is_digit : ℕ → Bool
is_digit c = leb b'0' c && leb c b'9'

-- `Number` of two digits
abbrev two_digits : ℕ → ℕ → ℕ
two_digits a b = (a - b'0') * 10 + (b - b'0')

clock_minutes : Bool → ℕ → ℕ → Result ℕ
clock_minutes allow_end_of_day hour minute =
    if allow_end_of_day && (hour == 24) && (minute == 0)
    then ok (24 * 60)
    else if ltb 23 hour || ltb 59 minute
    then err (plain invalid_clock_time)
    else ok (hour * 60 + minute)

-- the pattern `^(\d{2}):(\d{2})$` is the five code units
unfoldable pub parse_clock_minutes : Text → Bool → Result ℕ
unfolding clock_minutes
parse_clock_minutes (a ∷ b ∷ c ∷ d ∷ e ∷ []) allow_end_of_day =
    if is_digit a && is_digit b && (c == b':') && is_digit d && is_digit e
    then clock_minutes allow_end_of_day (two_digits a b) (two_digits d e)
    else err (plain invalid_clock_time)
parse_clock_minutes _ allow_end_of_day = err (plain invalid_clock_time)

-- the text of a number of minutes, independent of the parser
abbrev pub print_clock : ℕ → Text
print_clock m =
    (b'0' + m / 60 / 10)
    ∷ (b'0' + m / 60 % 10)
    ∷ b':'
    ∷ (b'0' + m % 60 / 10)
    ∷ (b'0' + m % 60 % 10)
    ∷ []

-- Printing a time of the day and parsing it gives the time back.
pub parse_clock_minutes-print_clock :
    (m : ℕ) (allow : Bool) → m < 1440 → parse_clock_minutes (print_clock m) allow ≡ ok m
unfolding parse_clock_minutes
parse_clock_minutes-print_clock m allow h = ground arith

-- what a successful parse has found out about the five code units
abbrev Parsed : ℕ → ℕ → ℕ → ℕ → ℕ → ℕ → Type 0
Parsed a b c d e m =
    (b'0' ≤ a)
    × (a ≤ b'9')
    × (b'0' ≤ b)
    × (b ≤ b'9')
    × (c ≡ b':')
    × (b'0' ≤ d)
    × (d ≤ b'9')
    × (b'0' ≤ e)
    × (e ≤ b'9')
    × (two_digits d e < 60)
    × (m ≡ two_digits a b * 60 + two_digits d e)

clock_minutes-eq :
    (allow : Bool) (hour minute m : ℕ)
    → clock_minutes allow hour minute ≡ ok m
    → (minute < 60) × (m ≡ hour * 60 + minute)
unfolding clock_minutes
clock_minutes-eq allow hour minute m h = ground arith

parse_clock_minutes-Parsed :
    (a b c d e : ℕ) (allow : Bool) (m : ℕ)
    → parse_clock_minutes (a ∷ b ∷ c ∷ d ∷ e ∷ []) allow ≡ ok m
    → Parsed a b c d e m
unfolding parse_clock_minutes
parse_clock_minutes-Parsed a b c d e allow m h =
    ground (arith, clock_minutes-eq allow (two_digits a b) (two_digits d e) m)

print_clock-Parsed : (a b c d e m : ℕ) → Parsed a b c d e m → print_clock m ≡ a ∷ b ∷ c ∷ d ∷ e ∷ []
print_clock-Parsed a b c d e m h =
    let minute : m % 60 ≡ two_digits d e = omega arith in
    let hour : m / 60 ≡ two_digits a b = omega arith in
    let a' : b'0' + m / 60 / 10 ≡ a = rw hour (omega arith) in
    let b' : b'0' + m / 60 % 10 ≡ b = rw hour (omega arith) in
    let d' : b'0' + m % 60 / 10 ≡ d = rw minute (omega arith) in
    let e' : b'0' + m % 60 % 10 ≡ e = rw minute (omega arith) in rw (a', b', d', e', h.4)

-- A text that parses is the printed form of its value.
pub print_clock-parse_clock_minutes :
    (t : Text) (allow : Bool) (m : ℕ) → parse_clock_minutes t allow ≡ ok m → print_clock m ≡ t
unfolding parse_clock_minutes
print_clock-parse_clock_minutes (a ∷ b ∷ c ∷ d ∷ e ∷ []) allow m h =
    print_clock-Parsed a b c d e m (parse_clock_minutes-Parsed a b c d e allow m h)
print_clock-parse_clock_minutes _ allow m h = ground arith

-- A parsed time is below 24:00, and is 24:00 only where the caller allows the end of the day.
pub parse_clock_minutes_bounds :
    (t : Text) (allow : Bool) (m : ℕ)
    → parse_clock_minutes t allow ≡ ok m
    → (m < 1440) ⊎ ((allow ≡ true) × (m ≡ 1440))
unfolding parse_clock_minutes
parse_clock_minutes_bounds (a ∷ b ∷ c ∷ d ∷ e ∷ []) allow m h = ground arith
parse_clock_minutes_bounds _ allow m h = ground arith
