-- ===== src/Tests/Limits.antt =====
-- Runs of the theorem about rate limits.
use room_booking.Base.{ℕ, ◌≤◌, [], ◌∷◌, Text, codes, arith}
use room_booking.RateLimit.{allowed_requests}
use room_booking.RateLimit.Windows.{NoWindow, allowed_requests_bound}

abbrev digest : Text → Text → ℕ
digest scope subject = 7

abbrev login : Text
login = codes "login"

none_open : NoWindow digest login login 2 60 1000 []
none_open b h = absurd (ground arith)

-- four requests within a minute, of which two are allowed
allowed_requests_bound_example :
    allowed_requests digest login login 2 60 (1000 ∷ 1500 ∷ 2000 ∷ 60000 ∷ []) [] ≤ 2
allowed_requests_bound_example =
    allowed_requests_bound digest login login 2 60 1000 (1500 ∷ 2000 ∷ 60000 ∷ []) [] (omega arith)
      (omega arith) none_open (omega arith, (omega arith, (omega arith, tt)))
