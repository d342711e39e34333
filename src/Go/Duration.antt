-- ===== src/Go/Duration.antt =====
-- `time.Duration` and the age of a file. Times are numbers of nanoseconds, far from the bounds of an
-- int64, so the saturation of `Time.Sub` is not met.
use loraplex.Prelude.{Bool, ◌-◌, leb, ◌+◌, ℕ, ltb}

pub data ℤ : Type 0 where
  pos : ℕ → ℤ
  negsuc : ℕ → ℤ

-- `now.Sub(then) > d`
unfoldable pub is_older : ℤ → ℕ → ℕ → Bool
is_older (pos n) now then_ = ltb n (now - then_)
is_older (negsuc n) now then_ = leb then_ (now + n)
