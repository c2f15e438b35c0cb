-- ===== src/Backoffs.antt =====
-- backoff.go.
use go_dbw.Prelude.{ℕ, ◌*◌, ◌%◌, Bool, if◌then◌else◌}
use go_dbw.DoTx.{Backoff, word}

-- `ConstBackoff`; the field is the pattern of an int64.
pub record ConstBackoff : Type 0 where
  pub duration_ms : ℕ

-- `time.Millisecond * time.Duration(b.DurationMs)`, which wraps around
unfoldable pub duration : ConstBackoff → ℕ → ℕ
duration b attempt = (1000000 * b.duration_ms) % word

-- It waits the same time after every attempt, and changes nothing.
abbrev pub const_backoff : {W : Type 0} → ConstBackoff → Backoff W
const_backoff b attempt w = (duration b attempt, w)

-- The floats that the exponential backoff computes with.
pub record Floats (W : Type 0) : Type 1 where
  pub Float : Type 0
  pub zero_lt : Float → Bool
  -- `math.Exp2(float64(attempt))`
  pub exp2 : ℕ → Float
  pub mul : Float → Float → Float
  pub add : Float → Float → Float
  pub five : Float
  pub half : Float
  -- `rand.Float64()`
  pub random : W → Float × W
  -- `time.Duration(x)`, as the pattern of an int64
  pub to_duration : Float → ℕ

module _ {W : Type 0} (F : Floats W) where
  -- The factor of a test, if it is positive, or else a random one
  abbrev factor : F.Float → W → F.Float × W
  factor test_rand w = if F.zero_lt test_rand then (test_rand, w) else F.random w

  -- `ExpBackoff`: `Exp2(attempt) * 5 * (r + 0.5)` milliseconds, which wrap around
  unfoldable pub exp_backoff : F.Float → Backoff W
  exp_backoff test_rand attempt w =
      let (r, w) = factor test_rand w in
      ((1000000 * F.to_duration (F.mul (F.mul (F.exp2 attempt) F.five) (F.add r F.half))) % word, w)
