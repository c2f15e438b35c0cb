-- ===== src/Dbtest/Stamps.antt =====
-- internal/dbtest/timestamp.go: `Timestamp` as a value of a database.
use go_dbw.Prelude.{ℕ, ℤ, pos, negsuc, String, ◌==◌, Option, none, some, if◌then◌else◌, []}
use go_dbw.Errors.{Outcome, ok, err, plain}

-- The parts of `time` and of protobuf's timestamppb that are used.
pub record Clock : Type 1 where
  pub Time : Type 0
  pub Proto : Type 0
  -- `time.Date` in UTC: year, month, day, hour, minute, second, nanosecond
  pub date : ℤ → ℕ → ℕ → ℕ → ℕ → ℕ → ℕ → Time
  pub now : Time
  pub new_proto : Time → Proto
  -- the zero time of Unix for a nil message
  pub as_time : Option Proto → Time

-- What a driver hands to `Scan`.
pub data Scanned (C : Clock) : Type 0 where
  scanned_time : C.Time → Scanned C
  scanned_text : String → Scanned C
  scanned_other : Scanned C

module _ (C : Clock) where
  -- A `Timestamp` is its message, which may be nil.
  unfoldable pub new : C.Time → Option C.Proto
  new t = some (C.new_proto t)

  unfoldable pub now : Option C.Proto
  unfolding new
  now = new C.now

  unfoldable pub as_time : Option C.Proto → C.Time
  as_time ts = C.as_time ts

  abbrev pub negative_infinity_ts : C.Time
  negative_infinity_ts = C.date (negsuc 2147483647) 1 1 0 0 0 0

  abbrev pub positive_infinity_ts : C.Time
  positive_infinity_ts = C.date (pos 2147483647) 12 31 23 59 59 999999999

  -- The type switch; a text that is neither infinity is passed over with no error.
  unfoldable pub scan : Scanned C → Option C.Proto → Outcome (Unit {0}) × Option C.Proto
  scan (scanned_time t) ts = (ok tt, some (C.new_proto t))
  scan (scanned_text s) ts =
      if s == "-infinity"
      then (ok tt, some (C.new_proto negative_infinity_ts))
      else if s == "infinity"
      then (ok tt, some (C.new_proto positive_infinity_ts))
      else (ok tt, ts)
  scan scanned_other ts = (err (plain "Not a protobuf Timestamp" []), ts)

  -- `Value` on a pointer that may be nil; it returns no error.
  unfoldable pub value : Option (Option C.Proto) → Option C.Time
  value none = none
  value (some ts) = some (C.as_time ts)

  abbrev pub gorm_data_type : String
  gorm_data_type = "timestamp"
