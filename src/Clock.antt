-- ===== src/Clock.antt =====
-- Go's `time.Time` and `time.Duration`, as the program computes with them. A time is the number of
-- nanoseconds since the zero time; a duration is an `int64` of nanoseconds.
use ledger_service.Prelude.{ℕ, ◌+◌, ◌-◌, ◌*◌, ◌^◌, Bool, ◌==◌, ltb, if◌then◌else◌}
use ledger_service.Prelude.Int.{
  ℤ, pos, negsuc, pos_part, neg_part, sub_ℕ, int64, to_uint32, quot, add_int64, mul_int64, ◌+ℤ◌,
}

-- `time.Second` and `time.Millisecond`
abbrev pub second : ℕ
second = 1_000_000_000

abbrev pub millisecond : ℕ
millisecond = 1_000_000

-- `IsZero`
abbrev pub is_zero : ℕ → Bool
is_zero t = t == 0

-- a difference saturates at the ends of `int64`
abbrev pub saturate : ℤ → ℤ
saturate (pos n) = pos (if ltb n (2 ^ 63) then n else 2 ^ 63 - 1)
saturate (negsuc n) = negsuc (if ltb n (2 ^ 63) then n else 2 ^ 63 - 1)

-- `t.Sub(u)`
abbrev pub time_sub : ℕ → ℕ → ℤ
time_sub t u = saturate (sub_ℕ t u)

-- `t.Add(d)`
abbrev pub time_add : ℕ → ℤ → ℕ
time_add t d = t + pos_part d - neg_part d

-- the seconds from the zero time to 1 January 1970
abbrev pub unix_epoch : ℕ
unix_epoch = 62_135_596_800 * 1_000_000_000

-- `time.Unix(0, int64(ns))`
abbrev pub unix_time : ℕ → ℕ
unix_time ns = time_add unix_epoch (int64 ns)

-- `((d + time.Second - 1) / time.Second) * time.Second` in `int64`
unfoldable pub round_up_seconds : ℤ → ℤ
unfolding ◌+ℤ◌
round_up_seconds d =
    mul_int64 (quot (add_int64 (add_int64 d (pos second)) (negsuc 0)) second) second

-- `uint32(d / time.Second)`
abbrev pub whole_seconds : ℤ → ℕ
whole_seconds d = to_uint32 (quot d second)

-- `d.Milliseconds()`
abbrev pub milliseconds : ℤ → ℤ
milliseconds d = quot d millisecond
