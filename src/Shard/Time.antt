-- ===== src/Shard/Time.antt =====
-- Time points of `std::chrono::steady_clock`, and `is_expired` of src/lruShard.cpp. A `TimePoint` is
-- the number of nanoseconds above the least time point that 64 signed bits hold, so the order of time
-- points is the order of these numbers, and a clock reading is at least 2 ^ 63.
use tinycache.Prelude.{
  ℕ, ◌+◌, ◌-◌, ◌*◌, ◌^◌, Bool, false, ◌&&◌, Option, none, some, ltb, leb, if◌then◌else◌, Outcome,
  ok, fault, overflow, ◌>>=◌,
}
use tinycache.Prelude.Bytes.{word}

abbrev pub TimePoint : Type 0
TimePoint = ℕ

abbrev pub ns_per_second : ℕ
ns_per_second = 1_000_000_000

abbrev pub half_word : ℕ
half_word = 2 ^ 63

unfoldable pub is_expired : Option TimePoint → TimePoint → Bool
is_expired none now = false
is_expired (some t) now = leb t now

-- `now + std::chrono::seconds(s)`: the unsigned count becomes a signed one, which is then counted in
-- nanoseconds. A signed overflow is a fault.
unfoldable pub add_seconds : TimePoint → ℕ → Outcome TimePoint
add_seconds now s =
    if ltb s half_word
    then (if ltb (s * ns_per_second) half_word && ltb (now + s * ns_per_second) word
        then ok (now + s * ns_per_second)
        else fault overflow)
    else (if leb ((word - s) * ns_per_second) half_word && leb ((word - s) * ns_per_second) now
        then ok (now - (word - s) * ns_per_second)
        else fault overflow)

-- The optional deadline of `set`.
unfoldable pub deadline : Option ℕ → TimePoint → Outcome (Option TimePoint)
deadline none now = ok none
deadline (some s) now = do t ← add_seconds now s; ok (some t)
