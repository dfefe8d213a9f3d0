-- ===== src/TimerQueue/Clock.antt =====
-- timestamp/TimeStamp.h and TimeStamp.cc: the clock, the text of a time, and differences. What
-- `gettimeofday` gives is an argument, and so are the two formats of `snprintf`.
use learn_for_cpp.Base.{ℕ, ◌*◌, ◌/◌, ◌%◌, ◌≡◌, List, ◌∷◌, ◌++◌, take, arith}
use learn_for_cpp.Base.Int.{
  ℤ, pos, negsuc, pos_part, neg_part, sub_ℕ, ◌+ℤ◌, ◌-ℤ◌, +ℤ_parts, eq_of_parts,
}
use learn_for_cpp.TimerQueue.{Timestamp, micro_second_per_second}

-- Times `kMicroSecondPerSecond`, and the quotient and the remainder by it, which round towards 0.
abbrev scale : ℤ → ℤ
scale s = sub_ℕ (pos_part s * micro_second_per_second) (neg_part s * micro_second_per_second)

abbrev seconds_of : ℤ → ℤ
seconds_of t = sub_ℕ (pos_part t / micro_second_per_second) (neg_part t / micro_second_per_second)

abbrev micros_of : ℤ → ℤ
micros_of t = sub_ℕ (pos_part t % micro_second_per_second) (neg_part t % micro_second_per_second)

-- `now`, from `tv_sec` and `tv_usec`.
pub now : ℤ → ℤ → Timestamp
now tv_sec tv_usec = scale tv_sec +ℤ tv_usec

-- The seconds and the microseconds that `toString` prints.
pub split_time : Timestamp → ℤ × ℤ
split_time t = (seconds_of t, micros_of t)

-- `toString`: `snprintf` into 31 bytes, with what "%ld" and "%06ld" print.
pub to_string : (ℤ → List ℕ) → (ℤ → List ℕ) → Timestamp → List ℕ
to_string print print_padded t =
    let (seconds, microseconds) = split_time t in
    take 30 (print seconds ++ (46 ∷ print_padded microseconds))

-- `timeDiffence`: the division is that of integers.
pub time_diffence : Timestamp → Timestamp → ℤ
time_diffence high low = seconds_of (high -ℤ low)

-- The parts that `toString` prints make up the time, as `now` puts them together.
now-split_time : (t : Timestamp) → now (split_time t).0 (split_time t).1 ≡ t
unfolding now split_time
now-split_time (pos n) =
    let s = seconds_of (pos n) in
    let m = micros_of (pos n) in
    let parts = +ℤ_parts (scale s) m in eq_of_parts (now s m) (pos n) (ground (arith, parts))
now-split_time (negsuc n) =
    let s = seconds_of (negsuc n) in
    let m = micros_of (negsuc n) in
    let parts = +ℤ_parts (scale s) m in eq_of_parts (now s m) (negsuc n) (ground (arith, parts))
