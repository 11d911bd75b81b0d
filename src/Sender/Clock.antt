-- ===== src/Sender/Clock.antt =====
-- The clock of src/lib/send_data/read_write_loop_sender.c, from the fields of `struct timeval`.
use linfo1341_project.Common.{ℕ, ◌+◌, ◌-◌, ◌*◌, ◌/◌, ◌%◌, ◌^◌, ◌≤◌, ◌<◌, ◌≡◌, arith}

unfoldable pub create_first_timestamp : (tv_sec tv_usec : ℕ) → ℕ
create_first_timestamp tv_sec tv_usec = tv_sec * 1000 + tv_usec / 1000

-- The cast to 32 bits comes before the subtraction, which is done on `long long` and cut again.
unfoldable pub current_timestamp : (tv_sec tv_usec start : ℕ) → ℕ
current_timestamp tv_sec tv_usec start =
    let milliseconds = tv_sec * 1000 + tv_usec / 1000 in
    (milliseconds % 2 ^ 32 + 2 ^ 64 - start) % 2 ^ 32

-- When the clock stands at or after the start of the sender, and the start is below 2^63
-- milliseconds, `current_timestamp` is the number of milliseconds since then, modulo 2^32,
-- though the clock is cut to 32 bits before the subtraction.
pub current_timestamp_lem :
    (sec usec sec' usec' : ℕ)
    → create_first_timestamp sec usec < 2 ^ 63
    → create_first_timestamp sec usec ≤ create_first_timestamp sec' usec'
    → current_timestamp sec' usec' (create_first_timestamp sec usec)
      ≡ (create_first_timestamp sec' usec' - create_first_timestamp sec usec) % 2 ^ 32
unfolding create_first_timestamp current_timestamp
current_timestamp_lem sec usec sec' usec' small later = omega arith
