-- ===== src/Sched/Timer/Clock.antt =====
-- The time of day that `timer_handler` of sys/timer.c shows.
use preemptive_unix_os.Base.{ℕ, ◌+◌, ◌*◌, ◌/◌, ◌%◌, ◌<◌, ◌≡◌, arith}
use preemptive_unix_os.Sched.Timer.{time_of_day}

-- The hours, minutes and seconds shown are below 24, 60 and 60, and together they are the seconds since midnight.
pub time_of_day_lem :
    (ticks : ℕ)
    → (let (h, m, s) = time_of_day ticks in
        (h < 24) × (m < 60) × (s < 60) × (h * 3600 + m * 60 + s ≡ ticks / 100 % 86400))
unfolding time_of_day
time_of_day_lem ticks = (ground arith, ground arith, ground arith, ground arith)
