-- ===== src/Ctcp/Input/Due.antt =====
-- When the timer is up.
use mini_internet_computer_n.Base.{ℕ, ◌+◌, ◌*◌, ◌<◌, ◌≤◌, ◌≡◌, arith}
use mini_internet_computer_n.Ctcp.Input.{Timespec, elapsed_ms, need_timer_in}

abbrev nanoseconds : Timespec → ℕ
nanoseconds t = t.tv_sec * 1000000000 + t.tv_nsec

module _ (last now : Timespec) (interval : ℕ) (fits : last.tv_nsec < 1000000000)
    (fits' : now.tv_nsec < 1000000000) (forward : nanoseconds last ≤ nanoseconds now) where
  -- After the interval the timer is up.
  need_timer_in_due :
      nanoseconds last + interval * 1000000 ≤ nanoseconds now → need_timer_in last now interval ≡ 0
  unfolding need_timer_in elapsed_ms
  need_timer_in_due over = ground arith

  -- An interval below a second is taken to be over as soon as the clock's seconds have changed.
  need_timer_in_early :
      interval < 1000 → last.tv_sec < now.tv_sec → need_timer_in last now interval ≡ 0
  unfolding need_timer_in
  need_timer_in_early short later = ground arith

  -- Within the same second the timer is neither early nor a millisecond late.
  need_timer_in_exact :
      last.tv_sec ≡ now.tv_sec
      → (nanoseconds last + interval * 1000000
          < nanoseconds now + need_timer_in last now interval * 1000000 + 1000000)
        × (need_timer_in last now interval ≤ interval)
  unfolding need_timer_in elapsed_ms
  need_timer_in_exact same = ground arith
