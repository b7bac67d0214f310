-- ===== src/Bbr.antt =====
-- Congestion control of cTCP: lab3/ctcp_bbr.c and the struct of ctcp_bbr.h. Times and bandwidths are
-- taken as not negative, but for the round-trip times in `bbr_update_rtt`. A gain is its index in the table `bbr_pacing_gain`. `none` is undefined
-- behaviour.
pub mod Startup
pub mod Pacing
pub mod Ack
mod Tests
use mini_internet_computer_n.Base.{
  ℕ, ◌+◌, ◌-◌, ◌*◌, ◌/◌, ◌%◌, ◌^◌, Bool, true, false, not, ◌&&◌, ◌||◌, Option, none, some, leb, ltb,
  ◌==◌, if◌then◌else◌,
}

pub data BbrMode : Type 0 where
  bbr_startup : BbrMode
  bbr_drain : BbrMode
  bbr_probe_bw : BbrMode
  bbr_probe_rtt : BbrMode

-- `min_rtt`, `rtt_prop` and `max_bw` hold two's complement words; `bw0` to `bw2` are `startup_bw_arr`.
pub record Bbr : Type 0 where
  pub next_packet_send_time : ℕ
  pub rtt_updated_stamp : ℕ
  pub rtt_cnt : ℕ
  pub min_rtt_filter_window : ℕ
  pub curr_pacing_gain : ℕ
  pub probe_bw_data : ℕ
  pub probe_bw_pacing_idx : ℕ
  pub rtt_prop : ℕ
  pub btlbw : ℕ
  pub min_rtt : ℕ
  pub max_bw : ℕ
  pub bw0 : ℕ
  pub bw1 : ℕ
  pub bw2 : ℕ
  pub drain_round : ℕ
  pub probe_rtt_round : ℕ
  pub curr_cwnd : ℕ
  pub inflight_data : ℕ
  pub app_limited_until : ℕ
  pub curr_bbr_mode : BbrMode

-- `raw` is what `malloc` returns: the fields that are not named keep what the memory holds.
unfoldable pub bbr_init : Bbr → Bbr
bbr_init raw = record raw {
  next_packet_send_time = 0;
  min_rtt_filter_window = 10000;
  bw0 = 0;
  bw1 = 0;
  bw2 = 0;
  min_rtt = 2 ^ 64 - 1;
  max_bw = 2 ^ 32 - 1;
  rtt_cnt = 0;
  curr_pacing_gain = 0;
  btlbw = 11520;
  rtt_prop = 200;
  inflight_data = 0;
  app_limited_until = 0;
}

-- The test `changePercentage < 25.0`. The subtraction and the division are on 32-bit unsigned
-- integers, so the percentage is 0 or at least 100.
unfoldable pub slow_growth : ℕ → ℕ → Bool
slow_growth first last = (last + 2 ^ 32 - first) % 2 ^ 32 / first == 0

-- `rtt_cnt - round` in a `uint8_t`.
abbrev pub rounds_elapsed : ℕ → ℕ → ℕ
rounds_elapsed cnt round = (cnt + 2 ^ 32 - round) % 2 ^ 32 % 256

abbrev to_drain : Bbr → Bbr
to_drain bbr = record bbr { curr_bbr_mode = bbr_drain; drain_round = bbr.rtt_cnt }

abbrev to_probe_bw : Bbr → Bbr
to_probe_bw bbr = record bbr {
  curr_bbr_mode = bbr_probe_bw;
  probe_bw_data = 0;
  probe_bw_pacing_idx = 2;
}

-- The two conditions under which the startup state goes on to drain.
unfoldable pub starts_drain : Bbr → Bool
starts_drain bbr =
    bbr.rtt_cnt % 3 == 0 && ((not (bbr.bw0 == 0) && slow_growth bbr.bw0 bbr.bw2) || bbr.bw0 == 0)

-- `cwnd rtt_prop btlbw gain` is the floating-point product of the three, as a `uint16_t`.
module _ (cwnd : ℕ → ℕ → ℕ → ℕ) where
  unfoldable pub bbr_startup_state : Bbr → Bbr
  bbr_startup_state bbr =
      if starts_drain bbr
      then to_drain bbr
      else record bbr { curr_pacing_gain = 0; curr_cwnd = cwnd bbr.rtt_prop bbr.btlbw 0 }

  -- The rounds are counted from `probe_rtt_round`, not from `drain_round`.
  unfoldable pub bbr_drain_state : Bbr → Bbr
  bbr_drain_state bbr =
      if leb 4 (rounds_elapsed bbr.rtt_cnt bbr.probe_rtt_round)
      then to_probe_bw bbr
      else record bbr { curr_pacing_gain = 1; curr_cwnd = cwnd bbr.rtt_prop bbr.btlbw 1 }

  -- `btlbw * rtt_prop / 1000` is taken not to overflow an `int32_t`.
  unfoldable pub next_pacing : Bbr → Bbr
  next_pacing bbr =
      if leb (bbr.btlbw * bbr.rtt_prop / 1000) bbr.probe_bw_data
      then record bbr {
        probe_bw_data = 0;
        probe_bw_pacing_idx =
            if bbr.probe_bw_pacing_idx == 8 then 1 else (bbr.probe_bw_pacing_idx + 1) % 256;
      }
      else bbr

  -- The table has 9 gains: a greater index is read out of bounds.
  unfoldable pub paced : Bbr → Option Bbr
  paced bbr =
      if leb bbr.probe_bw_pacing_idx 8
      then some (record bbr {
        curr_pacing_gain = bbr.probe_bw_pacing_idx;
        curr_cwnd = cwnd bbr.rtt_prop bbr.btlbw 7;
      })
      else none

  unfoldable pub bbr_probe_bw_state : Bbr → Option Bbr
  bbr_probe_bw_state bbr = paced (next_pacing bbr)

  unfoldable pub bbr_probe_rtt_state : Bbr → Bbr
  bbr_probe_rtt_state bbr =
      let next =
        if leb 4 (rounds_elapsed bbr.rtt_cnt bbr.probe_rtt_round) then to_probe_bw bbr else bbr in
      record next { curr_pacing_gain = 7; curr_cwnd = cwnd bbr.rtt_prop bbr.btlbw 1 }

  -- The table `ModeHandlerArr`.
  unfoldable pub mode_handler : BbrMode → Bbr → Option Bbr
  mode_handler bbr_startup bbr = some (bbr_startup_state bbr)
  mode_handler bbr_drain bbr = some (bbr_drain_state bbr)
  mode_handler bbr_probe_bw bbr = bbr_probe_bw_state bbr
  mode_handler bbr_probe_rtt bbr = some (bbr_probe_rtt_state bbr)

  unfoldable pub bbr_update_model : Bbr → Option Bbr
  bbr_update_model bbr = mode_handler bbr.curr_bbr_mode bbr

-- The quotient is computed before the test for zero.
unfoldable pub bbr_update_bw : Bbr → ℕ → ℕ → Option (Bbr × ℕ)
bbr_update_bw bbr round_trip_time seg_len =
    if round_trip_time == 0
    then none
    else some (record bbr { rtt_cnt = (bbr.rtt_cnt + 1) % 2 ^ 32 }, seg_len / round_trip_time)

unfoldable pub to_probe_rtt : Bbr → Bbr
to_probe_rtt bbr = record bbr { curr_bbr_mode = bbr_probe_rtt; probe_rtt_round = bbr.rtt_cnt }

-- `a < b` for two's complement words of 64 bits.
abbrev pub signed_less : ℕ → ℕ → Bool
signed_less a b = ltb ((a + 2 ^ 63) % 2 ^ 64) ((b + 2 ^ 63) % 2 ^ 64)

-- An `int32_t` as a `long`.
abbrev pub widened : ℕ → ℕ
widened w = if ltb w (2 ^ 31) then w else w + (2 ^ 64 - 2 ^ 32)

-- `bbr->rtt_prop = (mode == BBR_PROBE_RTT) ? round_trip_time : bbr->rtt_prop`. The round-trip time is
-- -1 where no acknowledgement has come.
unfoldable pub probed : Bbr → ℕ → Bbr
probed bbr rtt = elim bbr.curr_bbr_mode [
  | bbr_startup ↦ bbr
  | bbr_drain ↦ bbr
  | bbr_probe_bw ↦ bbr
  | bbr_probe_rtt ↦ record bbr { rtt_prop = rtt % 2 ^ 32 }
]

unfoldable pub stale : ℕ → Bbr → Bbr
stale now bbr = elim bbr.curr_bbr_mode [
  | bbr_startup ↦ bbr
  | bbr_drain ↦ bbr
  | bbr_probe_bw ↦
      if signed_less ((now + 2 ^ 64 - bbr.rtt_updated_stamp) % 2 ^ 64) (widened bbr.rtt_prop)
      then bbr
      else to_probe_rtt bbr
  | bbr_probe_rtt ↦ bbr
]

-- The last `if`, with its switch.
unfoldable pub lowered : Bbr → ℕ → Bbr
lowered bbr rtt =
    let low = record bbr { rtt_prop = rtt % 2 ^ 32 } in
    if signed_less rtt (widened bbr.rtt_prop)
    then elim bbr.curr_bbr_mode [
      | bbr_startup ↦ low
      | bbr_drain ↦ low
      | bbr_probe_bw ↦ to_probe_rtt low
      | bbr_probe_rtt ↦ record low { curr_bbr_mode = bbr_startup }
    ]
    else bbr

-- `now` is what `current_time` returns.
unfoldable pub bbr_update_rtt : ℕ → Bbr → ℕ → Bbr
bbr_update_rtt now bbr rtt = lowered (stale now (probed bbr rtt)) rtt
