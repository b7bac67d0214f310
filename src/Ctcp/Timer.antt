-- ===== src/Ctcp/Timer.antt =====
-- A connection's beginning and the periodic work on all connections: `ctcp_init`, `ctcp_timer` and
-- `ctcp_read` of lab3/ctcp.c.
pub mod Steady
use mini_internet_computer_n.Base.{
  ℕ, ◌+◌, ◌-◌, ◌*◌, ◌%◌, ◌^◌, Bool, true, false, not, ◌&&◌, List, [], ◌∷◌, ltb, leb, ◌==◌,
  if◌then◌else◌, length,
}
use mini_internet_computer_n.Bbr.{Bbr, bbr_init, bbr_update_rtt, signed_less, widened}
use mini_internet_computer_n.Ctcp.Segment.{CtcpSegment, th_fin}
use mini_internet_computer_n.Ctcp.State.{
  CtcpConfig, SegmentInfo, CtcpState, no_buffer, Run, ok, exited, fault, ◌>>=◌,
}
use mini_internet_computer_n.Ctcp.Window.{
  ctcp_prep_data_segment, ctcp_send_sliding_window, ctcp_send_non_data_segment,
}
use mini_internet_computer_n.Ctcp.Receive.{Platform, ctcp_destroy}

-- A new connection at time `now`. `raw` is what `malloc` returns for the congestion control.
unfoldable pub ctcp_init : Bbr → CtcpConfig → ℕ → CtcpState
ctcp_init raw cfg now = record {
  unacked_segs_with_info = [];
  segs_to_send = [];
  connect_config = cfg;
  final_packet_time = 0;
  prev_ackno = 1;
  curr_seqno = 1;
  curr_ackno = 1;
  curr_window_size = 0;
  eof_flag = false;
  fin_flag = false;
  output_buffer = no_buffer;
  output_len = 0;
  bbr = record (bbr_init raw) { curr_cwnd = cfg.send_window };
  prev_packet_sent_time = 0;
  timer_time_stamp = 0;
  clock = now;
  sent = [];
  outputs = [];
}

-- The time since the last tick is taken off the filter's window, down to 0.
unfoldable pub filter_elapsed : CtcpState → CtcpState
filter_elapsed st =
    let stamp = if st.timer_time_stamp == 0 then st.clock else st.timer_time_stamp in
    if ltb 0 st.bbr.min_rtt_filter_window
    then record st {
      timer_time_stamp = st.clock;
      bbr = record st.bbr {
        min_rtt_filter_window = st.bbr.min_rtt_filter_window - (st.clock - stamp);
      };
    }
    else st

unfoldable pub refreshed : ℕ → Bbr → Bbr
refreshed now b =
    if signed_less b.min_rtt (widened b.rtt_prop)
    then record b { rtt_prop = b.min_rtt % 2 ^ 32; rtt_updated_stamp = now }
    else b

unfoldable pub filter_expired : CtcpState → CtcpState
filter_expired st =
    if st.bbr.min_rtt_filter_window == 0
    then record st {
      bbr = record (refreshed st.clock (bbr_update_rtt st.clock st.bbr st.bbr.min_rtt)) {
        min_rtt_filter_window = 10000;
      };
    }
    else st

abbrev pub max_num_retransmit : ℕ
max_num_retransmit = 5

-- The test for a retransmission.
abbrev pub is_overdue : CtcpState → SegmentInfo → Bool
is_overdue st i =
    ltb (i.prev_sent_time + st.connect_config.rt_timeout) st.clock
    && ltb i.curr_num_retransmit max_num_retransmit

abbrev resent : CtcpState → SegmentInfo → SegmentInfo
resent st i = record i {
  prev_sent_time = st.clock;
  curr_num_retransmit = i.curr_num_retransmit + 1;
}

unfoldable pub retransmit : CtcpState → SegmentInfo → CtcpState
retransmit st i = record st {
  curr_window_size = (st.curr_window_size + 65536 - i.curr_ctcp_segment.len) % 65536;
  sent = i.curr_ctcp_segment ∷ st.sent;
}

-- The first `if` of the loop: the segment and the state behind it.
unfoldable pub resent_info : CtcpState → SegmentInfo → SegmentInfo
resent_info st i = if is_overdue st i then resent st i else i

unfoldable pub resent_state : CtcpState → SegmentInfo → CtcpState
resent_state st i = if is_overdue st i then retransmit st i else st

module _ (pf : Platform) where
  -- The loop over the unacknowledged segments: the state and the segments that it leaves.
  unfoldable pub retransmit_loop : CtcpState → List SegmentInfo → Run (CtcpState × List SegmentInfo)
  retransmit_loop st [] = ok (st, [])
  retransmit_loop st (i ∷ is) =
      let i' = resent_info st i in
      let st' = resent_state st i in
      let rest =
        retransmit_loop st' is >>= λ (r : CtcpState × List SegmentInfo). ok (r.0, i' ∷ r.1) in
      if leb max_num_retransmit i'.curr_num_retransmit
      then ctcp_destroy pf st' >>= (λ st''. ok (st'', i' ∷ is))
      else rest

  abbrev pub is_closed : CtcpState → Bool
  is_closed st =
      st.fin_flag
      && st.eof_flag
      && length st.unacked_segs_with_info == 0
      && length st.segs_to_send == 0

  unfoldable pub teardown : CtcpState → Run CtcpState
  teardown st =
      if is_closed st
      then if st.final_packet_time == 0
        then ok (record st { final_packet_time = st.clock })
        else if ltb (2 * st.connect_config.rt_timeout) (st.clock - st.final_packet_time)
        then ctcp_destroy pf st
        else ok st
      else ok st

  -- The body of the loop over the connections.
  unfoldable pub timer_round : CtcpState → Run CtcpState
  timer_round st =
      let filtered = filter_expired (filter_elapsed st) in
      retransmit_loop filtered filtered.unacked_segs_with_info >>= λ r.
      teardown (record (r.0) { unacked_segs_with_info = r.1 })

  unfoldable pub ctcp_timer : List CtcpState → Run (List CtcpState)
  ctcp_timer [] = ok []
  ctcp_timer (st ∷ sts) =
      let rest = ctcp_timer sts in timer_round st >>= λ st'. rest >>= λ sts'. ok (st' ∷ sts')

  -- The loop over the pieces of input, each of 1 to 11520 bytes.
  unfoldable pub read_loop : CtcpState → List (List ℕ) → CtcpState
  read_loop st [] = st
  read_loop st (d ∷ ds) =
      read_loop (ctcp_send_sliding_window pf.floats (ctcp_prep_data_segment st d)) ds

  -- Behind the loop: `ends` is whether the last result of `conn_input` is -1.
  unfoldable pub end_input : Bool → CtcpState → CtcpState
  end_input ends st =
      if ends && not st.eof_flag && length st.segs_to_send == 0
      then ctcp_send_non_data_segment pf.junk pf.pad (record st { eof_flag = true }) th_fin
      else st

  -- `pieces` are the results of `conn_input` above 0.
  unfoldable pub ctcp_read : CtcpState → List (List ℕ) → Bool → CtcpState
  ctcp_read st pieces ends = if st.eof_flag then st else end_input ends (read_loop st pieces)
