-- ===== src/Ctcp/Window.antt =====
-- Sending: `ctcp_prep_data_segment`, `ctcp_send_sliding_window` and `ctcp_send_non_data_segment` of
-- lab3/ctcp.c.
pub mod Order
pub mod Frame
use mini_internet_computer_n.Base.{
  ℕ, ◌+◌, ◌-◌, ◌%◌, ◌^◌, Bool, true, false, not, ◌&&◌, ◌||◌, List, [], ◌∷◌, ◌++◌, ltb, leb, ◌==◌,
  if◌then◌else◌, length,
}
use mini_internet_computer_n.Bbr.{Bbr}
use mini_internet_computer_n.Ctcp.Segment.{CtcpSegment, data_segment, bare_segment}
use mini_internet_computer_n.Ctcp.State.{CtcpConfig, SegmentInfo, CtcpState, Floats}

-- The wrapper of a new segment.
abbrev pub new_info : CtcpSegment → SegmentInfo
new_info s = record {
  prev_sent_time = 0;
  curr_num_retransmit = 0;
  is_in_flight = false;
  is_app_limited = false;
  curr_ctcp_segment = s;
}

unfoldable pub ctcp_prep_data_segment : CtcpState → List ℕ → CtcpState
ctcp_prep_data_segment st payload =
    let s = data_segment st.curr_seqno st.curr_ackno st.connect_config.recv_window payload in
    record st {
      segs_to_send = st.segs_to_send ++ (new_info s ∷ []);
      curr_seqno = (st.curr_seqno + length payload) % 2 ^ 32;
    }

-- `junk` and `pad` are what the local variable's memory holds.
unfoldable pub ctcp_send_non_data_segment : ℕ → ℕ → CtcpState → ℕ → CtcpState
ctcp_send_non_data_segment junk pad st flags = record st {
  sent =
      bare_segment junk pad st.curr_seqno st.curr_ackno st.connect_config.recv_window flags
      ∷ st.sent;
}

-- The lists and the window size that the first loop changes.
pub record Sliding : Type 0 where
  pub unacked : List SegmentInfo
  pub to_send : List SegmentInfo
  pub size : ℕ

-- The first loop: segments from the front of `to_send` join the unacknowledged ones while the window
-- size, a `uint16_t`, is below the bound.
unfoldable pub slide : ℕ → List SegmentInfo → ℕ → List SegmentInfo → Sliding
slide bound unacked size [] = record { unacked = unacked; to_send = []; size = size }
slide bound unacked size (i ∷ is) =
    let rest = slide bound (unacked ++ (i ∷ [])) ((size + i.curr_ctcp_segment.len) % 65536) is in
    if ltb size bound then rest else record { unacked = unacked; to_send = i ∷ is; size = size }

unfoldable pub slid : CtcpState → CtcpState
slid st =
    let s =
      slide st.connect_config.send_window st.unacked_segs_with_info st.curr_window_size
        st.segs_to_send in
    record st {
      unacked_segs_with_info = s.unacked;
      segs_to_send = s.to_send;
      curr_window_size = s.size;
    }

-- What the second loop marks in a segment that it sends, at time `t`.
unfoldable pub marked : CtcpState → SegmentInfo → SegmentInfo
marked st i = record i {
  prev_sent_time = st.clock;
  is_app_limited = i.is_app_limited || ltb 0 st.bbr.app_limited_until;
  is_in_flight = true;
}

-- The clock at the end of the waiting loop.
abbrev waited : CtcpState → ℕ
waited st =
    if leb st.bbr.next_packet_send_time st.clock then st.clock else st.bbr.next_packet_send_time

module _ (fl : Floats) where
  abbrev next_send_time : ℕ → Bbr → ℕ → ℕ
  next_send_time now b len =
      if b.max_bw == 0 then 0 else now + fl.pace len b.curr_pacing_gain b.btlbw

  -- The body of the second loop for a segment that is not in flight.
  unfoldable pub send_segment : CtcpState → CtcpSegment → CtcpState
  send_segment st seg =
      let b : Bbr = record st.bbr {
        probe_bw_data = (st.bbr.probe_bw_data + seg.len) % 2 ^ 32;
        inflight_data = (st.bbr.inflight_data + seg.len) % 2 ^ 32;
      } in
      record st {
        prev_packet_sent_time = st.clock;
        clock = waited st;
        bbr = record b { next_packet_send_time = next_send_time (waited st) b seg.len };
        sent = seg ∷ st.sent;
      }

  -- The second loop over the nodes that are left, in the state that the nodes before them leave.
  unfoldable pub send_unsent : CtcpState → List SegmentInfo → CtcpState × List SegmentInfo
  send_unsent st [] = (st, [])
  send_unsent st (i ∷ is) = elim i.is_in_flight [
    | true ↦ let (st', is') = send_unsent st is in (st', i ∷ is')
    | false ↦
        let (st', is') = send_unsent (send_segment st i.curr_ctcp_segment) is in
        (st', marked st i ∷ is')
  ]

  abbrev pub is_full : CtcpState → Bool
  is_full st =
      let bound = fl.bdp st.bbr.rtt_prop st.bbr.btlbw in
      not (bound == 0) && leb bound st.bbr.inflight_data

  -- `bytes_to_send == 0` while segments are left.
  abbrev pub is_starved : CtcpState → Bool
  is_starved st = st.curr_window_size == st.bbr.inflight_data && ltb 0 (length st.segs_to_send)

  unfoldable pub send_slid : CtcpState → CtcpState
  send_slid st =
      let (st', unacked) = send_unsent st st.unacked_segs_with_info in
      if is_full st
      then st
      else if is_starved st
      then record st { bbr = record st.bbr { app_limited_until = st.bbr.inflight_data } }
      else record st' { unacked_segs_with_info = unacked }

  unfoldable pub ctcp_send_sliding_window : CtcpState → CtcpState
  ctcp_send_sliding_window st = send_slid (slid st)
