-- ===== src/Ctcp/Receive.antt =====
-- Taking a segment: `ctcp_receive`, `ctcp_output` and `ctcp_destroy` of lab3/ctcp.c.
pub mod Sheds
pub mod Cksum
pub mod Deliver
pub mod Fuel
use mini_internet_computer_n.Base.{
  ℕ, zero, suc, ◌+◌, ◌-◌, ◌%◌, ◌^◌, Bool, true, false, not, ◌&&◌, Option, none, some, List, [], ◌∷◌,
  ◌++◌, ltb, leb, ◌==◌, if◌then◌else◌, take, length,
}
use mini_internet_computer_n.Bbr.{Bbr}
use mini_internet_computer_n.Bbr.Ack.{acknowledged}
use mini_internet_computer_n.Ctcp.Segment.{
  CtcpSegment, ctcp_hdr_size, th_ack, has_fin, has_ack, received_cksum,
}
use mini_internet_computer_n.Ctcp.State.{
  CtcpConfig, SegmentInfo, CtcpState, OutputBuffer, no_buffer, held, freed, Run, ok, exited, fault,
  ◌>>=◌, Floats,
}
use mini_internet_computer_n.Ctcp.Window.{ctcp_send_sliding_window, ctcp_send_non_data_segment}

-- Reading `next` of a freed node is undefined behaviour: it may show the old successor or a null
-- pointer, and anything else, a node's memory that is in use again included, is `undefined_read`.
pub data FreedNext : Type 0 where
  old_successor : FreedNext
  null_pointer : FreedNext
  undefined_read : FreedNext

unfoldable pub shows_successor : FreedNext → Bool
shows_successor old_successor = true
shows_successor null_pointer = false
shows_successor undefined_read = false

unfoldable pub read_freed : FreedNext → Run CtcpState → Run CtcpState
read_freed old_successor rest = rest
read_freed null_pointer rest = rest
read_freed undefined_read rest = fault

-- What the program around a connection fixes: whether it is a server, what the memory of a local
-- segment holds in its flags and in its padding, and what comes of reading `next` of a list node
-- after `ll_remove` has freed it.
pub record Platform : Type 0 where
  pub floats : Floats
  pub is_server : Bool
  pub junk : ℕ
  pub pad : ℕ
  pub lingers : SegmentInfo → FreedNext

module _ (pf : Platform) where
  -- A client exits. A server goes on with a connection that is freed, and every caller in ctcp.c
  -- reads that connection again.
  unfoldable pub ctcp_destroy : CtcpState → Run CtcpState
  ctcp_destroy st = if pf.is_server then fault else exited

  -- What an acknowledgement of `i`, which is no longer among the unacknowledged segments, does to the
  -- counters.
  unfoldable pub released : CtcpState → SegmentInfo → Bbr → CtcpState
  released st i b =
      let len = i.curr_ctcp_segment.len in
      record st {
        connect_config = record st.connect_config { send_window = b.curr_cwnd };
        curr_window_size = (st.curr_window_size + 65536 - len) % 65536;
        bbr = record b {
          app_limited_until =
              if ltb 0 b.app_limited_until
              then (b.app_limited_until + 2 ^ 32 - len) % 2 ^ 32
              else b.app_limited_until;
          inflight_data = (b.inflight_data + 2 ^ 32 - len) % 2 ^ 32;
        };
      }

  unfoldable pub refilled : CtcpState → CtcpState
  refilled st = if ltb 0 (length st.segs_to_send) then ctcp_send_sliding_window pf.floats st else st

  -- The rest of the loop's body, with what the congestion control makes of the acknowledgement.
  unfoldable pub after_ack : CtcpState → SegmentInfo → List SegmentInfo → Option Bbr → Run CtcpState
  after_ack st i is none = fault
  after_ack st i is (some b) =
      ok (refilled (released (record st { unacked_segs_with_info = is }) i b))

  -- The body of the loop for the front segment `i`, with `is` behind it.
  unfoldable pub ack_front : CtcpState → SegmentInfo → List SegmentInfo → Run CtcpState
  ack_front st i is = after_ack st i is (
      acknowledged pf.floats.cwnd (st.clock - i.prev_sent_time) i.curr_ctcp_segment.len
        i.is_app_limited st.bbr)

  -- The loop over the unacknowledged segments, on fuel. Behind an acknowledged segment it reads the
  -- freed node, and goes on where that shows a successor.
  unfoldable pub ack_loop : ℕ → ℕ → CtcpState → List SegmentInfo → Run CtcpState
  ack_loop zero ackno st l = ok st
  ack_loop (suc f) ackno st [] = ok st
  ack_loop (suc f) ackno st (i ∷ is) =
      let next = λ (st' : CtcpState). read_freed (pf.lingers i) (
        ack_loop f ackno st' (
          if ltb 0 (length is) && shows_successor (pf.lingers i)
          then st'.unacked_segs_with_info
          else [])) in
      if ltb i.curr_ctcp_segment.seqno ackno then ack_front st i is >>= next else ok st

  -- Each round acknowledges a segment, so that all segments of the connection bound the rounds.
  unfoldable pub ack_segments : ℕ → CtcpState → Run CtcpState
  ack_segments ackno st =
      ack_loop (length st.unacked_segs_with_info + length st.segs_to_send) ackno st
        st.unacked_segs_with_info

  -- The acknowledgement is sent, and the buffer's bytes `b` are given to `conn_output`.
  unfoldable pub flushed : CtcpState → List ℕ → CtcpState
  flushed st b =
      let acked = ctcp_send_non_data_segment pf.junk pf.pad st th_ack in
      record acked { output_buffer = no_buffer; output_len = 0; outputs = b ∷ acked.outputs }

  unfoldable pub flush : CtcpState → OutputBuffer → Run CtcpState
  flush st no_buffer = ok (flushed st [])
  flush st (held b) = ok (flushed st b)
  flush st freed = fault

  -- `bufspace` is what `conn_bufspace` returns.
  unfoldable pub ctcp_output : ℕ → CtcpState → Run CtcpState
  ctcp_output bufspace st = if leb st.output_len bufspace then flush st st.output_buffer else ok st

  -- The segment is freed at the end of the handler.
  abbrev released_buffer : OutputBuffer → OutputBuffer
  released_buffer no_buffer = no_buffer
  released_buffer (held b) = freed
  released_buffer freed = freed

  abbrev is_duplicate : CtcpState → CtcpSegment → Bool
  is_duplicate st seg = ltb seg.seqno st.prev_ackno

  -- The acknowledgement number that follows the segment. The difference can be negative.
  abbrev ackno_after : CtcpSegment → ℕ
  ackno_after seg = (seg.seqno + seg.len + 2 ^ 32 - ctcp_hdr_size) % 2 ^ 32

  unfoldable pub numbered : CtcpState → CtcpSegment → CtcpState
  numbered st seg = record st {
    curr_ackno = ackno_after seg;
    prev_ackno = if is_duplicate st seg then st.prev_ackno else ackno_after seg;
  }

  abbrev pub free_segment : CtcpState → CtcpState
  free_segment st = record st { output_buffer = released_buffer st.output_buffer }

  -- The end of the handler, from `int data_len` on.
  unfoldable pub take_data : ℕ → CtcpState → CtcpSegment → List ℕ → Run CtcpState
  take_data bufspace st seg beyond =
      if ltb ctcp_hdr_size seg.len && not (is_duplicate st seg)
      then ctcp_output bufspace (record (numbered st seg) {
        output_buffer = held (take (seg.len - ctcp_hdr_size) (seg.payload ++ beyond));
        output_len = seg.len - ctcp_hdr_size;
      })
        >>= (λ st'. ok (free_segment st'))
      else ok (numbered st seg)

  unfoldable pub take_ack : CtcpState → CtcpSegment → Run CtcpState
  take_ack st seg =
      if has_ack seg
      then if st.fin_flag && st.eof_flag then ctcp_destroy st else ack_segments seg.ackno st
      else ok st

  unfoldable pub take_fin : CtcpState → CtcpState
  take_fin st =
      let st' = ctcp_send_non_data_segment pf.junk pf.pad (record st { fin_flag = true }) th_ack in
      record st' { outputs = [] ∷ st'.outputs }

  -- `len` is the number of bytes that were received, `beyond` the memory behind them.
  unfoldable pub ctcp_receive : ℕ → CtcpState → CtcpSegment → ℕ → List ℕ → Run CtcpState
  ctcp_receive bufspace st seg len beyond =
      if ltb len seg.len
      then ok st
      else if not (seg.sum == received_cksum seg beyond)
      then ok st
      else if has_fin seg && not st.fin_flag
      then ok (take_fin st)
      else take_ack st seg >>= λ st'. take_data bufspace st' seg beyond
