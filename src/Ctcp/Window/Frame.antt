-- ===== src/Ctcp/Window/Frame.antt =====
-- The fields of a connection that sending does not touch. An acknowledgement leaves them alone, too.
use mini_internet_computer_n.Base.{◌≡◌, inl, inr, Bool-cases, List, [], ◌∷◌, arith}
use mini_internet_computer_n.Ctcp.Segment.{CtcpSegment}
use mini_internet_computer_n.Ctcp.State.{SegmentInfo, CtcpState, Floats}
use mini_internet_computer_n.Ctcp.Window.{
  ctcp_send_sliding_window, slid, send_slid, send_unsent, send_segment,
}

pub record Untouched (s t : CtcpState) : Type 0 where
  pub seqno : t.curr_seqno ≡ s.curr_seqno
  pub ackno : t.curr_ackno ≡ s.curr_ackno
  pub prev : t.prev_ackno ≡ s.prev_ackno
  pub eof : t.eof_flag ≡ s.eof_flag
  pub fin : t.fin_flag ≡ s.fin_flag
  pub buffer : t.output_buffer ≡ s.output_buffer
  pub buffered : t.output_len ≡ s.output_len
  pub output : t.outputs ≡ s.outputs
  pub final : t.final_packet_time ≡ s.final_packet_time

pub Untouched-trans : (s t u : CtcpState) → Untouched s t → Untouched t u → Untouched s u
Untouched-trans s t u a b = ground arith

pub Untouched-refl : (s : CtcpState) → Untouched s s
Untouched-refl s = ground arith

module _ (fl : Floats) where
  send_segment-Untouched : (st : CtcpState) (s : CtcpSegment) → Untouched st (send_segment fl st s)
  unfolding send_segment
  send_segment-Untouched st s = ground arith

  send_unsent-Untouched :
      (st : CtcpState) (l : List SegmentInfo) → Untouched st (send_unsent fl st l).0
  unfolding send_unsent
  send_unsent-Untouched st [] = Untouched-refl st
  send_unsent-Untouched st (i ∷ is) = elim (Bool-cases i.is_in_flight) [
    | inl old ↦ rw (old, send_unsent) (send_unsent-Untouched st is)
    | inr new ↦
        let st' = send_segment fl st i.curr_ctcp_segment in
        rw (new, send_unsent)
          (Untouched-trans st st' (send_unsent fl st' is).0
            (send_segment-Untouched st i.curr_ctcp_segment) (send_unsent-Untouched st' is))
  ]

  send_slid-Untouched : (st : CtcpState) → Untouched st (send_slid fl st)
  unfolding send_slid
  send_slid-Untouched st = ground (arith, send_unsent-Untouched st st.unacked_segs_with_info)

  slid-Untouched : (st : CtcpState) → Untouched st (slid st)
  unfolding slid
  slid-Untouched st = ground arith

  pub ctcp_send_sliding_window-Untouched :
      (st : CtcpState) → Untouched st (ctcp_send_sliding_window fl st)
  unfolding ctcp_send_sliding_window
  ctcp_send_sliding_window-Untouched st =
      Untouched-trans st (slid st) (send_slid fl (slid st)) (slid-Untouched st)
        (send_slid-Untouched (slid st))
