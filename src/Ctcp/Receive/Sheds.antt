-- ===== src/Ctcp/Receive/Sheds.antt =====
-- What `ctcp_receive` does to the segments that a connection holds.
use mathlib.Core.Path.{subst}
use mini_internet_computer_n.Base.{sym, ◌∙◌, ℕ, ◌≡◌, refl, not, ◌&&◌, List, ltb, leb, ◌==◌}
use mini_internet_computer_n.Ctcp.Segment.{CtcpSegment, has_ack, has_fin, received_cksum}
use mini_internet_computer_n.Ctcp.State.{
  CtcpState, OutputBuffer, no_buffer, held, freed, exited, fault,
}
use mini_internet_computer_n.Ctcp.Window.{ctcp_send_non_data_segment}
use mini_internet_computer_n.Ctcp.Window.Order.{queue}
use mini_internet_computer_n.Ctcp.Numbers.{
  Drops, kept, OnOk, OnOk-bind, OnOk-map, OnOk-if, Sheds, Sheds-refl, ack_segments-Sheds,
}
use mini_internet_computer_n.Ctcp.Receive.{
  Platform, ctcp_destroy, ctcp_output, flush, flushed, numbered, take_data, take_ack, take_fin,
  ctcp_receive,
}

-- The queue loses at most segments below `k` at its front, nothing is numbered, and the end of the input stays.
abbrev pub Releases : ℕ → CtcpState → CtcpState → Type 0
Releases k st st' =
    Drops k (queue st) (queue st') × (st'.curr_seqno ≡ st.curr_seqno) × (st'.eof_flag ≡ st.eof_flag)

-- Queue and numbers stay the same, and so does the end of the input.
abbrev pub Steady : CtcpState → CtcpState → Type 0
Steady st st' =
    (queue st' ≡ queue st) × (st'.curr_seqno ≡ st.curr_seqno) × (st'.eof_flag ≡ st.eof_flag)

Releases-Sheds-Steady : (k : ℕ) (s t u : CtcpState) → Sheds k s t → Steady t u → Releases k s u
Releases-Sheds-Steady k s t u a b =
    (subst (Drops k (queue s)) (sym b.0) a.0, b.1 ∙ a.1.seqno, b.2 ∙ a.1.eof)

module _ (pf : Platform) where
  pub ctcp_destroy-OnOk : (P : CtcpState → Type 0) (st : CtcpState) → OnOk (ctcp_destroy pf st) P
  unfolding ctcp_destroy
  ctcp_destroy-OnOk P st = OnOk-if P pf.is_server fault exited tt tt

  flush-Steady : (st : CtcpState) (b : OutputBuffer) → OnOk (flush pf st b) (Steady st)
  unfolding flush flushed ctcp_send_non_data_segment
  flush-Steady st no_buffer = (refl, refl, refl)
  flush-Steady st (held b) = (refl, refl, refl)
  flush-Steady st freed = tt

  pub ctcp_output-Steady : (space : ℕ) (st : CtcpState) → OnOk (ctcp_output pf space st) (Steady st)
  unfolding ctcp_output
  ctcp_output-Steady space st =
      OnOk-if (Steady st) (leb st.output_len space) _ _ (flush-Steady st st.output_buffer)
        (refl, refl, refl)

  take_data-Steady :
      (space : ℕ) (st : CtcpState) (seg : CtcpSegment) (beyond : List ℕ)
      → OnOk (take_data pf space st seg beyond) (Steady st)
  unfolding take_data numbered
  take_data-Steady space st seg beyond =
      OnOk-if (Steady st) (ltb 20 seg.len && not (ltb seg.seqno st.prev_ackno)) _ _
        (OnOk-bind (Steady st) (Steady st) _ _ (ctcp_output-Steady space _) (λ st' h. h))
        (refl, refl, refl)

  take_ack-Sheds :
      (st : CtcpState) (seg : CtcpSegment) → OnOk (take_ack pf st seg) (Sheds seg.ackno st)
  unfolding take_ack
  take_ack-Sheds st seg =
      OnOk-if (Sheds seg.ackno st) (has_ack seg) _ _
        (OnOk-if (Sheds seg.ackno st) (st.fin_flag && st.eof_flag) _ _
          (ctcp_destroy-OnOk (Sheds seg.ackno st) st) (ack_segments-Sheds pf seg.ackno st))
        (Sheds-refl seg.ackno st)

  take_fin-Steady : (st : CtcpState) → Steady st (take_fin pf st)
  unfolding take_fin ctcp_send_non_data_segment
  take_fin-Steady st = (refl, refl, refl)

  -- A segment that arrives, whatever it holds, takes at most segments below its acknowledgement
  -- number from the front of the queue.
  pub ctcp_receive-Releases :
      (space : ℕ) (st : CtcpState) (seg : CtcpSegment) (len : ℕ) (beyond : List ℕ)
      → OnOk (ctcp_receive pf space st seg len beyond) (Releases seg.ackno st)
  unfolding ctcp_receive
  ctcp_receive-Releases space st seg len beyond =
      let R = Releases seg.ackno st in
      let same : R st = (kept (queue st), refl, refl) in
      OnOk-if R (ltb len seg.len) _ _ same (
        OnOk-if R (not (seg.sum == received_cksum seg beyond)) _ _ same (
          OnOk-if R (has_fin seg && not st.fin_flag) _ _
            (Releases-Sheds-Steady seg.ackno st st (take_fin pf st) (Sheds-refl seg.ackno st)
              (take_fin-Steady st))
            (OnOk-bind (Sheds seg.ackno st) R (take_ack pf st seg) _ (take_ack-Sheds st seg)
              (λ st' h.
                OnOk-map (Steady st') R (take_data pf space st' seg beyond)
                  (take_data-Steady space st' seg beyond)
                  (λ st'' g. Releases-Sheds-Steady seg.ackno st st' st'' h g)))))
