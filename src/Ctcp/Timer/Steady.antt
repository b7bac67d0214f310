-- ===== src/Ctcp/Timer/Steady.antt =====
-- What `ctcp_timer` and `ctcp_read` do to the segments that a connection holds.
use mathlib.Core.Path.{subst}
use mathlib.Core.List.{map, append_assoc, append-nil, map-append}
use mini_internet_computer_n.Base.{
  ◌&&◌, length, ℕ, ◌-◌, ◌*◌, ◌≡◌, refl, ap, sym, ◌∙◌, inl, inr, Bool, true, false, Bool-cases, List,
  [], ◌∷◌, ◌++◌, arith, ltb, leb, ◌==◌, if◌then◌else◌,
}
use mini_internet_computer_n.Ctcp.Segment.{CtcpSegment, data_segment}
use mini_internet_computer_n.Ctcp.State.{SegmentInfo, CtcpState, ok, ◌>>=◌}
use mini_internet_computer_n.Ctcp.Window.{
  ctcp_prep_data_segment, ctcp_send_sliding_window, ctcp_send_non_data_segment,
}
use mini_internet_computer_n.Ctcp.Window.Order.{queue, segments, ctcp_send_sliding_window-queue}
use mini_internet_computer_n.Ctcp.Window.Frame.{ctcp_send_sliding_window-Untouched}
use mini_internet_computer_n.Ctcp.Numbers.{
  Numbered, Numbered-append, OnOk, OnOk-bind, OnOk-map, OnOk-if,
}
use mini_internet_computer_n.Ctcp.Receive.{Platform, ctcp_destroy}
use mini_internet_computer_n.Ctcp.Receive.Sheds.{Steady, ctcp_destroy-OnOk}
use mini_internet_computer_n.Ctcp.Timer.{
  filter_elapsed, filter_expired, is_overdue, retransmit, max_num_retransmit, resent_info,
  resent_state, retransmit_loop, is_closed, teardown, timer_round, read_loop, end_input, ctcp_read,
}

filter-Steady : (st : CtcpState) → Steady st (filter_expired (filter_elapsed st))
unfolding filter_expired filter_elapsed
filter-Steady st = ground arith

-- The segments are those of `l`, and the state is steady but for them.
abbrev Resends : CtcpState → List SegmentInfo → CtcpState × List SegmentInfo → Type 0
Resends st l r =
    (segments r.1 ≡ segments l)
    × (r.0.segs_to_send ≡ st.segs_to_send)
    × (r.0.curr_seqno ≡ st.curr_seqno)
    × (r.0.eof_flag ≡ st.eof_flag)

resent-Resends :
    (st : CtcpState) (i : SegmentInfo) (is : List SegmentInfo) (r : CtcpState × List SegmentInfo)
    → Resends (resent_state st i) is r
    → Resends st (i ∷ is) (r.0, resent_info st i ∷ r.1)
unfolding resent_state resent_info retransmit
resent-Resends st i is r h = elim (Bool-cases (is_overdue st i)) [
  | inl late ↦
      rw late (ap (λ q. i.curr_ctcp_segment ∷ q) h.0, ground arith, ground arith, ground arith)
  | inr timely ↦
      rw timely (ap (λ q. i.curr_ctcp_segment ∷ q) h.0, ground arith, ground arith, ground arith)
]

module _ (pf : Platform) where
  retransmit_loop-Resends :
      (st : CtcpState) (l : List SegmentInfo) → OnOk (retransmit_loop pf st l) (Resends st l)
  unfolding retransmit_loop retransmit
  retransmit_loop-Resends st [] = (refl, refl, refl, refl)
  retransmit_loop-Resends st (i ∷ is) =
      OnOk-if (Resends st (i ∷ is)) (leb max_num_retransmit (resent_info st i).curr_num_retransmit)
        (ctcp_destroy pf (resent_state st i) >>= λ st''. ok (st'', resent_info st i ∷ is)) _
        (OnOk-bind (λ st'. ⊥) (Resends st (i ∷ is)) _ _
          (ctcp_destroy-OnOk pf (λ st'. ⊥) (resent_state st i)) (λ st' h. absurd h))
        (OnOk-bind (Resends (resent_state st i) is) (Resends st (i ∷ is)) _ _
          (retransmit_loop-Resends (resent_state st i) is) (λ r h. resent-Resends st i is r h))

  teardown-Steady : (st : CtcpState) → OnOk (teardown pf st) (Steady st)
  unfolding teardown
  teardown-Steady st =
      OnOk-if (Steady st) (is_closed pf st) _ _
        (OnOk-if (Steady st) (st.final_packet_time == 0) _ _ (refl, refl, refl)
          (OnOk-if (Steady st)
            (ltb (2 * st.connect_config.rt_timeout) (st.clock - st.final_packet_time)) _ (ok st)
            (ctcp_destroy-OnOk pf (Steady st) st) (refl, refl, refl)))
        (refl, refl, refl)

  -- A round of the timer keeps the segments and their order.
  pub timer_round-Steady : (st : CtcpState) → OnOk (timer_round pf st) (Steady st)
  unfolding timer_round
  timer_round-Steady st =
      let f = filter_expired (filter_elapsed st) in
      OnOk-bind (Resends f f.unacked_segs_with_info) (Steady st) _ _
        (retransmit_loop-Resends f f.unacked_segs_with_info)
        (λ r h.
          let st' = record (r.0) { unacked_segs_with_info = r.1 } in
          OnOk-map (Steady st') (Steady st) _ (teardown-Steady st') (λ st'' g.
            let s = filter-Steady st in
            (g.0 ∙ rw (h.0, h.1) refl ∙ s.0, g.1 ∙ h.2 ∙ s.1, g.2 ∙ h.3 ∙ s.2)))

-- The segments are as `ctcp_prep_data_segment` makes them.
abbrev pub AllData : List CtcpSegment → Type 0
AllData [] = Unit
AllData (s ∷ q) = (s ≡ data_segment s.seqno s.ackno s.window s.payload) × AllData q

AllData-append : (q r : List CtcpSegment) → AllData q → AllData r → AllData (q ++ r)
AllData-append [] r h g = g
AllData-append (s ∷ q) r h g = (h.0, AllData-append q r h.1 g)

-- Queue and numbers stay the same.
abbrev Level : CtcpState → CtcpState → Type 0
Level st st' = (queue st' ≡ queue st) × (st'.curr_seqno ≡ st.curr_seqno)

-- The data segments `q` with the payloads `ds`, numbered one after another, are added to the queue.
abbrev pub Extends : CtcpState → List (List ℕ) → CtcpState → Type 0
Extends st ds st' =
    (q : List CtcpSegment) × (queue st' ≡ queue st ++ q)
    × (map (λ (s : CtcpSegment). s.payload) q ≡ ds)
    × Numbered st.curr_seqno q st'.curr_seqno
    × AllData q

Extends-Level :
    (s t u : CtcpState) (ds : List (List ℕ)) → Extends s ds t → Level t u → Extends s ds u
Extends-Level s t u ds (q, e, d, n, w) h =
    (q, h.0 ∙ e, d, subst (λ b. Numbered s.curr_seqno q b) (sym h.1) n, w)

Extends-trans :
    (s t u : CtcpState) (ds es : List (List ℕ))
    → Extends s ds t
    → Extends t es u
    → Extends s (ds ++ es) u
Extends-trans s t u ds es (q, e, d, n, w) (r, f, g, m, v) = (
  q ++ r,
  f ∙ ap (λ l. l ++ r) e ∙ append_assoc (queue s) q r,
  map-append (λ (i : CtcpSegment). i.payload) q r ∙ rw (d, g) refl,
  Numbered-append s.curr_seqno t.curr_seqno u.curr_seqno q r n m,
  AllData-append q r w v,
)

prep-Extends : (st : CtcpState) (d : List ℕ) → Extends st (d ∷ []) (ctcp_prep_data_segment st d)
unfolding ctcp_prep_data_segment data_segment
prep-Extends st d =
    let s = data_segment st.curr_seqno st.curr_ackno st.connect_config.recv_window d in
    (
      s ∷ [],
      ap (λ r. segments st.unacked_segs_with_info ++ r)
            (map-append (λ i. i.curr_ctcp_segment) st.segs_to_send _)
          ∙ sym (
              append_assoc (segments st.unacked_segs_with_info) (segments st.segs_to_send)
                (s ∷ [])),
      refl,
      (refl, refl),
      (refl, tt),
    )

module _ (pf : Platform) where
  send-Level : (st : CtcpState) → Level st (ctcp_send_sliding_window pf.floats st)
  send-Level st = (
    ctcp_send_sliding_window-queue pf.floats st,
    ground (arith, ctcp_send_sliding_window-Untouched pf.floats st),
  )

  read_loop-Extends : (st : CtcpState) (ds : List (List ℕ)) → Extends st ds (read_loop pf st ds)
  unfolding read_loop
  read_loop-Extends st [] = ([], sym (append-nil (queue st)), refl, refl, tt)
  read_loop-Extends st (d ∷ ds) =
      let st' = ctcp_prep_data_segment st d in
      let st'' = ctcp_send_sliding_window pf.floats st' in
      Extends-trans st st'' (read_loop pf st'' ds) (d ∷ []) ds
        (Extends-Level st st' st'' (d ∷ []) (prep-Extends st d) (send-Level st'))
        (read_loop-Extends st'' ds)

  end_input-Level : (ends : Bool) (st : CtcpState) → Level st (end_input pf ends st)
  unfolding end_input ctcp_send_non_data_segment
  end_input-Level ends st = ground arith

  read_loop-eof :
      (st : CtcpState) (ds : List (List ℕ)) → (read_loop pf st ds).eof_flag ≡ st.eof_flag
  unfolding read_loop ctcp_prep_data_segment
  read_loop-eof st [] = refl
  read_loop-eof st (d ∷ ds) =
      let st' = ctcp_prep_data_segment st d in
      read_loop-eof (ctcp_send_sliding_window pf.floats st') ds
      ∙ (ctcp_send_sliding_window-Untouched pf.floats st').eof

  end_input-eof :
      (ends : Bool) (st : CtcpState)
      → st.eof_flag ≡ false
      → (end_input pf ends st).eof_flag ≡ (ends && length st.segs_to_send == 0)
  unfolding end_input ctcp_send_non_data_segment
  end_input-eof ends st unended = elim (Bool-cases (ends && length st.segs_to_send == 0)) [
    | inl over ↦ ground arith
    | inr on ↦ ground arith
  ]

  -- The input ends only with a call that is told so.
  pub ctcp_read-eof :
      (st : CtcpState) (pieces : List (List ℕ)) (ends : Bool)
      → st.eof_flag ≡ false
      → (b : Bool) × ((ctcp_read pf st pieces ends).eof_flag ≡ (ends && b))
  unfolding ctcp_read
  ctcp_read-eof st pieces ends unended =
      let st' = read_loop pf st pieces in
      (
        length st'.segs_to_send == 0,
        ap (λ (b : Bool). (if b then st else end_input pf ends st').eof_flag) unended
            ∙ end_input-eof ends st' (read_loop-eof st pieces ∙ unended),
      )

  -- Reading adds the pieces of input to the end of the queue, unless the input has ended before.
  pub ctcp_read-Extends :
      (st : CtcpState) (pieces : List (List ℕ)) (ends : Bool)
      → Extends st (if st.eof_flag then [] else pieces) (ctcp_read pf st pieces ends)
  unfolding ctcp_read
  ctcp_read-Extends st pieces ends =
      let st' = read_loop pf st pieces in
      choose st.eof_flag st (end_input pf ends st') pieces (
        Extends-Level st st' (end_input pf ends st') pieces (read_loop-Extends st pieces)
          (end_input-Level ends st'))
    where
      choose :
          (b : Bool) (s t : CtcpState) (ds : List (List ℕ))
          → Extends s ds t
          → Extends s (if b then [] else ds) (if b then s else t)
      choose true s t ds h = ([], sym (append-nil (queue s)), refl, refl, tt)
      choose false s t ds h = h
