-- ===== src/Ctcp/Window/Order.antt =====
-- What sending leaves alone: the order of the segments, and their contents.
use mathlib.Core.List.{map, append_assoc, map-append}
use mini_internet_computer_n.Base.{
  ℕ, ◌+◌, ◌%◌, ◌≡◌, refl, ap, ◌∙◌, sym, inl, inr, Bool-cases, List, [], ◌∷◌, ◌++◌, arith, length,
  ltb,
}
use mini_internet_computer_n.Ctcp.Segment.{CtcpSegment}
use mini_internet_computer_n.Ctcp.State.{SegmentInfo, CtcpState, Floats}
use mini_internet_computer_n.Ctcp.Window.{
  ctcp_send_sliding_window, slide, slid, send_slid, send_unsent, send_segment, marked, is_full,
  is_starved,
}

-- The segments that the connection still holds: unacknowledged ones, then those not yet in the window.
abbrev pub segments : List SegmentInfo → List CtcpSegment
segments = map (λ i. i.curr_ctcp_segment)

abbrev pub queue : CtcpState → List CtcpSegment
queue st = segments st.unacked_segs_with_info ++ segments st.segs_to_send

abbrev pub total : CtcpState → ℕ
total st = length st.unacked_segs_with_info + length st.segs_to_send

slide-keeps :
    (bound : ℕ) (unacked : List SegmentInfo) (size : ℕ) (l : List SegmentInfo)
    → (slide bound unacked size l).unacked ++ (slide bound unacked size l).to_send ≡ unacked ++ l
unfolding slide
slide-keeps bound unacked size [] = refl
slide-keeps bound unacked size (i ∷ is) = elim (Bool-cases (ltb size bound)) [
  | inl fits ↦ rw fits (
      slide-keeps bound (unacked ++ (i ∷ [])) ((size + i.curr_ctcp_segment.len) % 65536) is
      ∙ append_assoc unacked (i ∷ []) is)
  | inr full ↦ rw full
]

slid-queue : (st : CtcpState) → queue (slid st) ≡ queue st
unfolding slid
slid-queue st =
    let s =
      slide st.connect_config.send_window st.unacked_segs_with_info st.curr_window_size
        st.segs_to_send in
    sym (map-append (λ i. i.curr_ctcp_segment) s.unacked s.to_send)
    ∙ ap segments (
        slide-keeps st.connect_config.send_window st.unacked_segs_with_info st.curr_window_size
          st.segs_to_send)
    ∙ map-append (λ i. i.curr_ctcp_segment) st.unacked_segs_with_info st.segs_to_send

module _ (fl : Floats) where
  send_unsent-segments :
      (st : CtcpState) (l : List SegmentInfo) → segments (send_unsent fl st l).1 ≡ segments l
  unfolding send_unsent marked
  send_unsent-segments st [] = refl
  send_unsent-segments st (i ∷ is) = elim (Bool-cases i.is_in_flight) [
    | inl old ↦
        rw (old, send_unsent) (ap (λ r. i.curr_ctcp_segment ∷ r) (send_unsent-segments st is))
    | inr new ↦
        rw (new, send_unsent)
          (ap (λ r. i.curr_ctcp_segment ∷ r)
            (send_unsent-segments (send_segment fl st i.curr_ctcp_segment) is))
  ]

  send_unsent-to_send :
      (st : CtcpState) (l : List SegmentInfo)
      → (send_unsent fl st l).0.segs_to_send ≡ st.segs_to_send
  unfolding send_unsent send_segment
  send_unsent-to_send st [] = refl
  send_unsent-to_send st (i ∷ is) = ground (
    arith,
    send_unsent-to_send st is,
    send_unsent-to_send (send_segment fl st i.curr_ctcp_segment) is,
  )

  send_slid-queue : (st : CtcpState) → queue (send_slid fl st) ≡ queue st
  unfolding send_slid
  send_slid-queue st =
      let same = send_unsent-segments st st.unacked_segs_with_info in
      let kept = send_unsent-to_send st st.unacked_segs_with_info in
      elim (Bool-cases (is_full fl st)) [
        | inl full ↦ rw full
        | inr free ↦ elim (Bool-cases (is_starved fl st)) [
          | inl starved ↦ rw (free, starved)
          | inr fed ↦ rw (free, fed) (rw (same, kept) refl)
        ]
      ]

  -- Filling the window and sending it keeps the segments and their order: each leaves the front of
  -- one list for the end of the other.
  pub ctcp_send_sliding_window-queue :
      (st : CtcpState) → queue (ctcp_send_sliding_window fl st) ≡ queue st
  unfolding ctcp_send_sliding_window
  ctcp_send_sliding_window-queue st = send_slid-queue (slid st) ∙ slid-queue st
