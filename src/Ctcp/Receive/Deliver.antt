-- ===== src/Ctcp/Receive/Deliver.antt =====
-- What a receiver of lab3/ctcp.c outputs.
use Prim.Native.Nat.{bit_or}
use mini_internet_computer_n.Base.{
  ℕ, zero, suc, ◌+◌, ◌-◌, ◌%◌, ◌^◌, ◌<◌, ◌≤◌, ◌≡◌, ◌≢◌, ◌⊎◌, refl, ap, ◌∙◌, true, false, not, ◌&&◌,
  inl, inr, Bool-cases, List, [], ◌∷◌, ◌++◌, ◌==◌, ==_iff, ltb, leb, lt→ltb, arith, length, take,
}
use mini_internet_computer_n.Ctcp.Segment.{
  CtcpSegment, has_ack, has_fin, ctcp_hdr_size, received_cksum, bare_segment, th_ack,
}
use mini_internet_computer_n.Ctcp.State.{CtcpState, held, freed, ok, ◌>>=◌}
use mini_internet_computer_n.Ctcp.Window.{ctcp_send_non_data_segment}
use mini_internet_computer_n.Ctcp.Receive.{
  Platform, ack_loop, ack_segments, ctcp_output, flush, flushed, numbered, take_data, take_ack,
  free_segment, ctcp_receive,
}

pub not_lt-ltb : (a b : ℕ) → b ≤ a → ltb a b ≡ false
not_lt-ltb a b h = ground arith

-- The segment is whole and its checksum is right.
pub record IsSound (seg : CtcpSegment) (len : ℕ) (beyond : List ℕ) : Type 0 where
  pub whole : seg.len ≤ len
  pub intact : seg.sum ≡ received_cksum seg beyond

-- A segment without data that acknowledges; the other bits of its flags are what its memory held.
pub record IsAck (s : CtcpSegment) (junk n k w : ℕ) : Type 0 where
  pub seqno : s.seqno ≡ n
  pub ackno : s.ackno ≡ k
  pub len : s.len ≡ 20
  pub flags : s.flags ≡ bit_or junk 16
  pub window : s.window ≡ w
  pub payload : s.payload ≡ []

module _ (pf : Platform) where
  ack_loop-nil : (f k : ℕ) (st : CtcpState) → ack_loop pf f k st [] ≡ ok st
  unfolding ack_loop
  ack_loop-nil zero k st = refl
  ack_loop-nil (suc f) k st = refl

  -- With nothing unacknowledged and an open end, an acknowledgement changes nothing.
  take_ack-none :
      (st : CtcpState) (seg : CtcpSegment)
      → st.unacked_segs_with_info ≡ []
      → (st.fin_flag && st.eof_flag) ≡ false
      → take_ack pf st seg ≡ ok st
  unfolding take_ack ack_segments
  take_ack-none st seg none open_end =
      let f = length st.unacked_segs_with_info + length st.segs_to_send in
      elim (Bool-cases (has_ack seg)) [
        | inl acks ↦
            rw (acks, open_end) (ap (ack_loop pf f seg.ackno st) none ∙ ack_loop-nil f seg.ackno st)
        | inr bare ↦ rw bare
      ]

  module _ (space : ℕ) (st : CtcpState) (seg : CtcpSegment) (len : ℕ) (beyond : List ℕ) where
    -- A segment that is cut short or corrupted changes nothing: nothing is output or acknowledged.
    pub receive_unsound :
        (len < seg.len) ⊎ (seg.sum ≢ received_cksum seg beyond)
        → ctcp_receive pf space st seg len beyond ≡ ok st
    unfolding ctcp_receive
    receive_unsound (inl short) = rw (lt→ltb len seg.len short)
    receive_unsound (inr corrupt) = ground arith

    receive_sound :
        IsSound seg len beyond
        → has_fin seg ≡ false
        → ctcp_receive pf space st seg len beyond
          ≡ (take_ack pf st seg >>= λ st'. take_data pf space st' seg beyond)
    unfolding ctcp_receive
    receive_sound sound ends =
        let intact : (seg.sum == received_cksum seg beyond) ≡ true = (==_iff _ _).1 sound.intact in
        let whole : ltb len seg.len ≡ false = not_lt-ltb len seg.len sound.whole in
        rw (whole, intact, ends) refl

    -- What the handler leaves of a segment with new data that there is space for.
    accepted : CtcpState
    accepted = free_segment pf (
        flushed pf
          (record (numbered pf st seg) {
            output_buffer = held (take (seg.len - ctcp_hdr_size) (seg.payload ++ beyond));
            output_len = seg.len - ctcp_hdr_size;
          })
          (take (seg.len - ctcp_hdr_size) (seg.payload ++ beyond)))

    take_data_new :
        20 < seg.len
        → st.prev_ackno ≤ seg.seqno
        → seg.len - 20 ≤ space
        → take_data pf space st seg beyond ≡ ok accepted
    unfolding take_data ctcp_output accepted flush
    take_data_new more new room =
        let guard : (ltb 20 seg.len && not (ltb seg.seqno st.prev_ackno)) ≡ true = ground arith in
        let fits : leb (seg.len - 20) space ≡ true = ground arith in rw guard (rw fits refl)

    take_data_old :
        seg.seqno < st.prev_ackno → take_data pf space st seg beyond ≡ ok (numbered pf st seg)
    unfolding take_data
    take_data_old old =
        let guard : (ltb 20 seg.len && not (ltb seg.seqno st.prev_ackno)) ≡ false = ground arith in
        rw guard

    module _ (sound : IsSound seg len beyond) (ends : has_fin seg ≡ false)
        (none : st.unacked_segs_with_info ≡ [])
        (open_end : (st.fin_flag && st.eof_flag) ≡ false) where
      receive_data : ctcp_receive pf space st seg len beyond ≡ take_data pf space st seg beyond
      receive_data =
          receive_sound sound ends
          ∙ ap (λ m. m >>= λ st'. take_data pf space st' seg beyond)
              (take_ack-none st seg none open_end)

      -- New data that there is space for is output. One acknowledgement is sent: a segment of 20
      -- bytes with the ACK flag, the connection's own number and the number behind the data. The
      -- numbers below that count as received, also where data before it is missing.
      pub receive_new :
          20 < seg.len
          → st.prev_ackno ≤ seg.seqno
          → seg.len - 20 ≤ space
          → (st' : CtcpState) × (ctcp_receive pf space st seg len beyond ≡ ok st')
            × (st'.outputs ≡ take (seg.len - 20) (seg.payload ++ beyond) ∷ st.outputs)
            × (s : CtcpSegment) × (st'.sent ≡ s ∷ st.sent)
            × IsAck s pf.junk st.curr_seqno
                ((seg.seqno + (seg.len - 20)) % 2 ^ 32)
                st.connect_config.recv_window
            × (st'.prev_ackno ≡ (seg.seqno + (seg.len - 20)) % 2 ^ 32)
            × (st'.unacked_segs_with_info ≡ st.unacked_segs_with_info)
            × (st'.fin_flag ≡ st.fin_flag)
      unfolding accepted flushed ctcp_send_non_data_segment numbered bare_segment
      receive_new more new room =
          let sum : (seg.seqno + seg.len + 2 ^ 32 - 20) % 2 ^ 32
              ≡ (seg.seqno + (seg.len - 20)) % 2 ^ 32 =
            omega arith in
          let next : ltb seg.seqno st.prev_ackno ≡ false = not_lt-ltb seg.seqno st.prev_ackno new in
          (
            accepted,
            receive_data ∙ take_data_new more new room,
            refl,
            bare_segment pf.junk pf.pad st.curr_seqno ((seg.seqno + (seg.len - 20)) % 2 ^ 32)
                st.connect_config.recv_window th_ack,
            ap
                (λ (a : ℕ).
                  bare_segment pf.junk pf.pad st.curr_seqno a st.connect_config.recv_window th_ack
                  ∷ st.sent)
                sum,
            record {
              seqno = refl;
              ackno = refl;
              len = refl;
              flags = refl;
              window = refl;
              payload = refl;
            },
            rw next sum,
            refl,
            refl,
          )

      -- Data that came before is neither output nor acknowledged again, but the next acknowledgement
      -- number falls back to its end.
      pub receive_duplicate :
          seg.seqno < st.prev_ackno
          → (st' : CtcpState) × (ctcp_receive pf space st seg len beyond ≡ ok st')
            × (st'.outputs ≡ st.outputs)
            × (st'.sent ≡ st.sent)
            × (st'.prev_ackno ≡ st.prev_ackno)
            × (st'.curr_ackno ≡ (seg.seqno + seg.len + 2 ^ 32 - 20) % 2 ^ 32)
            × (st'.unacked_segs_with_info ≡ st.unacked_segs_with_info)
            × (st'.fin_flag ≡ st.fin_flag)
      unfolding numbered
      receive_duplicate old = (
        numbered pf st seg,
        receive_data ∙ take_data_old old,
        refl,
        refl,
        rw (lt→ltb seg.seqno st.prev_ackno old),
        refl,
        refl,
        refl,
      )

      -- New data that there is no space for is lost: its buffer is freed and nothing is acknowledged,
      -- but the data counts as received, so that its retransmission is a duplicate.
      receive_no_space :
          20 < seg.len
          → st.prev_ackno ≤ seg.seqno
          → space < seg.len - 20
          → (st' : CtcpState) × (ctcp_receive pf space st seg len beyond ≡ ok st')
            × (st'.outputs ≡ st.outputs)
            × (st'.sent ≡ st.sent)
            × (st'.output_buffer ≡ freed)
            × (st'.prev_ackno ≡ (seg.seqno + (seg.len - 20)) % 2 ^ 32)
      unfolding ctcp_output numbered take_data
      receive_no_space more new full =
          let guard : (ltb 20 seg.len && not (ltb seg.seqno st.prev_ackno)) ≡ true = ground arith in
          let fits : leb (seg.len - 20) space ≡ false = ground arith in
          let next : ltb seg.seqno st.prev_ackno ≡ false = not_lt-ltb seg.seqno st.prev_ackno new in
          (
            free_segment pf (record (numbered pf st seg) {
              output_buffer = held (take (seg.len - ctcp_hdr_size) (seg.payload ++ beyond));
              output_len = seg.len - ctcp_hdr_size;
            }),
            receive_data ∙ rw guard (rw fits refl),
            refl,
            refl,
            refl,
            rw next (omega arith),
          )
