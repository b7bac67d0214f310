-- ===== src/Ctcp/MainLoop/Arrival.antt =====
-- What a round of the main loop makes of a segment that the other end has sent.
use mini_internet_computer_n.Base.{
  ℕ, ◌+◌, ◌-◌, ◌%◌, ◌^◌, ◌<◌, ◌≤◌, ◌≡◌, ap, sym, ◌∙◌, Bool, true, false, some, List, ◌∷◌, ◌++◌,
  arith, lt→ltb, take, take_all, length, length-take,
}
use mini_internet_computer_n.Ctcp.Segment.{CtcpSegment}
use mini_internet_computer_n.Ctcp.State.{ok, fault, ◌>>=◌}
use mini_internet_computer_n.Ctcp.Receive.{Platform}
use mini_internet_computer_n.Ctcp.Receive.Cksum.{take-length_append}
use mini_internet_computer_n.Ctcp.Receive.Deliver.{not_lt-ltb}
use mini_internet_computer_n.Ctcp.Datagram.{
  Datagram, Peer, Host, filled, create_datagram, convert_to_datagram, convert_to_ctcp, extracted,
  cksum_tcp, put_tcp_hdr,
}
use mini_internet_computer_n.Ctcp.Datagram.RoundTrip.{IsPlain, convert_to_ctcp-datagram}
use mini_internet_computer_n.Ctcp.Connect.{packet, belongs}
use mini_internet_computer_n.Ctcp.Connect.Filter.{belongs_own}
use mini_internet_computer_n.Ctcp.Connect.Delivery.{
  AreEnds, IsOrdinary, sent_port, sent_no_rst, sent_no_syn,
}
use mini_internet_computer_n.Ctcp.MainLoop.{
  Entry, Library, Poll, in_memory, first_ack, overreads, receive_on, handle_packet,
}
use mini_internet_computer_n.Ctcp.MainLoop.Routing.{
  NoneTakes, kept_of, packet_routed, packet_overreads,
}
use mini_internet_computer_n.Ctcp.Connect.{Remote}

-- Only the bytes that the header counts matter.
convert_to_ctcp-payload :
    (src : Peer) (d : Datagram) (q : List ℕ)
    → take ((d.tot_len + 65536 - 40) % 65536) q ≡ take ((d.tot_len + 65536 - 40) % 65536) d.payload
    → convert_to_ctcp src (record d { payload = q }) ≡ convert_to_ctcp src d
unfolding convert_to_ctcp extracted cksum_tcp put_tcp_hdr
convert_to_ctcp-payload src d q h = rw h

take-le {ℓ} : {A : Type ℓ} (n : ℕ) (l : List A) → length (take n l) ≤ n
take-le n l = omega (arith, length-take n l)

module _ (pf : Platform) (host host' : Host) (unix_socket run_program : Bool) (dst : Remote)
    (seg : CtcpSegment) (poll : Poll) (now : ℕ) (lib : Library) (e : Entry) (pre post : List Entry)
    (ends : AreEnds host host' dst e.remote) (plain : IsPlain seg) (ordinary : IsOrdinary seg)
    (seq : dst.peer.init_seqno + seg.seqno < 2 ^ 32)
    (ack : dst.peer.their_init_seqno + seg.ackno < 2 ^ 32)
    (listed : lib.connections ≡ pre ++ e ∷ post)
    (others : NoneTakes unix_socket
      (kept_of (convert_to_datagram host dst.peer seg seg.len))
      pre) where
  abbrev sent : Datagram
  sent = convert_to_datagram host dst.peer seg seg.len

  sent_own : belongs unix_socket (kept_of sent) e.remote ≡ true
  unfolding convert_to_datagram filled create_datagram
  sent_own =
      let forth = ends.forth in
      let back = ends.back in
      belongs_own unix_socket (kept_of sent) e.remote ends.from_port ends.from_addr (omega arith)
        (omega arith)

  sent_bytes : sent.payload ≡ seg.payload
  unfolding convert_to_datagram filled
  sent_bytes =
      let counted = plain.counted in
      let fits = plain.len_fits in take_all _ seg.payload (omega arith)

  sent_size : (sent.tot_len + 65536 - 40) % 65536 ≡ length seg.payload
  unfolding convert_to_datagram filled create_datagram
  sent_size = let counted = plain.counted in let fits = plain.len_fits in omega arith

  same_segment :
      length seg.payload ≤ 1440
      → convert_to_ctcp e.remote.peer (in_memory poll (kept_of sent)) ≡ seg
  same_segment short =
      let n : (sent.tot_len + 65536 - 40) % 65536 ≡ length sent.payload =
        sent_size ∙ sym (ap length sent_bytes) in
      let bound : length sent.payload ≤ 1440 = omega (arith, ap length sent_bytes) in
      convert_to_ctcp-payload e.remote.peer sent _ (
        ap (λ l. take ((sent.tot_len + 65536 - 40) % 65536) (l ++ poll.stale))
          (take_all 1440 sent.payload bound)
        ∙ ap (λ (k : ℕ). take k (sent.payload ++ poll.stale)) n
        ∙ take-length_append sent.payload poll.stale
        ∙ sym (take_all _ sent.payload (omega (arith, n))))
      ∙ convert_to_ctcp-datagram host dst.peer e.remote.peer seg plain ends.local_net ends.forth
          ends.back ends.init_fits ends.their_fits

  fits_buffer : length seg.payload ≤ 1440 → overreads (kept_of sent) ≡ false
  unfolding overreads
  fits_buffer short =
      let fits : (sent.tot_len + 65536 - 40) % 65536 ≤ 1440 = omega (arith, sent_size) in
      not_lt-ltb 1440 ((sent.tot_len + 65536 - 40) % 65536) fits

  routed :
      length seg.payload ≤ 1440
      → first_ack lib.new_connection
          (kept_of sent)
          (convert_to_ctcp e.remote.peer (in_memory poll (kept_of sent)))
        ≡ false
      → handle_packet pf host' unix_socket run_program poll now lib (some (packet sent)) ≡ (
          receive_on pf host' unix_socket run_program poll
            (convert_to_ctcp e.remote.peer (in_memory poll (kept_of sent)))
            (20 + length (take 1440 sent.payload))
            e
          >>= λ e'. ok (record lib { connections = pre ++ e' ∷ post }))
  routed short later =
      packet_routed pf host' unix_socket run_program poll now sent
        (sent_port host host' unix_socket dst e.remote seg ends plain ordinary)
        (sent_no_rst host host' unix_socket dst e.remote seg ends plain ordinary)
        (sent_no_syn host host' unix_socket dst e.remote seg ends plain ordinary) lib e pre post
        listed others sent_own (fits_buffer short) later

  -- A segment with at most 1440 bytes of data that one end of a connection converts and sends reaches,
  -- unchanged and with its length, the receiving handler of the other end's connection, wherever
  -- that stands in the list behind connections that do not take the packet, and no other connection
  -- changes; it is an ordinary one whose fields fit, it does not end a handshake, and the sender's
  -- numbers have not wrapped around.
  pub segment_arrives :
      length seg.payload ≤ 1440
      → first_ack lib.new_connection sent seg ≡ false
      → handle_packet pf host' unix_socket run_program poll now lib (some (packet sent)) ≡ (
          receive_on pf host' unix_socket run_program poll seg seg.len e >>= λ e'.
          ok (record lib { connections = pre ++ e' ∷ post }))
  unfolding first_ack
  segment_arrives short later =
      let same = same_segment short in
      let counted = plain.counted in
      let n : 20 + length (take 1440 sent.payload) ≡ seg.len = omega (
        arith,
        ap length (take_all 1440 seg.payload short),
        ap (λ l. length (take 1440 l)) sent_bytes,
      ) in
      routed short (ap (first_ack lib.new_connection (kept_of sent)) same ∙ later)
      ∙ ap
          (λ (s : CtcpSegment).
            receive_on pf host' unix_socket run_program poll s
              (20 + length (take 1440 sent.payload)) e
            >>= λ e'. ok (record lib { connections = pre ++ e' ∷ post }))
          same
      ∙ ap
          (λ (k : ℕ). receive_on pf host' unix_socket run_program poll seg k e >>= λ e'.
            ok (record lib { connections = pre ++ e' ∷ post }))
          n

  -- Under the same conditions a segment with more than 1440 bytes of data makes the receiver's host
  -- read behind the buffer that the packet is received into: the behaviour is undefined.
  pub long_segment_overreads :
      1440 < length seg.payload
      → handle_packet pf host' unix_socket run_program poll now lib (some (packet sent)) ≡ fault
  unfolding overreads
  long_segment_overreads long =
      packet_overreads pf host' unix_socket run_program poll now sent
        (sent_port host host' unix_socket dst e.remote seg ends plain ordinary)
        (sent_no_rst host host' unix_socket dst e.remote seg ends plain ordinary)
        (sent_no_syn host host' unix_socket dst e.remote seg ends plain ordinary) lib e pre post
        listed others sent_own (lt→ltb _ _ (omega (arith, sent_size)))
