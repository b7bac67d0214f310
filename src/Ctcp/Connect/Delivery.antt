-- ===== src/Ctcp/Connect/Delivery.antt =====
-- A segment on its way from one end of a connection to the other.
use Prim.Native.Nat.{bit_or}
use mini_internet_computer_n.Base.{
  ℕ, ◌+◌, ◌/◌, ◌%◌, ◌^◌, ◌<◌, ◌≤◌, ◌≡◌, ap, ◌∙◌, Bool, false, some, List, [], ◌∷◌, arith, ◌==◌,
  if◌then◌else◌,
}
use mini_internet_computer_n.Ctcp.Segment.{CtcpSegment}
use mini_internet_computer_n.Ctcp.Datagram.{
  Datagram, Host, create_datagram, filled, convert_to_datagram, convert_to_ctcp,
}
use mini_internet_computer_n.Ctcp.Datagram.RoundTrip.{IsPlain, convert_to_ctcp-datagram}
use mini_internet_computer_n.Ctcp.Connect.{
  Remote, has_syn, has_rst, packet, dropped, taken, find_conn, established, recv_filter,
}
use mini_internet_computer_n.Ctcp.Connect.Filter.{recv_own, recv_found, belongs_below}

-- `host` sees the connection as `dst`, the host `host'` at the other end as `src`.
pub record AreEnds (host host' : Host) (dst src : Remote) : Type 0 where
  pub local_net : host.web ≡ false
  pub forth : src.peer.their_init_seqno ≡ dst.peer.init_seqno
  pub back : src.peer.init_seqno ≡ dst.peer.their_init_seqno
  pub init_fits : dst.peer.init_seqno < 2 ^ 32
  pub their_fits : dst.peer.their_init_seqno < 2 ^ 32
  pub from_port : src.peer.port ≡ host.port % 65536
  pub to_port : dst.peer.port % 65536 ≡ host'.port % 65536
  pub from_addr : src.peer.ip_addr ≡ host.ip_addr

-- Neither SYN nor RST is set.
pub record IsOrdinary (seg : CtcpSegment) : Type 0 where
  pub no_syn : (seg.flags / 2 % 2 == 1) ≡ false
  pub no_rst : (seg.flags / 4 % 2 == 1) ≡ false

module _ (host host' : Host) (unix_socket : Bool) (dst src : Remote) (seg : CtcpSegment)
    (ends : AreEnds host host' dst src) (plain : IsPlain seg) (ordinary : IsOrdinary seg) where
  abbrev sent : Datagram
  sent = convert_to_datagram host dst.peer seg seg.len

  sent_flags : sent.th_flags ≡ seg.flags
  unfolding convert_to_datagram filled
  sent_flags =
      ap (λ b. if b then bit_or (seg.flags % 256) 16 else seg.flags % 256) ends.local_net
      ∙ (let fit = plain.flags_fit in omega arith)

  pub sent_port : sent.th_dport ≡ host'.port % 65536
  unfolding convert_to_datagram filled
  sent_port = ends.to_port

  pub sent_no_rst : has_rst sent.th_flags ≡ false
  sent_no_rst = ap has_rst sent_flags ∙ ordinary.no_rst

  pub sent_no_syn : has_syn sent ≡ false
  sent_no_syn = ap (λ (n : ℕ). n / 2 % 2 == 1) sent_flags ∙ ordinary.no_syn

  -- The host of the other end takes a segment for its connection, and has it back as it was.
  delivered :
      (conns : List Remote)
      → dst.peer.init_seqno + seg.seqno < 2 ^ 32
      → dst.peer.their_init_seqno + seg.ackno < 2 ^ 32
      → (recv_filter host' unix_socket (src ∷ conns) (packet sent) ≡ taken sent (some src))
        × (convert_to_ctcp src.peer sent ≡ seg)
  unfolding convert_to_datagram filled create_datagram
  delivered conns seq ack =
      let forth = ends.forth in
      let back = ends.back in
      (
        recv_own host' unix_socket sent sent_port sent_no_rst src conns sent_no_syn ends.from_port
            ends.from_addr (omega arith) (omega arith),
        convert_to_ctcp-datagram host dst.peer src.peer seg plain ends.local_net forth back
            ends.init_fits ends.their_fits,
      )

  sent_below : 2 ^ 32 ≤ dst.peer.init_seqno + seg.seqno → sent.th_seq < src.peer.their_init_seqno
  unfolding convert_to_datagram filled
  sent_below wraps =
      let forth = ends.forth in
      let init_fits = ends.init_fits in let fit = plain.seqno_fits in omega arith

  -- Once the sender's numbers have wrapped around, the other end's host drops a segment, if it is
  -- an ordinary one whose fields fit and the host has only this connection.
  pub wrapped_lost :
      2 ^ 32 ≤ dst.peer.init_seqno + seg.seqno
      → recv_filter host' unix_socket (src ∷ []) (packet sent) ≡ dropped
  unfolding find_conn established
  wrapped_lost wraps =
      recv_found host' unix_socket sent sent_port sent_no_rst (src ∷ []) sent_no_syn
      ∙ rw (belongs_below unix_socket sent src (sent_below wraps))
