-- ===== src/Ctcp/Resets.antt =====
-- What is left of earlier connections: `create_tcp_rst` and `send_resets` of
-- lab3/ctcp_sys_internal.c.
use mini_internet_computer_n.Base.{
  ℕ, ◌%◌, ◌≡◌, refl, Bool, true, false, ◌==◌, List, [], ◌∷◌, if◌then◌else◌, ==_iff,
}
use mini_internet_computer_n.Ctcp.Datagram.{Datagram, Host, create_datagram, cksum_tcp}
use mini_internet_computer_n.Ctcp.Connect.{Remote, th_rst, recv_filter, packet, exits}

create_tcp_rst : Host → ℕ → ℕ → ℕ → ℕ → Datagram
create_tcp_rst host ip_dst port_src port_dst seqno =
    let d : Datagram = record (create_datagram host.ip_addr ip_dst 20) {
      th_sport = port_src;
      th_dport = port_dst;
      th_seq = seqno;
      th_ack_no = 0;
      th_flags = th_rst;
      th_win = 0;
      payload = [];
    } in
    record d { th_sum = cksum_tcp d 0 }

-- The resets that are sent. Each packet is what the buffer, zero before, holds after a `recv` that
-- gave bytes; with it stands whether `sendto` takes the reset. The list ends where `recv` gives none.
send_resets : Host → List (Datagram × Bool) → List Datagram
send_resets host [] = []
send_resets host ((d, sent) ∷ ps) =
    let rest = send_resets host ps in
    if sent then create_tcp_rst host d.saddr d.th_dport d.th_sport d.th_ack_no ∷ rest else []

-- The packets come from a port of the host.
abbrev AllFrom : Host → List (Datagram × Bool) → Type 0
AllFrom other [] = Unit
AllFrom other (p ∷ ps) = (p.0.th_sport ≡ other.port % 65536) × AllFrom other ps

module _ (me other : Host) (unix_socket : Bool) (conns : List Remote) where
  -- The program ends at each of the packets.
  abbrev AllEnd : List Datagram → Type 0
  AllEnd [] = Unit
  AllEnd (d ∷ ds) = (recv_filter other unix_socket conns (packet d) ≡ exits) × AllEnd ds

  -- The other host's program ends at each reset for a packet from its port, whatever connections it
  -- has, be they the reset one or not.
  send_resets-AllEnd : (ps : List (Datagram × Bool)) → AllFrom other ps → AllEnd (send_resets me ps)
  unfolding send_resets create_tcp_rst recv_filter
  send_resets-AllEnd [] h = tt
  send_resets-AllEnd ((d, false) ∷ ps) h = tt
  send_resets-AllEnd ((d, true) ∷ ps) h =
      let ours : (d.th_sport == other.port % 65536) ≡ true = (==_iff _ _).1 h.0 in
      (rw ours refl, send_resets-AllEnd ps h.1)
