-- ===== src/Ctcp/Connect/Filter.antt =====
-- Which packets `recv_filter` lets through.
use mini_internet_computer_n.Base.{
  ◌%◌, ◌<◌, ◌≤◌, ◌≡◌, ◌∙◌, Bool, true, false, none, some, List, ◌∷◌, arith, ==_refl,
}
use mini_internet_computer_n.Ctcp.Datagram.{Datagram, Host}
use mini_internet_computer_n.Ctcp.Connect.{
  Remote, has_syn, has_rst, packet, taken, belongs, find_conn, established, recv_filter,
}

module _ (host : Host) (unix_socket : Bool) (d : Datagram) (here : d.th_dport ≡ host.port % 65536)
    (no_reset : has_rst d.th_flags ≡ false) where
  pub recv_syn :
      (conns : List Remote)
      → has_syn d ≡ true
      → recv_filter host unix_socket conns (packet d) ≡ taken d none
  unfolding recv_filter
  recv_syn conns syn = rw (here, ==_refl, no_reset, syn)

  pub recv_found :
      (conns : List Remote)
      → has_syn d ≡ false
      → recv_filter host unix_socket conns (packet d)
        ≡ established d (find_conn unix_socket d conns)
  unfolding recv_filter
  recv_found conns no_syn = rw (here, ==_refl, no_reset, no_syn)

  pub recv_own :
      (conn : Remote) (conns : List Remote)
      → has_syn d ≡ false
      → conn.peer.port ≡ d.th_sport
      → conn.peer.ip_addr ≡ d.saddr
      → conn.peer.their_init_seqno ≤ d.th_seq
      → conn.peer.init_seqno ≤ d.th_ack_no
      → recv_filter host unix_socket (conn ∷ conns) (packet d) ≡ taken d (some conn)
  unfolding find_conn belongs established
  recv_own conn conns no_syn port ip seq ack =
      recv_found (conn ∷ conns) no_syn
      ∙ (let found : find_conn unix_socket d (conn ∷ conns) ≡ some conn = ground arith in rw found)

pub belongs_below :
    (unix_socket : Bool) (d : Datagram) (conn : Remote)
    → d.th_seq < conn.peer.their_init_seqno
    → belongs unix_socket d conn ≡ false
unfolding belongs
belongs_below unix_socket d conn below = ground arith

pub belongs_own :
    (unix_socket : Bool) (d : Datagram) (conn : Remote)
    → conn.peer.port ≡ d.th_sport
    → conn.peer.ip_addr ≡ d.saddr
    → conn.peer.their_init_seqno ≤ d.th_seq
    → conn.peer.init_seqno ≤ d.th_ack_no
    → belongs unix_socket d conn ≡ true
unfolding belongs
belongs_own unix_socket d conn port ip seq ack = ground arith
