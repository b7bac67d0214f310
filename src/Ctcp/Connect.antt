-- ===== src/Ctcp/Connect.antt =====
-- The set-up of a connection, and which packets belong to one: `conn_setup` of
-- lab3/ctcp_sys_internal.h, `create_tcp_seg`, `recv_filter`,
-- `send_tcp_conn_seg`, `tcp_handshake` and `tcp_new_connection` of ctcp_sys_internal.c.
pub mod Filter
pub mod Delivery
pub mod Agreement
use mini_internet_computer_n.Base.{
  ℕ, ◌+◌, ◌-◌, ◌/◌, ◌%◌, ◌^◌, Bool, not, ◌&&◌, ◌||◌, Option, none, some, List, [], ◌∷◌, leb, ◌==◌,
  if◌then◌else◌, take, replicate,
}
use mini_internet_computer_n.Bbr.{Bbr}
use mini_internet_computer_n.Ctcp.Segment.{th_ack}
use mini_internet_computer_n.Ctcp.State.{CtcpConfig, CtcpState}
use mini_internet_computer_n.Ctcp.Timer.{ctcp_init}
use mini_internet_computer_n.Ctcp.Datagram.{Datagram, Peer, Host, create_datagram, cksum_tcp}

-- The part of `struct conn` that connecting concerns.
pub record Remote : Type 0 where
  pub peer : Peer
  pub seqno : ℕ
  pub next_seqno : ℕ
  pub ackno : ℕ

-- `calloc(sizeof(conn_t), 1)`.
abbrev pub no_remote : Remote
no_remote = record {
  peer = record { ip_addr = 0; port = 0; init_seqno = 0; their_init_seqno = 0 };
  seqno = 0;
  next_seqno = 0;
  ackno = 0;
}

-- `rand` is what `rand()` returns, an `int` that is not negative.
unfoldable pub conn_setup : ℕ → Remote → ℕ → ℕ → Remote
conn_setup rand conn ip_addr port = record {
  peer = record conn.peer { ip_addr = ip_addr; port = port; init_seqno = rand };
  seqno = 0;
  next_seqno = rand;
  ackno = 0;
}

abbrev pub th_syn : ℕ
th_syn = 2

abbrev pub th_rst : ℕ
th_rst = 4

abbrev pub has_syn : Datagram → Bool
has_syn d = d.th_flags / 2 % 2 == 1

abbrev pub has_rst : ℕ → Bool
has_rst flags = flags / 4 % 2 == 1

-- Where `buf` is NULL, the data is what `calloc` leaves.
unfoldable pub payload_bytes : Option (List ℕ) → ℕ → List ℕ
payload_bytes none len = replicate len 0
payload_bytes (some buf) len = take len buf

-- The segment, and the connection with its numbers moved on.
unfoldable pub create_tcp_seg :
    Host → CtcpConfig → Remote → ℕ → Option (List ℕ) → ℕ → Datagram × Remote
create_tcp_seg host cfg dst flags buf len =
    let d : Datagram = record (create_datagram host.ip_addr dst.peer.ip_addr ((20 + len) % 65536)) {
      th_sport = host.port % 65536;
      th_dport = dst.peer.port % 65536;
      th_seq = dst.next_seqno;
      th_ack_no = dst.ackno;
      th_flags = flags;
      th_win = if has_rst flags then 0 else cfg.recv_window % 65536;
      payload = payload_bytes buf len;
    } in
    (
      record d { th_sum = cksum_tcp d len },
      record dst { seqno = dst.next_seqno; next_seqno = (dst.next_seqno + len) % 2 ^ 32 },
    )

-- What `send_tcp_conn_seg` gives to the socket, and the connection.
unfoldable pub send_tcp_conn_seg : Host → CtcpConfig → Remote → ℕ → Datagram × Remote
send_tcp_conn_seg host cfg dst flags = create_tcp_seg host cfg dst flags none 0

-- What `recv` returns: -1, fewer bytes than the headers have, or a packet.
pub data Received : Type 0 where
  no_packet : Received
  too_short : Received
  packet : Datagram → Received

-- What `recv_filter` comes to: -1, 0, an exit, or a packet with the connection that `rconn` is set
-- to, where it is set.
pub data Filtered : Type 0 where
  failed : Filtered
  dropped : Filtered
  exits : Filtered
  taken : Datagram → Option Remote → Filtered

-- The test in the loop of `recv_filter`; `unix_socket` is the program's variable.
unfoldable pub belongs : Bool → Datagram → Remote → Bool
belongs unix_socket d conn =
    conn.peer.port == d.th_sport
    && ((unix_socket || not unix_socket && conn.peer.ip_addr == d.saddr)
        && (leb conn.peer.their_init_seqno d.th_seq && leb conn.peer.init_seqno d.th_ack_no))

unfoldable pub find_conn : Bool → Datagram → List Remote → Option Remote
find_conn unix_socket d [] = none
find_conn unix_socket d (conn ∷ conns) =
    if belongs unix_socket d conn then some conn else find_conn unix_socket d conns

unfoldable pub established : Datagram → Option Remote → Filtered
established d none = dropped
established d (some conn) = taken d (some conn)

unfoldable pub recv_filter : Host → Bool → List Remote → Received → Filtered
recv_filter host unix_socket conns no_packet = failed
recv_filter host unix_socket conns too_short = dropped
recv_filter host unix_socket conns (packet d) =
    if not (d.th_dport == host.port % 65536)
    then dropped
    else if has_rst d.th_flags
    then exits
    else if has_syn d
    then taken d none
    else established d (find_conn unix_socket d conns)

-- The handshake of a client: it exits, it still waits in its loop, or it is connected, with the
-- answer that it sends, if any.
pub data Handshake : Type 0 where
  gave_up : Handshake
  waits : Handshake
  connected : Remote → CtcpConfig → List Datagram → Handshake

-- The ACK to a SYN-ACK, and the connection.
unfoldable pub confirmed : Host → CtcpConfig → Remote → Datagram → Datagram × Remote
confirmed host cfg conn synack =
    send_tcp_conn_seg host cfg
      (record conn {
        peer = record conn.peer { their_init_seqno = synack.th_seq };
        next_seqno = (conn.next_seqno + 1) % 2 ^ 32;
        ackno = (synack.th_seq + 1) % 2 ^ 32;
      })
      th_ack

-- What follows the loop of `tcp_handshake`.
unfoldable pub answered : Host → CtcpConfig → Remote → Datagram → Handshake
answered host cfg conn synack =
    let cfg' : CtcpConfig = record cfg { send_window = synack.th_win } in
    if not (has_syn synack)
    then connected
        (record conn {
          peer = record conn.peer {
            init_seqno = (synack.th_ack_no + 2 ^ 32 - 1) % 2 ^ 32;
            their_init_seqno = (synack.th_seq + 2 ^ 32 - 1) % 2 ^ 32;
          };
          next_seqno = ((synack.th_ack_no + 2 ^ 32 - 1) % 2 ^ 32 + 1) % 2 ^ 32;
          ackno = synack.th_seq;
        })
        cfg' []
    else let (ack, conn') = confirmed host cfg' conn synack in connected conn' cfg' (ack ∷ [])

unfoldable pub await_synack : Host → Bool → CtcpConfig → Remote → List Received → Handshake
await_synack host unix_socket cfg conn [] = waits
await_synack host unix_socket cfg conn (r ∷ rs) =
    let rest = await_synack host unix_socket cfg conn rs in
    elim (recv_filter host unix_socket (conn ∷ []) r) [
      | failed ↦ rest
      | dropped ↦ rest
      | exits ↦ gave_up
      | taken d c ↦ answered host cfg conn d
    ]

-- The SYN that is sent, and what comes of the packets `rs` that `recv` returns one after another.
-- `sent` is whether `sendto` takes the SYN.
unfoldable pub tcp_handshake :
    Host → Bool → CtcpConfig → Remote → Bool → List Received → Datagram × Handshake
tcp_handshake host unix_socket cfg sconn sent rs =
    let (syn, conn) = send_tcp_conn_seg host cfg sconn th_syn in
    (syn, if sent then await_synack host unix_socket cfg conn rs else gave_up)

abbrev max_num_clients : ℕ
max_num_clients = 10

-- The SYN-ACK for a client, and its connection. `rand` is what `rand()` returns.
unfoldable pub welcomed : Host → CtcpConfig → ℕ → Datagram → Datagram × Remote
welcomed host cfg rand syn =
    let fresh = conn_setup rand no_remote syn.saddr syn.th_sport in
    send_tcp_conn_seg host cfg
      (record fresh {
        peer = record fresh.peer { their_init_seqno = syn.th_seq };
        ackno = (syn.th_seq + 1) % 2 ^ 32;
      })
      (th_syn + th_ack)

-- What `tcp_new_connection` leaves: the number of clients, the configuration, and the new connection
-- with its state and the SYN-ACK.
pub record Accepted : Type 0 where
  pub num_connected : ℕ
  pub ctcp_cfg : CtcpConfig
  pub conn : Remote
  pub state : CtcpState
  pub synack : Datagram

-- `none` for NULL. `raw` is what `malloc` returns for the congestion control.
unfoldable pub tcp_new_connection :
    Host → Bool → ℕ → Bbr → ℕ → ℕ → CtcpConfig → Datagram → Option Accepted
tcp_new_connection host is_server rand raw now num_connected cfg syn =
    let (synack, conn) = welcomed host cfg rand syn in
    let cfg' : CtcpConfig = record cfg { send_window = syn.th_win } in
    if not is_server
    then none
    else if leb max_num_clients num_connected
    then none
    else some (record {
      num_connected = num_connected + 1;
      ctcp_cfg = cfg';
      conn = conn;
      state = ctcp_init raw cfg' now;
      synack = synack;
    })
