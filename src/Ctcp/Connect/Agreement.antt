-- ===== src/Ctcp/Connect/Agreement.antt =====
-- The three packets of a handshake between a client and a server.
use mini_internet_computer_n.Base.{
  ℕ, ◌+◌, ◌^◌, ◌<◌, ◌≡◌, ◌⊎◌, inl, inr, refl, ap, ◌∙◌, Bool, true, false, Option, none, some, List,
  [], ◌∷◌, ◌++◌, arith, leb,
}
use mini_internet_computer_n.Bbr.{Bbr}
use mini_internet_computer_n.Ctcp.State.{CtcpConfig}
use mini_internet_computer_n.Ctcp.Timer.{ctcp_init}
use mini_internet_computer_n.Ctcp.Datagram.{
  Datagram, Host, create_datagram, convert_to_ctcp, extracted,
}
use mini_internet_computer_n.Ctcp.Connect.Delivery.{AreEnds}
use mini_internet_computer_n.Ctcp.Connect.Filter.{recv_syn, recv_own}
use mini_internet_computer_n.Ctcp.Connect.{
  Remote, no_remote, conn_setup, create_tcp_seg, send_tcp_conn_seg, th_syn, Received, packet,
  failed, dropped, taken, recv_filter, connected, answered, confirmed, welcomed, await_synack,
  tcp_handshake, Accepted, tcp_new_connection,
}

-- What `recv` returns while nothing gets through to the host.
abbrev AllQuiet : Host → Bool → Remote → List Received → Type 0
AllQuiet host unix_socket conn [] = Unit
AllQuiet host unix_socket conn (r ∷ rs) =
    ((recv_filter host unix_socket (conn ∷ []) r ≡ failed)
      ⊎ (recv_filter host unix_socket (conn ∷ []) r ≡ dropped))
    × AllQuiet host unix_socket conn rs

module _ (host : Host) (unix_socket : Bool) (cfg : CtcpConfig) (conn : Remote) where
  -- The loop passes over what does not get through.
  await_quiet :
      (rs later : List Received)
      → AllQuiet host unix_socket conn rs
      → await_synack host unix_socket cfg conn (rs ++ later)
        ≡ await_synack host unix_socket cfg conn later
  unfolding await_synack recv_filter
  await_quiet [] later q = refl
  await_quiet (r ∷ rs) later (inl e, q) = rw (e, await_synack) (await_quiet rs later q)
  await_quiet (r ∷ rs) later (inr e, q) = rw (e, await_synack) (await_quiet rs later q)

  await_taken :
      (r : Received) (d : Datagram) (c : Option Remote) (later : List Received)
      → recv_filter host unix_socket (conn ∷ []) r ≡ taken d c
      → await_synack host unix_socket cfg conn (r ∷ later) ≡ answered host cfg conn d
  unfolding await_synack
  await_taken r d c later e = rw (e, await_synack)

module _ (client server : Host) (unix_socket : Bool) (ccfg : CtcpConfig) (rand rand' : ℕ)
    (raw : Bbr) (now num_connected : ℕ) (scfg : CtcpConfig) where
  -- The client's connection before the handshake, and its SYN.
  abbrev to_server : Remote
  to_server = conn_setup rand no_remote server.ip_addr server.port

  abbrev syn : Datagram
  syn = (send_tcp_conn_seg client ccfg to_server th_syn).0

  -- The server's connection, and its SYN-ACK.
  abbrev synack : Datagram
  synack = (welcomed server scfg rand' syn).0

  abbrev to_client : Remote
  to_client = (welcomed server scfg rand' syn).1

  -- The client's connection after the handshake, and its ACK.
  abbrev confirmation : Datagram × Remote
  confirmation =
      confirmed client (record ccfg { send_window = synack.th_win })
        (send_tcp_conn_seg client ccfg to_server th_syn).1 synack

  -- A server with space for a client.
  module _ (space : num_connected < 10) (fits : rand < 2 ^ 31) (fits' : rand' < 2 ^ 31)
      (port' : server.port < 65536) where
    syn_taken :
        (conns : List Remote) → recv_filter server unix_socket conns (packet syn) ≡ taken syn none
    unfolding send_tcp_conn_seg create_tcp_seg create_datagram conn_setup
    syn_taken conns = recv_syn server unix_socket syn refl refl conns refl

    synack_taken :
        (conns : List Remote)
        → recv_filter client unix_socket conns (packet synack) ≡ taken synack none
    unfolding send_tcp_conn_seg create_tcp_seg create_datagram conn_setup welcomed
    synack_taken conns = recv_syn client unix_socket synack (omega arith) refl conns refl

    ack_taken :
        (conns : List Remote)
        → recv_filter server unix_socket (to_client ∷ conns) (packet confirmation.0)
          ≡ taken confirmation.0 (some to_client)
    unfolding send_tcp_conn_seg create_tcp_seg create_datagram conn_setup welcomed confirmed
    ack_taken conns =
        recv_own server unix_socket confirmation.0 refl refl to_client conns refl refl refl
          (omega arith) (omega arith)

    there : client.web ≡ false → AreEnds client server confirmation.1 to_client
    unfolding send_tcp_conn_seg create_tcp_seg create_datagram conn_setup welcomed confirmed
    there local_net = record {
      local_net = local_net;
      forth = refl;
      back = refl;
      init_fits = omega arith;
      their_fits = omega arith;
      from_port = refl;
      to_port = refl;
      from_addr = refl;
    }

    back_again : server.web ≡ false → AreEnds server client to_client confirmation.1
    unfolding send_tcp_conn_seg create_tcp_seg create_datagram conn_setup welcomed confirmed
    back_again local_net = record {
      local_net = local_net;
      forth = refl;
      back = refl;
      init_fits = omega arith;
      their_fits = omega arith;
      from_port = omega arith;
      to_port = omega arith;
      from_addr = refl;
    }

    -- What the server makes of the SYN.
    abbrev accepted : Accepted
    accepted =
        let cfg : CtcpConfig = record scfg { send_window = syn.th_win } in
        record {
          num_connected = num_connected + 1;
          ctcp_cfg = cfg;
          conn = to_client;
          state = ctcp_init raw cfg now;
          synack = synack;
        }

    welcome : tcp_new_connection server true rand' raw now num_connected scfg syn ≡ some accepted
    unfolding tcp_new_connection
    welcome = let room : leb 10 num_connected ≡ false = ground arith in rw room

    synack_answered :
        answered client ccfg (send_tcp_conn_seg client ccfg to_server th_syn).1 synack
        ≡ connected confirmation.1
            (record ccfg { send_window = synack.th_win })
            (confirmation.0 ∷ [])
    unfolding answered welcomed send_tcp_conn_seg create_tcp_seg
    synack_answered = refl

    first_numbers :
        ((convert_to_ctcp to_client.peer confirmation.0).seqno ≡ 1)
        × ((convert_to_ctcp to_client.peer confirmation.0).ackno ≡ 1)
    unfolding convert_to_ctcp extracted send_tcp_conn_seg create_tcp_seg create_datagram conn_setup
        welcomed confirmed
    first_numbers = (omega arith, omega arith)

    -- What the three packets come to: each reaches the host that it is for, the client is connected,
    -- the first numbers are 1 and 1, and the hosts are the two ends of a connection.
    abbrev pub Meeting : List Received → List Received → List Remote → Type 0
    Meeting rs later conns =
        (recv_filter server unix_socket conns (packet syn) ≡ taken syn none)
        × (tcp_new_connection server true rand' raw now num_connected scfg syn ≡ some accepted)
        × (tcp_handshake client unix_socket ccfg to_server true (rs ++ packet synack ∷ later) ≡ (
          syn,
          connected confirmation.1 (record ccfg { send_window = synack.th_win })
              (confirmation.0 ∷ []),
        ))
        × (recv_filter server unix_socket (to_client ∷ conns) (packet confirmation.0)
            ≡ taken confirmation.0 (some to_client))
        × ((convert_to_ctcp to_client.peer confirmation.0).seqno ≡ 1)
        × ((convert_to_ctcp to_client.peer confirmation.0).ackno ≡ 1)
        × AreEnds client server confirmation.1 to_client
        × AreEnds server client to_client confirmation.1

    -- A server with space for a client takes its SYN and answers it; the client, whatever comes before
    -- that does not get through to it, takes the SYN-ACK and is connected; the server takes its ACK
    -- for one of this connection, with the numbers 1 and 1. If neither talks to the web, they then
    -- are the two ends of a connection, each with the other's address, port and initial number.
    pub handshake_agrees :
        (rs later : List Received) (conns : List Remote)
        → client.web ≡ false
        → server.web ≡ false
        → AllQuiet client unix_socket (send_tcp_conn_seg client ccfg to_server th_syn).1 rs
        → Meeting rs later conns
    unfolding tcp_handshake
    handshake_agrees rs later conns local_net local_net' quiet =
        let conn = (send_tcp_conn_seg client ccfg to_server th_syn).1 in
        (
          syn_taken conns,
          welcome,
          ap (λ h. (syn, h))
              (await_quiet client unix_socket ccfg conn rs (packet synack ∷ later) quiet
                ∙ await_taken client unix_socket ccfg conn (packet synack) synack none later
                    (synack_taken (conn ∷ []))
                ∙ synack_answered),
          ack_taken conns,
          first_numbers.0,
          first_numbers.1,
          there local_net,
          back_again local_net',
        )
