-- ===== src/Ctcp/NetTests.antt =====
-- Connecting, sending and the main loop on concrete values.
use mini_internet_computer_n.Base.{
  ℕ, ◌≡◌, refl, inl, inr, true, false, none, some, List, [], ◌∷◌, ◌+◌, ◌<◌, arith, length,
  replicate,
}
use mini_internet_computer_n.Ctcp.Segment.{CtcpSegment}
use mini_internet_computer_n.Ctcp.State.{ok, fault, ◌>>=◌}
use mini_internet_computer_n.Ctcp.Samples.{client, raw, config, start}
use mini_internet_computer_n.Ctcp.Output.{again}
use mini_internet_computer_n.Ctcp.Datagram.{Host, convert_to_datagram, filled}
use mini_internet_computer_n.Ctcp.Datagram.RoundTrip.{IsPlain}
use mini_internet_computer_n.Ctcp.Connect.{
  Remote, recv_filter, packet, too_short, no_packet, dropped, belongs,
}
use mini_internet_computer_n.Ctcp.Connect.Agreement.{Meeting, handshake_agrees}
use mini_internet_computer_n.Ctcp.Connect.Delivery.{AreEnds, IsOrdinary, wrapped_lost}
use mini_internet_computer_n.Ctcp.Numbers.{OnOk}
use mini_internet_computer_n.Ctcp.Unreliable.{
  Options, Chances, conn_send, drops, duplicates, delays, strikes,
}
use mini_internet_computer_n.Ctcp.Unreliable.Processes.{going, sendings, conn_send_counts}
use mini_internet_computer_n.Ctcp.MainLoop.Full.{AsFull, rounds-AsFull}
use mini_internet_computer_n.Ctcp.MainLoop.{
  rounds, Entry, Library, Poll, no_output, first_ack, handle_packet, receive_on,
}
use mini_internet_computer_n.Ctcp.MainLoop.Arrival.{segment_arrives, long_segment_overreads}

abbrev client_host : Host
client_host = record { ip_addr = 16777343; port = 9999; web = false }

abbrev server_host : Host
server_host = record { ip_addr = 16777343; port = 8888; web = false }

handshake_agrees_example :
    Meeting client_host server_host true config 1804289383 846930886 raw 1000 0 config
      (omega arith)
      (omega arith)
      (omega arith)
      (omega arith)
      (too_short ∷ no_packet ∷ [])
      []
      []
unfolding recv_filter
handshake_agrees_example =
    handshake_agrees client_host server_host true config 1804289383 846930886 raw 1000 0 config
      (omega arith) (omega arith) (omega arith) (omega arith) (too_short ∷ no_packet ∷ []) [] []
      refl refl (inr refl, (inl refl, tt))

-- The connection as the client sees it, and as the server does.
abbrev at_client : Remote
at_client = record {
  peer = record { ip_addr = 16777343; port = 8888; init_seqno = 1000; their_init_seqno = 77 };
  seqno = 1001;
  next_seqno = 1001;
  ackno = 78;
}

abbrev at_server : Remote
at_server = record {
  peer = record { ip_addr = 16777343; port = 9999; init_seqno = 77; their_init_seqno = 1000 };
  seqno = 77;
  next_seqno = 77;
  ackno = 1001;
}

abbrev ends : AreEnds client_host server_host at_client at_server
ends = record {
  local_net = refl;
  forth = refl;
  back = refl;
  init_fits = omega arith;
  their_fits = omega arith;
  from_port = refl;
  to_port = refl;
  from_addr = refl;
}

abbrev entry : Remote → Entry
entry remote = record { remote = remote; conn = no_output; state = start }

-- Another client has connected later.
abbrev another : Remote
another = record at_server { peer = record (at_server.peer) { port = 7777 } }

abbrev library : Library
library = record {
  connections = entry another ∷ entry at_server ∷ [];
  num_connected = 2;
  new_connection = 0;
  ctcp_cfg = config;
  wire = [];
}

abbrev poll : Poll
poll = record {
  elapsed = 5;
  input = none;
  output = none;
  program_input = [];
  received = none;
  write = again;
  beyond = 0 ∷ [];
  stale = 0 ∷ [];
  rand = 846930886;
  raw = raw;
  timer_up = false;
}

-- A segment with the bytes `d`; its checksum may be any.
abbrev segment_of : List ℕ → CtcpSegment
segment_of d = record {
  seqno = 9;
  ackno = 3;
  len = 20 + length d;
  pad = 0;
  flags = 16;
  window = 1440;
  sum = 4711;
  payload = d;
}

segment_of-IsPlain : (d : List ℕ) → length d < 60000 → IsPlain (segment_of d)
segment_of-IsPlain d h = record {
  seqno_fits = omega arith;
  ackno_fits = omega arith;
  no_pad = refl;
  flags_fit = omega arith;
  sum_fits = omega arith;
  counted = refl;
  len_fits = omega arith;
}

abbrev ordinary : IsOrdinary (segment_of (104 ∷ 105 ∷ []))
ordinary = record { no_syn = refl; no_rst = refl }

segment_arrives_example :
    handle_packet client server_host true false poll 1000 library (
      some
        (packet (convert_to_datagram client_host at_client.peer (segment_of (104 ∷ 105 ∷ [])) 22)))
    ≡ (receive_on client server_host true false poll
          (segment_of (104 ∷ 105 ∷ []))
          22
          (entry at_server)
        >>= λ e. ok (record library { connections = entry another ∷ e ∷ [] }))
unfolding belongs first_ack convert_to_datagram filled
segment_arrives_example =
    segment_arrives client client_host server_host true false at_client
      (segment_of (104 ∷ 105 ∷ [])) poll 1000 library (entry at_server) (entry another ∷ []) [] ends
      (segment_of-IsPlain (104 ∷ 105 ∷ []) (omega arith)) ordinary (omega arith) (omega arith) refl
      (refl, tt) (omega arith) refl

-- More data than a packet has space for.
abbrev long_data : List ℕ
long_data = replicate 1441 104

long_segment_overreads_example :
    handle_packet client server_host true false poll 1000 library (
      some (
        packet (
          convert_to_datagram client_host at_client.peer
            (segment_of long_data)
            (segment_of long_data).len)))
    ≡ fault
unfolding belongs convert_to_datagram filled
long_segment_overreads_example =
    long_segment_overreads client client_host server_host true false at_client
      (segment_of long_data) poll 1000 library (entry at_server) (entry another ∷ []) [] ends
      (segment_of-IsPlain long_data (omega arith)) (record { no_syn = refl; no_rst = refl })
      (omega arith) (omega arith) refl (refl, tt) (omega arith)

-- A connection whose first number is about to wrap around, as both ends see it.
abbrev wrapping_client : Remote
wrapping_client = record at_client { peer = record (at_client.peer) { init_seqno = 4294967290 } }

abbrev wrapping_server : Remote
wrapping_server = record at_server {
  peer = record (at_server.peer) { their_init_seqno = 4294967290 };
}

wrapped_lost_example :
    recv_filter server_host true (wrapping_server ∷ []) (
      packet
        (convert_to_datagram client_host wrapping_client.peer (segment_of (104 ∷ 105 ∷ [])) 22))
    ≡ dropped
wrapped_lost_example =
    wrapped_lost client_host server_host true wrapping_client wrapping_server
      (segment_of (104 ∷ 105 ∷ []))
      (record {
        local_net = refl;
        forth = refl;
        back = refl;
        init_fits = omega arith;
        their_fits = omega arith;
        from_port = refl;
        to_port = refl;
        from_addr = refl;
      })
      (segment_of-IsPlain (104 ∷ 105 ∷ []) (omega arith)) ordinary (omega arith)

abbrev full_library : Library
full_library = record library { num_connected = 10; connections = [] }

rounds-AsFull_example :
    OnOk
      (rounds client server_host true false ((poll, 1000) ∷ (poll, 1040) ∷ []) full_library)
      (AsFull full_library)
rounds-AsFull_example =
    rounds-AsFull client server_host true false ((poll, 1000) ∷ (poll, 1040) ∷ []) full_library
      (omega arith)

-- Duplication and delay strike in every process.
abbrev options : Options
options = record {
  test_debug_on = false;
  opt_drop = 10;
  opt_corrupt = 0;
  opt_delay = 50;
  opt_duplicate = 50;
}

abbrev chances : Chances
chances = record {
  drop_roll = 60;
  duplicate_roll = 40;
  delay_roll = λ p. 30;
  corrupt_roll = λ p. 20;
  bit_roll = λ p. 7;
  sendto = λ p. some 42;
}

conn_send_counts_example :
    (going (
        conn_send options chances client_host at_client.peer (segment_of (104 ∷ 105 ∷ [])) 22 false)
      ≡ 2)
    × (sendings (
          conn_send options chances client_host at_client.peer
            (segment_of (104 ∷ 105 ∷ []))
            22
            false)
        ≡ 2)
unfolding drops duplicates delays strikes
conn_send_counts_example =
    conn_send_counts options chances client_host at_client.peer (segment_of (104 ∷ 105 ∷ [])) 22
      false
