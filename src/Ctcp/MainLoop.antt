-- ===== src/Ctcp/MainLoop.antt =====
-- The main loop of a cTCP host: `do_loop` and `delete_all_connections` of
-- lab3/ctcp_sys_internal.c, over the connections of the host.
pub mod Routing
pub mod Arrival
pub mod Full
use mathlib.Core.List.{map, reverse}
use mini_internet_computer_n.Base.{
  ℕ, ◌+◌, ◌-◌, ◌%◌, Bool, false, ◌&&◌, Option, none, some, List, [], ◌∷◌, ◌++◌, ◌==◌, ltb,
  if◌then◌else◌, take, length,
}
use mini_internet_computer_n.Bbr.{Bbr}
use mini_internet_computer_n.Ctcp.Segment.{CtcpSegment, has_ack}
use mini_internet_computer_n.Ctcp.State.{CtcpConfig, CtcpState, Run, ok, exited, fault, ◌>>=◌}
use mini_internet_computer_n.Ctcp.Receive.{Platform, ctcp_receive}
use mini_internet_computer_n.Ctcp.Timer.{ctcp_read, timer_round}
use mini_internet_computer_n.Ctcp.Output.{
  Conn, Write, again, conn_bufspace, conn_output, conn_drain,
}
use mini_internet_computer_n.Ctcp.Datagram.{Datagram, Host, convert_to_ctcp}
use mini_internet_computer_n.Ctcp.Connect.{
  Remote, has_syn, Received, no_packet, too_short, packet, Filtered, failed, dropped, exits, taken,
  belongs, recv_filter, Accepted, tcp_new_connection,
}

-- A connection: its peer, its output, and its state.
pub record Entry : Type 0 where
  pub remote : Remote
  pub conn : Conn
  pub state : CtcpState

-- The host's variables. `connections` has the latest connection first; a client has one at most.
pub record Library : Type 0 where
  pub connections : List Entry
  pub num_connected : ℕ
  pub new_connection : ℕ
  pub ctcp_cfg : CtcpConfig
  pub wire : List Datagram

-- What the calls of `conn_input` in one `ctcp_read` return: the pieces, and whether the last is -1.
abbrev Input : Type 0
Input = List (List ℕ) × Bool

-- What one round meets: the time since the last one, what can be read and, per connection, what
-- `write` returns in `conn_drain`, where its file descriptors are ready, a packet, and whether the
-- timer is up. `write` is what a call of it in `ctcp_receive` returns, `beyond` the memory behind a
-- segment, `stale` what `buf` holds behind a packet, `rand` and `raw` are what `rand` and `malloc` return for a new connection.
pub record Poll : Type 0 where
  pub elapsed : ℕ
  pub input : Option Input
  pub output : Option (List (List Write × Write))
  pub program_input : List (Option Input)
  pub received : Option Received
  pub write : Write
  pub beyond : List ℕ
  pub stale : List ℕ
  pub rand : ℕ
  pub raw : Bbr
  pub timer_up : Bool

unfoldable pub passed : ℕ → Entry → Entry
passed d e = record e { state = record (e.state) { clock = e.state.clock + d } }

abbrev pub no_output : Conn
no_output = record {
  wrote_eof = false;
  wrote_err = false;
  delete_me = false;
  out_queue = [];
  stream = [];
  polls = false;
}

-- A connection goes: what is behind the first one is lost with it.
abbrev pub kept : List Entry → List Entry
kept [] = []
kept (e ∷ es) = if e.conn.delete_me then kept es else e ∷ kept es

unfoldable pub delete_all_connections : List Entry → List Entry
delete_all_connections [] = []
delete_all_connections (e ∷ es) = if e.conn.delete_me then [] else e ∷ kept es

-- `conn_output` for each buffer.
unfoldable pub outputs_on : Conn → List (List ℕ) → Write → Conn
outputs_on conn [] w = conn
outputs_on conn (b ∷ bs) w = outputs_on (conn_output conn b w).0 bs w

-- What a call has output, the first buffer first.
abbrev pub newly : CtcpState → CtcpState → List (List ℕ)
newly st st' = reverse (take (length st'.outputs - length st.outputs) st'.outputs)

-- The ACK that ends a handshake.
unfoldable pub first_ack : ℕ → Datagram → CtcpSegment → Bool
first_ack new_connection d seg =
    d.th_sport == new_connection && (has_ack seg && (seg.seqno == 1 && seg.ackno == 1))

-- A packet as `recv` gives it: `buf` has 1480 bytes.
unfoldable pub cut : Received → Received
cut no_packet = no_packet
cut too_short = too_short
cut (packet d) = packet (record d { payload = take 1440 d.payload })

-- `convert_to_ctcp` copies as many bytes as the header says: undefined behaviour where they are more
-- than the 1440 behind the headers in `buf`.
unfoldable pub overreads : Datagram → Bool
overreads d = ltb 1440 ((d.tot_len + 65536 - 40) % 65536)

-- A packet with what stands behind it in `buf`.
abbrev pub in_memory : Poll → Datagram → Datagram
in_memory poll d = record d { payload = d.payload ++ poll.stale }

-- A change of the first connection that a test picks.
unfoldable pub on_first : (Entry → Bool) → (Entry → Run Entry) → List Entry → Run (List Entry)
on_first p f [] = ok []
on_first p f (e ∷ es) =
    let rest = on_first p f es >>= λ es'. ok (e ∷ es') in
    if p e then f e >>= (λ e'. ok (e' ∷ es)) else rest

unfoldable pub on_each : (Entry → Run Entry) → List Entry → Run (List Entry)
on_each f [] = ok []
on_each f (e ∷ es) = let rest = on_each f es in f e >>= λ e'. rest >>= λ es'. ok (e' ∷ es')

module _ (pf : Platform) (host : Host) (unix_socket run_program : Bool) where
  unfoldable pub read_on : Option Input → Entry → Entry
  read_on none e = e
  read_on (some (pieces, ends)) e = record e { state = ctcp_read pf e.state pieces ends }

  -- Input from STDIN goes to the latest connection.
  unfoldable pub read_first : Option Input → List Entry → List Entry
  read_first i [] = []
  read_first i (e ∷ es) = read_on i e ∷ es

  unfoldable pub read_programs : List (Option Input) → List Entry → List Entry
  read_programs is [] = []
  read_programs [] (e ∷ es) = e ∷ es
  read_programs (i ∷ is) (e ∷ es) = read_on i e ∷ read_programs is es

  unfoldable pub drain_each : List (List Write × Write) → List Entry → Run (List Entry)
  drain_each ws [] = ok []
  drain_each [] (e ∷ es) =
      let rest = drain_each [] es in
      conn_drain pf e.conn e.state [] again >>= λ (r : Conn × CtcpState).
      rest >>= λ es'. ok (record e { conn = r.0; state = r.1 } ∷ es')
  drain_each ((ws, w) ∷ wss) (e ∷ es) =
      let rest = drain_each wss es in
      conn_drain pf e.conn e.state ws w >>= λ (r : Conn × CtcpState).
      rest >>= λ es'. ok (record e { conn = r.0; state = r.1 } ∷ es')

  -- A segment for the connection, with what it outputs.
  unfoldable pub receive_on : Poll → CtcpSegment → ℕ → Entry → Run Entry
  receive_on poll seg len e =
      ctcp_receive pf (conn_bufspace e.conn) e.state seg len poll.beyond >>= λ st'.
      ok (record e { conn = outputs_on e.conn (newly e.state st') poll.write; state = st' })

  -- A packet of the connection `remote`.
  unfoldable pub segment_for : Poll → Datagram → Remote → Library → Run Library
  segment_for poll d remote lib =
      let seg = convert_to_ctcp remote.peer (in_memory poll d) in
      if overreads d
      then fault
      else if first_ack lib.new_connection d seg
      then ok (record lib { new_connection = 0 })
      else on_first (λ e. belongs unix_socket d e.remote)
          (receive_on poll seg (20 + length d.payload)) lib.connections
        >>= (λ es. ok (record lib { connections = es }))

  -- A SYN, by what `tcp_new_connection` makes of it.
  unfoldable pub connection_for : Datagram → Library → Option Accepted → Library
  connection_for syn lib none = lib
  connection_for syn lib (some a) = record {
    connections = record { remote = a.conn; conn = no_output; state = a.state } ∷ lib.connections;
    num_connected = a.num_connected;
    new_connection = syn.th_sport;
    ctcp_cfg = a.ctcp_cfg;
    wire = a.synack ∷ lib.wire;
  }

  unfoldable pub handle_filtered : Poll → ℕ → Library → Filtered → Run Library
  handle_filtered poll now lib failed = ok lib
  handle_filtered poll now lib dropped = ok lib
  handle_filtered poll now lib exits = exited
  handle_filtered poll now lib (taken d (some remote)) = segment_for poll d remote lib
  handle_filtered poll now lib (taken d none) = ok (
      if has_syn d
      then connection_for d lib (
          tcp_new_connection host pf.is_server poll.rand poll.raw now lib.num_connected lib.ctcp_cfg
            d)
      else lib)

  unfoldable pub handle_packet : Poll → ℕ → Library → Option Received → Run Library
  handle_packet poll now lib none = ok lib
  handle_packet poll now lib (some r) =
      handle_filtered poll now lib
        (recv_filter host unix_socket (map (λ (e : Entry). e.remote) lib.connections) (cut r))

  unfoldable pub tick_on : Entry → Run Entry
  tick_on e = timer_round pf e.state >>= λ st'. ok (record e { state = st' })

  unfoldable pub drained : Option (List (List Write × Write)) → List Entry → Run (List Entry)
  drained none es = ok es
  drained (some wss) es = drain_each wss es

  -- The connections with their input, before the packet.
  unfoldable pub served : Poll → List Entry → Run (List Entry)
  served poll es =
      drained poll.output (if run_program then es else read_first poll.input es) >>= λ es'.
      ok (if run_program then read_programs poll.program_input es' else es')

  unfoldable pub timed : Poll → List Entry → Run (List Entry)
  timed poll es = if poll.timer_up then on_each tick_on es else ok es

  -- The end of a round: the timer, and the connections that go.
  unfoldable pub end_round : Poll → Library → Run Library
  end_round poll lib = timed poll lib.connections >>= λ es.
      ok (record lib { connections = delete_all_connections es })

  -- A round from its packet on.
  unfoldable pub from_packet : Poll → ℕ → Library → List Entry → Run Library
  from_packet poll now lib es =
      handle_packet poll now (record lib { connections = es }) poll.received >>= end_round poll

  -- The body of the loop; `now` is the time in it.
  unfoldable pub do_loop : Poll → ℕ → Library → Run Library
  do_loop poll now lib =
      served poll (map (passed poll.elapsed) lib.connections) >>= from_packet poll now lib

  -- Rounds of the loop, each with its time.
  unfoldable pub rounds : List (Poll × ℕ) → Library → Run Library
  rounds [] lib = ok lib
  rounds ((poll, now) ∷ ps) lib = do_loop poll now lib >>= rounds ps
