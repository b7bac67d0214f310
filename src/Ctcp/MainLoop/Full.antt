-- ===== src/Ctcp/MainLoop/Full.antt =====
-- A server that has had ten clients.
use mathlib.Core.List.{map}
use mini_internet_computer_n.Base.{
  ℕ, ◌+◌, ◌≤◌, ◌≡◌, refl, ◌∙◌, Bool, Option, none, some, List, [], ◌∷◌, arith, if_split, length,
}
use mini_internet_computer_n.Bbr.{Bbr}
use mini_internet_computer_n.Ctcp.State.{CtcpConfig, Run, ok, exited, fault, ◌>>=◌}
use mini_internet_computer_n.Ctcp.Numbers.{OnOk, OnOk-bind, OnOk-map}
use mini_internet_computer_n.Ctcp.Receive.{Platform}
use mini_internet_computer_n.Ctcp.Datagram.{Datagram, Host, convert_to_ctcp}
use mini_internet_computer_n.Ctcp.Connect.{
  Remote, belongs, Received, Filtered, failed, dropped, exits, taken, has_syn, tcp_new_connection,
}
use mini_internet_computer_n.Ctcp.MainLoop.{
  overreads, Entry, Library, Poll, segment_for, connection_for, handle_filtered, handle_packet,
  served, timed, do_loop, rounds, end_round, from_packet, passed, on_first, receive_on, first_ack,
  in_memory, delete_all_connections,
}

-- No connection has come: the count, and the SYN-ACKs that were sent, are the same.
pub record AsFull (lib lib' : Library) : Type 0 where
  pub count : lib'.num_connected ≡ lib.num_connected
  pub wire : lib'.wire ≡ lib.wire

AsFull-trans : (a b c : Library) → AsFull a b → AsFull b c → AsFull a c
AsFull-trans a b c f g = record { count = g.count ∙ f.count; wire = g.wire ∙ f.wire }

OnOk->>= :
    {A B : Type 0} (P : B → Type 0) (m : Run A) (f : A → Run B)
    → ((a : A) → OnOk (f a) P)
    → OnOk (m >>= f) P
OnOk->>= P (ok a) f h = h a
OnOk->>= P exited f h = tt
OnOk->>= P fault f h = tt

module _ (pf : Platform) (host : Host) (unix_socket run_program : Bool) where
  new_connection-full :
      (rand : ℕ) (raw : Bbr) (now n : ℕ) (cfg : CtcpConfig) (syn : Datagram)
      → 10 ≤ n
      → tcp_new_connection host pf.is_server rand raw now n cfg syn ≡ none
  unfolding tcp_new_connection
  new_connection-full rand raw now n cfg syn full = ground arith

  segment-AsFull :
      (poll : Poll) (d : Datagram) (remote : Remote) (lib : Library)
      → OnOk (segment_for pf host unix_socket run_program poll d remote lib) (AsFull lib)
  unfolding segment_for
  segment-AsFull poll d remote lib =
      let seg = convert_to_ctcp remote.peer (in_memory poll d) in
      let acked : AsFull lib (record lib { new_connection = 0 }) = record {
        count = refl;
        wire = refl;
      } in
      let goes_on = λ (r : Run Library). OnOk r (AsFull lib) in
      if_split goes_on (overreads d) fault _ (λ _. tt)
        (λ _.
          if_split goes_on (first_ack lib.new_connection d seg)
            (ok (record lib { new_connection = 0 }))
            (on_first (λ e. belongs unix_socket d e.remote)
                (receive_on pf host unix_socket run_program poll seg (20 + length d.payload))
                lib.connections
              >>= λ es. ok (record lib { connections = es }))
            (λ _. acked)
            (λ _.
              OnOk->>= (AsFull lib)
                (on_first (λ e. belongs unix_socket d e.remote)
                  (receive_on pf host unix_socket run_program poll seg (20 + length d.payload))
                  lib.connections)
                (λ es. ok (record lib { connections = es }))
                (λ es. record { count = refl; wire = refl })))

  filtered-AsFull :
      (poll : Poll) (now : ℕ) (lib : Library) (r : Filtered)
      → 10 ≤ lib.num_connected
      → OnOk (handle_filtered pf host unix_socket run_program poll now lib r) (AsFull lib)
  unfolding handle_filtered segment_for connection_for
  filtered-AsFull poll now lib failed full = record { count = refl; wire = refl }
  filtered-AsFull poll now lib dropped full = record { count = refl; wire = refl }
  filtered-AsFull poll now lib exits full = tt
  filtered-AsFull poll now lib (taken d (some remote)) full = segment-AsFull poll d remote lib
  filtered-AsFull poll now lib (taken d none) full =
      if_split (λ (l : Library). AsFull lib l) (has_syn d) _ _
        (λ e.
          rw (new_connection-full poll.rand poll.raw now lib.num_connected lib.ctcp_cfg d full)
            (record { count = refl; wire = refl }))
        (λ e. record { count = refl; wire = refl })

  packet-AsFull :
      (poll : Poll) (now : ℕ) (lib : Library) (r : Option Received)
      → 10 ≤ lib.num_connected
      → OnOk (handle_packet pf host unix_socket run_program poll now lib r) (AsFull lib)
  unfolding handle_packet
  packet-AsFull poll now lib none full = record { count = refl; wire = refl }
  packet-AsFull poll now lib (some r) full = filtered-AsFull poll now lib _ full

  end_round-AsFull :
      (poll : Poll) (lib : Library)
      → OnOk (end_round pf host unix_socket run_program poll lib) (AsFull lib)
  unfolding end_round
  end_round-AsFull poll lib =
      OnOk->>= (AsFull lib) (timed pf host unix_socket run_program poll lib.connections)
        (λ es. ok (record lib { connections = delete_all_connections es }))
        (λ es. record { count = refl; wire = refl })

  from_packet-AsFull :
      (poll : Poll) (now : ℕ) (lib : Library) (es : List Entry)
      → 10 ≤ lib.num_connected
      → OnOk (from_packet pf host unix_socket run_program poll now lib es) (AsFull lib)
  unfolding from_packet
  from_packet-AsFull poll now lib es full =
      let same : AsFull lib (record lib { connections = es }) = record {
        count = refl;
        wire = refl;
      } in
      OnOk-bind (AsFull (record lib { connections = es })) (AsFull lib)
        (handle_packet pf host unix_socket run_program poll now (record lib { connections = es })
          poll.received)
        (end_round pf host unix_socket run_program poll)
        (packet-AsFull poll now (record lib { connections = es }) poll.received full)
        (λ a f.
          OnOk-map (AsFull a) (AsFull lib) (end_round pf host unix_socket run_program poll a)
            (end_round-AsFull poll a) (λ b g. AsFull-trans lib a b (AsFull-trans lib _ a same f) g))

  do_loop-AsFull :
      (poll : Poll) (now : ℕ) (lib : Library)
      → 10 ≤ lib.num_connected
      → OnOk (do_loop pf host unix_socket run_program poll now lib) (AsFull lib)
  unfolding do_loop
  do_loop-AsFull poll now lib full =
      OnOk->>= (AsFull lib)
        (served pf host unix_socket run_program poll (map (passed poll.elapsed) lib.connections))
        (from_packet pf host unix_socket run_program poll now lib)
        (λ es. from_packet-AsFull poll now lib es full)

  -- Once a host has counted ten clients, no rounds of its main loop, as long as it goes on, count or
  -- answer another, even if all its connections are gone.
  pub rounds-AsFull :
      (ps : List (Poll × ℕ)) (lib : Library)
      → 10 ≤ lib.num_connected
      → OnOk (rounds pf host unix_socket run_program ps lib) (AsFull lib)
  unfolding rounds
  rounds-AsFull [] lib full = record { count = refl; wire = refl }
  rounds-AsFull ((poll, now) ∷ ps) lib full =
      OnOk-bind (AsFull lib) (AsFull lib) (do_loop pf host unix_socket run_program poll now lib)
        (rounds pf host unix_socket run_program ps) (do_loop-AsFull poll now lib full)
        (λ a f.
          OnOk-map (AsFull a) (AsFull lib) (rounds pf host unix_socket run_program ps a)
            (rounds-AsFull ps a (let c = f.count in omega arith)) (λ b g. AsFull-trans lib a b f g))
