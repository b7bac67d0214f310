-- ===== src/Ctcp/Tests.antt =====
-- cTCP on concrete connections.
use mini_internet_computer_n.Ctcp.Samples.{client, raw, config, start}
use mathlib.Core.Path.{subst}
use mathlib.Core.List.{map, reverse}
use mini_internet_computer_n.Base.{
  ℕ, ◌+◌, ◌-◌, ◌%◌, ◌^◌, ◌≡◌, refl, sym, inl, true, false, List, [], ◌∷◌, arith, take,
}
use mini_internet_computer_n.Bbr.{bbr_init}
use mini_internet_computer_n.Ctcp.Segment.{
  CtcpSegment, data_segment, bare_segment, received_cksum, th_ack,
}
use mini_internet_computer_n.Ctcp.State.{SegmentInfo, CtcpState, ok}
use mini_internet_computer_n.Ctcp.Window.{
  new_info, ctcp_prep_data_segment, ctcp_send_sliding_window, slide, slid, send_slid, send_unsent,
  send_segment, marked,
}
use mini_internet_computer_n.Ctcp.Window.Order.{queue, total, ctcp_send_sliding_window-queue}
use mini_internet_computer_n.Ctcp.Numbers.{OnOk}
use mini_internet_computer_n.Ctcp.Receive.{ack_loop, ack_segments, ctcp_receive}
use mini_internet_computer_n.Ctcp.Receive.Cksum.{received-data_segment, received_cksum_blind}
use mini_internet_computer_n.Ctcp.Receive.Deliver.{IsAck, IsSound, receive_new, receive_duplicate}
use mini_internet_computer_n.Ctcp.Receive.Fuel.{ack_loop-enough}
use mini_internet_computer_n.Ctcp.Timer.{ctcp_init, read_loop, end_input, ctcp_read}
use mini_internet_computer_n.Ctcp.Events.{Event, elapse, arrive, input, drained, tick, run}
use mini_internet_computer_n.Ctcp.Events.Holding.{Senders, holding, run-Senders}
use mini_internet_computer_n.Ctcp.Events.Pieces.{Resent, all_came, comes, comes_again, arrival}
use mini_internet_computer_n.Ctcp.Events.Transfer.{transfer}
use mini_internet_computer_n.Ctcp.Events.GivesUp.{ended, rounds, gives_up}

-- Two segments of a sender: bytes 1 to 2, and byte 3.
abbrev first_segment : CtcpSegment
first_segment = data_segment 1 1 1440 (104 ∷ 105 ∷ [])

abbrev second_segment : CtcpSegment
second_segment = data_segment 3 1 1440 (10 ∷ [])

abbrev pieces : List (List ℕ)
pieces = (104 ∷ 105 ∷ []) ∷ (10 ∷ []) ∷ []

two_queued : queue (ctcp_read client start pieces false) ≡ first_segment ∷ second_segment ∷ []
unfolding ctcp_read read_loop end_input ctcp_prep_data_segment ctcp_send_sliding_window slid slide
    send_slid send_unsent send_segment marked data_segment ctcp_init bbr_init
two_queued = refl

-- The first segment comes twice.
transfer_example :
    (st' : CtcpState) × (run client start
        (map (arrival 8192 []) (first_segment ∷ first_segment ∷ second_segment ∷ []))
      ≡ ok st')
    × (st'.outputs ≡ reverse pieces)
transfer_example =
    transfer client client 8192 [] raw raw config config 1000 1000 pieces false
      (first_segment ∷ first_segment ∷ second_segment ∷ [])
      (
        record {
          clean = omega arith;
          some_data = omega arith;
          fits = omega arith;
          room = omega arith;
        },
        (
          record {
            clean = omega arith;
            some_data = omega arith;
            fits = omega arith;
            room = omega arith;
          },
          tt,
        ),
      )
      (omega arith)
      (subst (λ q. Resent [] q (first_segment ∷ first_segment ∷ second_segment ∷ []))
        (sym two_queued) (comes (comes_again first_segment (inl refl) (comes (all_came _)))))

ctcp_send_sliding_window-queue_example :
    queue (ctcp_send_sliding_window client.floats (ctcp_prep_data_segment start (104 ∷ [])))
    ≡ queue (ctcp_prep_data_segment start (104 ∷ []))
ctcp_send_sliding_window-queue_example =
    ctcp_send_sliding_window-queue client.floats (ctcp_prep_data_segment start (104 ∷ []))

-- Two pieces are read, and an acknowledgement of the first one comes.
abbrev busy : List Event
busy =
    input pieces false
    ∷ elapse 40
    ∷ tick
    ∷ arrive 8192 (bare_segment 0 0 1 3 1440 th_ack) 20 (0 ∷ [])
    ∷ drained 8192
    ∷ []

run-Senders_example :
    OnOk (run client start busy) (λ st'. Senders (holding start) busy (holding st'))
run-Senders_example = run-Senders client start busy

first-IsSound : IsSound first_segment 22 (0 ∷ [])
unfolding data_segment
first-IsSound = record {
  whole = omega arith;
  intact = sym (received-data_segment 1 1 1440 (104 ∷ 105 ∷ []) [] (omega arith) (omega arith));
}

receive_new_example :
    (st' : CtcpState) × (ctcp_receive client 8192 start first_segment 22 (0 ∷ []) ≡ ok st')
    × (st'.outputs ≡ take (first_segment.len - 20) (104 ∷ 105 ∷ 0 ∷ []) ∷ start.outputs)
    × (s : CtcpSegment) × (st'.sent ≡ s ∷ start.sent)
    × IsAck s 0 start.curr_seqno
        ((first_segment.seqno + (first_segment.len - 20)) % 2 ^ 32)
        start.connect_config.recv_window
    × (st'.prev_ackno ≡ (first_segment.seqno + (first_segment.len - 20)) % 2 ^ 32)
    × (st'.unacked_segs_with_info ≡ start.unacked_segs_with_info)
    × (st'.fin_flag ≡ start.fin_flag)
unfolding data_segment ctcp_init
receive_new_example =
    receive_new client 8192 start first_segment 22 (0 ∷ []) first-IsSound refl refl refl
      (omega arith) (omega arith) (omega arith)

-- Bytes up to 2 have come.
abbrev later : CtcpState
later = record start { prev_ackno = 3 }

receive_duplicate_example :
    (st' : CtcpState) × (ctcp_receive client 8192 later first_segment 22 (0 ∷ []) ≡ ok st')
    × (st'.outputs ≡ later.outputs)
    × (st'.sent ≡ later.sent)
    × (st'.prev_ackno ≡ later.prev_ackno)
    × (st'.curr_ackno ≡ (first_segment.seqno + first_segment.len + 2 ^ 32 - 20) % 2 ^ 32)
    × (st'.unacked_segs_with_info ≡ later.unacked_segs_with_info)
    × (st'.fin_flag ≡ later.fin_flag)
unfolding data_segment ctcp_init
receive_duplicate_example =
    receive_duplicate client 8192 later first_segment 22 (0 ∷ []) first-IsSound refl refl refl
      (omega arith)

received_cksum_blind_example :
    received_cksum (record first_segment { payload = 104 ∷ 0 ∷ 1 ∷ [] }) []
    ≡ received_cksum (record first_segment { payload = 104 ∷ 0 ∷ 2 ∷ [] }) []
received_cksum_blind_example =
    received_cksum_blind first_segment (104 ∷ []) (1 ∷ []) (2 ∷ []) [] [] (omega arith)
      (omega arith)

-- One segment is sent, and the peer is silent.
abbrev sent_one : SegmentInfo
sent_one = record (new_info first_segment) { prev_sent_time = 900; is_in_flight = true }

abbrev waiting : CtcpState
waiting = record start { unacked_segs_with_info = sent_one ∷ []; curr_window_size = 22 }

gives_up_example :
    run client waiting (rounds client (240 ∷ 240 ∷ 240 ∷ 240 ∷ 240 ∷ [])) ≡ ended client
unfolding ctcp_init
gives_up_example =
    gives_up client (240 ∷ 240 ∷ 240 ∷ 240 ∷ 240 ∷ []) waiting sent_one [] refl (omega arith)
      (omega arith) (omega arith) (omega arith)

ack_loop-enough_example :
    ack_loop client (total waiting + 7) 3 waiting waiting.unacked_segs_with_info
    ≡ ack_segments client 3 waiting
ack_loop-enough_example = ack_loop-enough client 7 3 waiting
