-- ===== src/Router/Tests/Socket.antt =====
-- Commands on a socket.
use mini_internet_computer_n.Base.{
  ◌+◌, ◌-◌, ◌≡◌, refl, true, [], ◌∷◌, ◌++◌, arith, length, take, drop, replicate,
}
use mini_internet_computer_n.Router.Headers.{Bytes, load32}
use mini_internet_computer_n.Router.Samples.{
  eth0, eth1_name, router, ip_packet, eight_bytes, as_frame,
}
use mini_internet_computer_n.Router.Server.{cmd_packet, cmd_close, serve}
use mini_internet_computer_n.Router.Server.Socket.{
  got, interrupted, command_of, serve_socket, running,
}
use mini_internet_computer_n.Router.Server.Framing.{big32}
use mini_internet_computer_n.Router.Server.Loop.{
  Frame, IsFrame, calls, settled, serve_socket-frames, serve_socket-closed, packet_command,
}

abbrev some_packet : Bytes
some_packet = as_frame (ip_packet 64 17 58572 (load32 172 16 0 1)) eight_bytes

abbrev padding : Bytes
padding = replicate (15 - length eth1_name) 0

-- The size comes in two pieces with an interruption between them, the rest in three.
abbrev packet_frame : Frame
packet_frame =
    let body = eth1_name ++ (0 ∷ (padding ++ some_packet)) in
    record {
      now = 100;
      number = 4;
      body = body;
      head =
          got (take 2 (big32 (8 + length body) []))
          ∷ interrupted
          ∷ got (drop 2 (big32 (8 + length body) []))
          ∷ [];
      tail =
          got (take 7 (big32 4 body))
          ∷ got (take 20 (drop 7 (big32 4 body)))
          ∷ interrupted
          ∷ got (drop 20 (drop 7 (big32 4 body)))
          ∷ [];
      command = cmd_packet eth1_name some_packet;
    }

abbrev close_frame : Frame
close_frame = record {
  now = 101;
  number = 2;
  body = 98 ∷ 121 ∷ 101 ∷ 0 ∷ [];
  head = got (0 ∷ 0 ∷ 0 ∷ 12 ∷ []) ∷ [];
  tail = got (0 ∷ 0 ∷ 0 ∷ 2 ∷ 98 ∷ 121 ∷ 101 ∷ 0 ∷ []) ∷ [];
  command = cmd_close;
}

packet_frame-IsFrame : IsFrame packet_frame
packet_frame-IsFrame = record {
  framed = record {
    head_ends = omega arith;
    size = refl;
    tail_ends = omega arith;
    content = refl;
    number_fits = omega arith;
    short = omega arith;
  };
  means = packet_command eth1_name padding some_packet (omega arith) refl;
}

close_frame-IsFrame : IsFrame close_frame
unfolding command_of
close_frame-IsFrame = record {
  framed = record {
    head_ends = omega arith;
    size = refl;
    tail_ends = omega arith;
    content = refl;
    number_fits = omega arith;
    short = omega arith;
  };
  means = refl;
}

serve_socket-frames_example :
    settled (
      serve_socket eth0
        (λ c. true)
        router
        (100 ∷ 101 ∷ [])
        (calls (packet_frame ∷ close_frame ∷ [])))
    ≡ serve eth0
        (λ c. true)
        router
        ((100, cmd_packet eth1_name some_packet) ∷ (101, cmd_close) ∷ [])
serve_socket-frames_example =
    serve_socket-frames eth0 (λ c. true) router (packet_frame ∷ close_frame ∷ [])
      (packet_frame-IsFrame, (close_frame-IsFrame, tt))

serve_socket-closed_example :
    serve_socket eth0 (λ c. true) router (100 ∷ 101 ∷ []) (replicate 1000 (got [])) ≡ running router
serve_socket-closed_example = serve_socket-closed eth0 (λ c. true) router (100 ∷ 101 ∷ []) 1000
