-- ===== src/Router/Server/Loop.antt =====
-- The main loop over the socket, against the main loop over commands.
use mathlib.Core.List.{map, append_assoc}
use mini_internet_computer_n.Base.{
  ℕ, ◌+◌, ◌≡◌, ◌≢◌, refl, ap, sym, ◌∙◌, Bool, false, Option, none, some, List, [], ◌∷◌, ◌++◌, ltb,
  arith, length, length-append, drop, replicate, Option-cases, inl, inr,
}
use mini_internet_computer_n.Router.Headers.{Bytes}
use mini_internet_computer_n.Router.State.{Name, SrIf, Sr}
use mini_internet_computer_n.Router.Server.{
  Command, cmd_packet, Ret, goes_on, closed, failed, obey, serve, sr_read_from_server_expect,
  sr_destroy_instance,
}
use mini_internet_computer_n.Router.Server.Socket.{
  Recv, got, c_string, command_of, waits, obeyed, obey_bytes, expect, read_from_server, Served,
  running, ended, crashed, serve_socket,
}
use mini_internet_computer_n.Router.Server.Framing.{
  Framed, read_command-Framed, read_command-closed,
}

-- A command on the socket: when it is read, its bytes, and the calls that they come in.
pub record Frame : Type 0 where
  pub now : ℕ
  pub number : ℕ
  pub body : Bytes
  pub head : List Recv
  pub tail : List Recv
  pub command : Command

pub record IsFrame (f : Frame) : Type 0 where
  pub framed : Framed f.number f.body f.head f.tail
  pub means : command_of f.number f.body ≡ some f.command

abbrev AreFrames : List Frame → Type 0
AreFrames [] = Unit
AreFrames (f ∷ fs) = IsFrame f × AreFrames fs

abbrev pub calls : List Frame → List Recv
calls [] = []
calls (f ∷ fs) = f.head ++ (f.tail ++ calls fs)

abbrev time_of : Frame → ℕ
time_of f = f.now

abbrev pub timed : Frame → ℕ × Command
timed f = (f.now, f.command)

-- The state in which the loop is, or which it leaves.
abbrev pub settled : Served → Option Sr
settled (running sr) = some sr
settled (ended sr) = some sr
settled crashed = none

settled_case :
    (sr : Sr) (r : Ret) (t : Served) (u : Option Sr)
    → settled t ≡ u
    → settled (elim r [
      | goes_on ↦ t
      | closed ↦ ended (sr_destroy_instance sr)
      | failed ↦ ended (sr_destroy_instance sr)
    ])
      ≡ elim r [
        | goes_on ↦ u
        | closed ↦ some (sr_destroy_instance sr)
        | failed ↦ some (sr_destroy_instance sr)
      ]
settled_case sr goes_on t u e = e
settled_case sr closed t u e = refl
settled_case sr failed t u e = refl

module _ (raw : SrIf) (handled : Command → Bool) where
  read_frame :
      (sr : Sr) (f : Frame) (later : List Recv)
      → IsFrame f
      → read_from_server raw handled 0 f.now sr (f.head ++ (f.tail ++ later))
        ≡ obeyed raw handled later (obey raw handled f.now sr f.command)
  unfolding read_from_server expect obey_bytes
  read_frame sr f later is =
      ap (expect raw handled 0 f.now sr)
        (read_command-Framed f.number f.body f.head f.tail later is.framed)
      ∙ ap (obey_bytes raw handled f.now sr later) is.means

  -- However the socket cuts up commands of at most 10000 bytes, the size and the rest of each, and
  -- whatever interruptions come between, the main loop over the socket is in, or leaves, the state
  -- that the main loop over these commands comes to.
  pub serve_socket-frames :
      (sr : Sr) (fs : List Frame)
      → AreFrames fs
      → settled (serve_socket raw handled sr (map time_of fs) (calls fs))
        ≡ serve raw handled sr (map timed fs)
  unfolding serve_socket serve sr_read_from_server_expect obeyed
  serve_socket-frames sr [] are = refl
  serve_socket-frames sr (f ∷ fs) are =
      let read = read_frame sr f (calls fs) are.0 in
      elim (Option-cases (obey raw handled f.now sr f.command)) [
        | inl bad ↦ rw (read, bad, serve_socket, serve)
        | inr done ↦
            rw (read, done.1, serve_socket, serve)
              (settled_case done.0.0 done.0.1 _ _ (serve_socket-frames done.0.0 fs are.1))
      ]

abbrev NoZeros : Name → Type 0
NoZeros [] = Unit
NoZeros (b ∷ n) = (b ≢ 0) × NoZeros n

c_string-append : (name : Name) (r : Bytes) → NoZeros name → c_string (name ++ (0 ∷ r)) ≡ name
unfolding c_string
c_string-append [] r n = refl
c_string-append (b ∷ name) r n = ground (arith, c_string-append name r n.1)

drop_append : (name r : Bytes) → drop (length name) (name ++ r) ≡ r
drop_append [] r = refl
drop_append (b ∷ name) r = drop_append name r

-- The bytes of a packet command are taken for its interface and its packet.
pub packet_command :
    (name : Name) (pad packet : Bytes)
    → NoZeros name
    → length name + length pad ≡ 15
    → command_of 4 (name ++ (0 ∷ (pad ++ packet))) ≡ some (cmd_packet name packet)
unfolding command_of
packet_command name pad packet n l =
    let start : length (name ++ (0 ∷ pad)) ≡ 16 = omega (arith, length-append name (0 ∷ pad)) in
    let split : name ++ (0 ∷ (pad ++ packet)) ≡ (name ++ (0 ∷ pad)) ++ packet =
      sym (append_assoc name (0 ∷ pad) packet) in
    let rest : drop 16 (name ++ (0 ∷ (pad ++ packet))) ≡ packet =
      ap (drop 16) split
      ∙ ap (λ (k : ℕ). drop k ((name ++ (0 ∷ pad)) ++ packet)) (sym start)
      ∙ drop_append (name ++ (0 ∷ pad)) packet in
    let long : ltb (length (name ++ (0 ∷ (pad ++ packet)))) 16 ≡ false =
      ground (arith, length-append name (0 ∷ (pad ++ packet)), length-append pad packet) in
    rw (long, rest, c_string-append name (pad ++ packet) n)

-- Where the server has closed the connection, `recv` gives no bytes again and again: the loop runs on,
-- however often it calls.
pub serve_socket-closed :
    (raw : SrIf) (handled : Command → Bool) (sr : Sr) (times : List ℕ) (k : ℕ)
    → serve_socket raw handled sr times (replicate k (got [])) ≡ running sr
unfolding serve_socket
serve_socket-closed raw handled sr [] k = refl
serve_socket-closed raw handled sr (now ∷ ts) k =
    let call : read_from_server raw handled 0 now sr (replicate k (got [])) ≡ waits =
      unfold read_from_server in
      unfold expect in ap (expect raw handled 0 now sr) (read_command-closed k) in
    rw (call, serve_socket)
