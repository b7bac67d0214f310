-- ===== src/Router/Server/Socket.antt =====
-- Reading commands from the socket: the beginning of `sr_read_from_server_expect` of
-- lab1/router/sr_vns_comm.c, up to its switch, with the structs of vnscommand.h.
use mini_internet_computer_n.Base.{
  ℕ, zero, suc, ◌+◌, ◌-◌, ◌*◌, ◌/◌, Bool, true, false, not, ◌&&◌, Option, none, some, List, [], ◌∷◌,
  ◌++◌, ltb, ◌==◌, if◌then◌else◌, get_or, drop, length,
}
use mini_internet_computer_n.Router.Headers.{Bytes, Mac, load32}
use mini_internet_computer_n.Router.State.{Name, SrIf, Sr}
use mini_internet_computer_n.Router.Interfaces.{HwEntry, hw_interface, hw_ether, hw_ethip, hw_other}
use mini_internet_computer_n.Router.Server.{
  Command, cmd_packet, cmd_close, cmd_banner, cmd_hwinfo, cmd_rtable, cmd_auth_request,
  cmd_auth_status, cmd_other, Ret, goes_on, closed, failed, obey, sr_destroy_instance,
}

-- What a call of `recv` or `read` gives: bytes, none of them where the server has closed, an
-- interruption (EINTR), or another error.
pub data Recv : Type 0 where
  got : Bytes → Recv
  interrupted : Recv
  recv_error : Recv

-- What comes of a loop: the calls are used up and it still calls, an error, or the bytes, with the
-- calls that are left.
pub data Reading : Type 0 where
  blocked : Reading
  broken : Reading
  filled : Bytes → List Recv → Reading

-- A loop `while( bytes_read < want)`, where `buf` holds the bytes read.
unfoldable pub read_bytes : ℕ → Bytes → List Recv → Reading
read_bytes want buf [] = if ltb (length buf) want then blocked else filled buf []
read_bytes want buf (r ∷ rs) = elim (ltb (length buf) want) [
  | false ↦ filled buf (r ∷ rs)
  | true ↦ elim r [
    | got d ↦ read_bytes want (buf ++ d) rs
    | interrupted ↦ read_bytes want buf rs
    | recv_error ↦ broken
  ]
]

-- `ntohl` of the word at `i`.
abbrev pub word_at : Bytes → ℕ → ℕ
word_at p i =
    get_or p i 0 * 16777216
    + get_or p (i + 1) 0 * 65536
    + get_or p (i + 2) 0 * 256
    + get_or p (i + 3) 0

-- A command: the call waits, it fails, its length is too small for its own header, so that the code
-- reads and writes behind its buffer, or its number and what follows the header.
pub data Incoming : Type 0 where
  awaited : Incoming
  refused : Incoming
  overrun : Incoming
  message : ℕ → Bytes → List Recv → Incoming

unfoldable pub whole : Reading → Incoming
whole blocked = awaited
whole broken = refused
whole (filled p rs) = message (word_at p 0) (drop 4 p) rs

-- `len > 10000 || len < 0`, where `len` is an `int`.
unfoldable pub after_size : Reading → Incoming
after_size blocked = awaited
after_size broken = refused
after_size (filled p rs) =
    let len = word_at p 0 in
    if ltb 10000 len
    then refused
    else if ltb len 8
    then overrun
    else whole (read_bytes (len - 4) [] rs)

unfoldable pub read_command : List Recv → Incoming
read_command rs = after_size (read_bytes 4 [] rs)

-- A C string, up to its first zero, or to the end of the command.
unfoldable pub c_string : Bytes → Name
c_string [] = []
c_string (b ∷ p) = let rest = b ∷ c_string p in if b == 0 then [] else rest

abbrev mac_at : Bytes → ℕ → Mac
mac_at p i = record {
  m0 = get_or p i 0;
  m1 = get_or p (i + 1) 0;
  m2 = get_or p (i + 2) 0;
  m3 = get_or p (i + 3) 0;
  m4 = get_or p (i + 4) 0;
  m5 = get_or p (i + 5) 0;
}

-- An entry of a description of the interfaces: its key, and 32 bytes.
unfoldable pub hw_entry_at : Bytes → HwEntry
hw_entry_at p =
    if word_at p 0 == 1
    then hw_interface (c_string (drop 4 p))
    else if word_at p 0 == 32
    then hw_ether (mac_at p 4)
    else if word_at p 0 == 64
    then hw_ethip (load32 (get_or p 4 0) (get_or p 5 0) (get_or p 6 0) (get_or p 7 0))
    else hw_other

unfoldable pub hw_entries : ℕ → Bytes → List HwEntry
hw_entries zero p = []
hw_entries (suc n) p = hw_entry_at p ∷ hw_entries n (drop 36 p)

-- The cases of the switch; `none` where no bytes are left for a packet.
unfoldable pub command_of : ℕ → Bytes → Option Command
command_of number body =
    if number == 4
    then if ltb (length body) 16 then none else some (cmd_packet (c_string body) (drop 16 body))
    else some (
        if number == 2
        then cmd_close
        else if number == 8
        then cmd_banner
        else if number == 16
        then cmd_hwinfo (hw_entries (length body / 36) body)
        else if number == 32
        then cmd_rtable
        else if number == 128
        then cmd_auth_request
        else if number == 512
        then cmd_auth_status
        else cmd_other number)

-- What a call comes to: it waits, its behaviour is undefined, or it returns.
pub data Call : Type 0 where
  waits : Call
  undefined : Call
  returns : Sr → Ret → List Recv → Call

pub data Served : Type 0 where
  running : Sr → Served
  ended : Sr → Served
  crashed : Served

module _ (raw : SrIf) (handled : Command → Bool) where
  unfoldable pub obeyed : List Recv → Option (Sr × Ret) → Call
  obeyed rs none = undefined
  obeyed rs (some (sr, r)) = returns sr r rs

  unfoldable pub obey_bytes : ℕ → Sr → List Recv → Option Command → Call
  obey_bytes now sr rs none = undefined
  obey_bytes now sr rs (some c) = obeyed rs (obey raw handled now sr c)

  unfoldable pub expect : ℕ → ℕ → Sr → Incoming → Call
  expect expected_cmd now sr awaited = waits
  expect expected_cmd now sr refused = returns sr failed []
  expect expected_cmd now sr overrun = undefined
  expect expected_cmd now sr (message number body rs) =
      if not (expected_cmd == 0) && (not (number == expected_cmd) && not (number == 2))
      then returns sr failed rs
      else obey_bytes now sr rs (command_of number body)

  -- The whole call, over what the socket gives.
  unfoldable pub read_from_server : ℕ → ℕ → Sr → List Recv → Call
  read_from_server expected_cmd now sr rs = expect expected_cmd now sr (read_command rs)

  -- The loop of `main` over the socket, where each round has its time: it runs on, it has ended, or
  -- the behaviour is undefined.
  unfoldable pub serve_socket : Sr → List ℕ → List Recv → Served
  serve_socket sr [] rs = running sr
  serve_socket sr (now ∷ ts) rs = elim (read_from_server 0 now sr rs) [
    | waits ↦ running sr
    | undefined ↦ crashed
    | returns sr' r rs' ↦ elim r [
      | goes_on ↦ serve_socket sr' ts rs'
      | closed ↦ ended (sr_destroy_instance sr')
      | failed ↦ ended (sr_destroy_instance sr')
    ]
  ]
