-- ===== src/Ctcp/Input.antt =====
-- Input and time: `conn_input` of lab3/ctcp_sys_internal.c, `add_network_line_ending` and
-- `need_timer_in` of ctcp_sys_internal.h.
pub mod Lines
pub mod Due
use mini_internet_computer_n.Base.{
  ℕ, ◌+◌, ◌-◌, ◌*◌, ◌/◌, Bool, true, false, not, ◌&&◌, ◌||◌, List, [], ◌∷◌, ◌++◌, ltb, leb, ◌==◌,
  if◌then◌else◌, take, get_or, length,
}

-- What a call of `read` returns: bytes, none of them at the end of the file, -1 with `EAGAIN`, or -1
-- with another error.
pub data Read : Type 0 where
  bytes : List ℕ → Read
  would_block : Read
  read_error : Read

-- The program's settings: where input comes from, and whether a byte 0x1a ends it.
pub record Source : Type 0 where
  pub run_program : Bool
  pub unix_socket : Bool
  pub marks_end : Bool

-- What `r` and the buffer hold after the reading: an end or an error, no input, or bytes; and whether
-- a byte was written behind a buffer of `len` bytes.
pub record Filled : Type 0 where
  pub result : Read
  pub overrun : Bool

abbrev pub newline : ℕ
newline = 10

-- Whether the last of the bytes ends a line.
unfoldable pub ends_line : List ℕ → Bool
ends_line d = get_or d (length d - 1) 0 == newline

-- The bytes with their last one, a newline, as carriage return and newline.
unfoldable pub with_line_ending : List ℕ → List ℕ
with_line_ending d = take (length d - 1) d ++ (13 ∷ newline ∷ [])

-- `add_network_line_ending(true, buf, r)`, which writes at `r + 1`, and what follows it. `more` is what
-- the call of `read` for one more byte returns; -1 is added to `r` as any other number.
unfoldable pub with_more : List ℕ → Read → List ℕ
with_more d (bytes e) = d ++ e
with_more d would_block = take (length d - 1) d
with_more d read_error = take (length d - 1) d

unfoldable pub web_input : ℕ → Read → Read → Filled
web_input len would_block more = record { result = would_block; overrun = false }
web_input len read_error more = record { result = read_error; overrun = false }
web_input len (bytes []) more = record { result = bytes []; overrun = false }
web_input len (bytes (b ∷ d)) more =
    if ends_line (b ∷ d)
    then record {
      result = bytes (with_line_ending (b ∷ d));
      overrun = leb len (length (b ∷ d) + 1);
    }
    else record { result = bytes (with_more (b ∷ d) more); overrun = false }

-- What `conn_input` returns: -1, or so many bytes.
pub data InputRet : Type 0 where
  no_input : InputRet
  input : List ℕ → InputRet

-- The result with `read_eof`, and whether the buffer was overrun.
pub record Got : Type 0 where
  pub ret : InputRet
  pub read_eof : Bool
  pub overrun : Bool

unfoldable pub after_read : Bool → Read → InputRet × Bool
after_read marks_end would_block = (input [], false)
after_read marks_end read_error = (no_input, true)
after_read marks_end (bytes []) = (no_input, true)
after_read marks_end (bytes (b ∷ d)) =
    if marks_end && b == 26 then (no_input, true) else (input (b ∷ d), false)

-- The bytes that `read` gives. `first` is what a call for `len` bytes, or for one fewer if the input is for
-- the web, returns.
unfoldable pub filled_by : Source → ℕ → Read → Read → Filled
filled_by src len first more =
    if src.run_program || src.unix_socket
    then record { result = first; overrun = false }
    else web_input len first more

-- The connection is not to be deleted, and no argument is NULL.
unfoldable pub conn_input : Source → Bool → ℕ → Read → Read → Got
conn_input src read_eof len first more =
    let f = filled_by src len first more in
    let (ret, ends) = after_read src.marks_end f.result in
    if read_eof
    then record { ret = no_input; read_eof = true; overrun = false }
    else record { ret = ret; read_eof = ends; overrun = f.overrun }

-- A time of the clock; it does not go back.
pub record Timespec : Type 0 where
  pub tv_sec : ℕ
  pub tv_nsec : ℕ

-- The milliseconds that `need_timer_in` counts: the difference of the nanoseconds is divided towards
-- zero.
unfoldable pub elapsed_ms : Timespec → Timespec → ℕ
elapsed_ms last now =
    let seconds = (now.tv_sec - last.tv_sec) * 1000 in
    if leb last.tv_nsec now.tv_nsec
    then seconds + (now.tv_nsec - last.tv_nsec) / 1000000
    else seconds - (last.tv_nsec - now.tv_nsec) / 1000000

-- `now` is the time that `get_time` gives.
unfoldable pub need_timer_in : Timespec → Timespec → ℕ → ℕ
need_timer_in last now interval =
    if ltb (interval / 1000) (now.tv_sec - last.tv_sec)
    then 0
    else if leb interval (elapsed_ms last now)
    then 0
    else interval - elapsed_ms last now
