-- ===== src/Ctcp/Unreliable.antt =====
-- Sending a segment, with the unreliability that the options ask for: `flipbit` of
-- lab3/ctcp_sys_internal.h and `conn_send` of ctcp_sys_internal.c.
pub mod Corruption
pub mod Layout
pub mod Detection
pub mod Processes
use Prim.Native.Nat.{bit_xor}
use mini_internet_computer_n.Base.{
  ℕ, ◌+◌, ◌-◌, ◌*◌, ◌/◌, ◌%◌, ◌^◌, Bool, true, false, not, ◌&&◌, ◌||◌, Option, none, some, List, [],
  ◌∷◌, ◌++◌, ltb, leb, ◌==◌, if◌then◌else◌, get_or, set, drop,
}
use mini_internet_computer_n.Ctcp.Segment.{CtcpSegment, put_ctcp}
use mini_internet_computer_n.Ctcp.Datagram.{Datagram, Peer, Host, convert_to_datagram}
use mini_internet_computer_n.Ctcp.Output.{Ret, count, error}

abbrev pub load16 : List ℕ → ℕ → ℕ
load16 p i = get_or p i 0 * 256 + get_or p (i + 1) 0

abbrev pub load32 : List ℕ → ℕ → ℕ
load32 p i = load16 p i * 65536 + load16 p (i + 2)

-- A word as a little-endian host stores it.
abbrev pub stored16 : List ℕ → ℕ → ℕ
stored16 p i = get_or p i 0 + get_or p (i + 1) 0 * 256

-- The segment whose bytes are `p`.
unfoldable pub get_ctcp : List ℕ → CtcpSegment
get_ctcp p = record {
  seqno = load32 p 0;
  ackno = load32 p 4;
  len = load16 p 8;
  pad = stored16 p 10;
  flags = stored16 p 12 + stored16 p 14 * 65536;
  window = load16 p 16;
  sum = stored16 p 18;
  payload = drop 20 p;
}

-- `flipbit` on bytes, and on the segment that they are.
unfoldable pub flipped_bytes : List ℕ → ℕ → List ℕ
flipped_bytes p bit = set p (bit / 8) (bit_xor (get_or p (bit / 8) 0) (2 ^ (bit % 8)))

unfoldable pub flipbit : CtcpSegment → ℕ → CtcpSegment
flipbit s bit = get_ctcp (flipped_bytes (put_ctcp s s.payload) bit)

-- The options of the program: whether the tester runs it, and the percentages.
pub record Options : Type 0 where
  pub test_debug_on : Bool
  pub opt_drop : ℕ
  pub opt_corrupt : ℕ
  pub opt_delay : ℕ
  pub opt_duplicate : ℕ

-- A process that may send the segment: whether it was forked for a duplicate, and for a delay.
pub record Process : Type 0 where
  pub duplicate : Bool
  pub delayed : Bool

abbrev pub original : Process
original = record { duplicate = false; delayed = false }

abbrev pub copy : Process
copy = record { duplicate = true; delayed = false }

-- What `rand_percent`, the last `rand` and `sendto` return in each process; `none` is -1.
pub record Chances : Type 0 where
  pub drop_roll : ℕ
  pub duplicate_roll : ℕ
  pub delay_roll : Process → ℕ
  pub corrupt_roll : Process → ℕ
  pub bit_roll : Process → ℕ
  pub sendto : Process → Option ℕ

-- What comes of a process: what it gives to the socket, what `conn_send` returns in it if it goes
-- on, and `tester_did_unreliable` in it.
pub record Fate : Type 0 where
  pub sent : Option Datagram
  pub returns : Option Ret
  pub tester_did : Bool

-- Whether an option takes effect.
unfoldable pub strikes : Options → Bool → ℕ → ℕ → Bool
strikes opts tester_did opt roll =
    opts.test_debug_on && (not tester_did && not (opt == 0))
    || not opts.test_debug_on && ltb roll opt

-- The bit that is flipped in a segment of `len` bytes.
unfoldable pub rand_bit : ℕ → ℕ → ℕ
rand_bit len roll = (roll % ((len + 65536 - 20 + 4) % 65536 * 8 - 1) + 128) % 65536

unfoldable pub returned : Option ℕ → Ret
returned none = error
returned (some n) = if leb 20 n then count (n - 20) else count n

module _ (opts : Options) (ch : Chances) (host : Host) (conn : Peer) (seg : CtcpSegment)
    (len : ℕ) where
  unfoldable pub corrupts : Bool → Process → Bool
  corrupts tester_did p = strikes opts tester_did opts.opt_corrupt (ch.corrupt_roll p)

  -- From the corruption to the end.
  unfoldable pub transmitted : Bool → Process → Fate
  transmitted tester_did p =
      let s = if corrupts tester_did p then flipbit seg (rand_bit len (ch.bit_roll p)) else seg in
      record {
        sent = some (convert_to_datagram host conn s len);
        returns = if p.duplicate || p.delayed then none else some (returned (ch.sendto p));
        tester_did = tester_did || corrupts tester_did p;
      }

  unfoldable pub delays : Bool → Process → Bool
  delays tester_did p = strikes opts tester_did opts.opt_delay (ch.delay_roll p)

  -- From the delay on: a forked process sends, and the process itself returns.
  unfoldable pub maybe_delayed : Bool → Process → List Fate
  maybe_delayed tester_did p =
      if delays tester_did p
      then transmitted true (record p { delayed = true })
        ∷ record { sent = none; returns = some (count len); tester_did = true }
        ∷ []
      else transmitted tester_did p ∷ []

  unfoldable pub duplicates : Bool → Bool
  duplicates tester_did = strikes opts tester_did opts.opt_duplicate ch.duplicate_roll

  unfoldable pub maybe_duplicated : Bool → List Fate
  maybe_duplicated tester_did =
      if duplicates tester_did
      then maybe_delayed true copy ++ maybe_delayed true original
      else maybe_delayed tester_did original

  unfoldable pub drops : Bool → Bool
  drops tester_did = strikes opts tester_did opts.opt_drop ch.drop_roll

  -- All processes that come of a call. The connection is not to be deleted, and no argument is NULL.
  unfoldable pub conn_send : Bool → List Fate
  conn_send tester_did =
      if drops tester_did
      then record { sent = none; returns = some (count len); tester_did = true } ∷ []
      else maybe_duplicated tester_did
