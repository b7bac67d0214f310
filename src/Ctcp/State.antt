-- ===== src/Ctcp/State.antt =====
-- The state of a connection: `struct ctcp_state` of lab3/ctcp.c and what it holds.
use mini_internet_computer_n.Base.{ℕ, Bool, List}
use mini_internet_computer_n.Bbr.{Bbr}
use mini_internet_computer_n.Ctcp.Segment.{CtcpSegment}

pub record CtcpConfig : Type 0 where
  pub recv_window : ℕ
  pub send_window : ℕ
  pub timer : ℕ
  pub rt_timeout : ℕ

pub record SegmentInfo : Type 0 where
  pub prev_sent_time : ℕ
  pub curr_num_retransmit : ℕ
  pub is_in_flight : Bool
  pub is_app_limited : Bool
  pub curr_ctcp_segment : CtcpSegment

-- What `output_buffer` points to: the data of a segment, before and after the segment is freed.
pub data OutputBuffer : Type 0 where
  no_buffer : OutputBuffer
  held : List ℕ → OutputBuffer
  freed : OutputBuffer

-- The linked lists are lists. `clock` is what `current_time` returns, `sent` lists the segments given
-- to `conn_send`, and `outputs` the buffers given to `conn_output`, both the latest first. The
-- conversions to and from floating point are parameters of the handlers.
pub record CtcpState : Type 0 where
  pub unacked_segs_with_info : List SegmentInfo
  pub segs_to_send : List SegmentInfo
  pub connect_config : CtcpConfig
  pub final_packet_time : ℕ
  pub prev_ackno : ℕ
  pub curr_seqno : ℕ
  pub curr_ackno : ℕ
  pub curr_window_size : ℕ
  pub eof_flag : Bool
  pub fin_flag : Bool
  pub output_buffer : OutputBuffer
  pub output_len : ℕ
  pub bbr : Bbr
  pub prev_packet_sent_time : ℕ
  pub timer_time_stamp : ℕ
  pub clock : ℕ
  pub sent : List CtcpSegment
  pub outputs : List (List ℕ)

-- What the program does: it goes on, the process exits, or the behaviour is undefined.
pub data Run {ℓ} (A : Type ℓ) : Type ℓ where
  ok : A → Run A
  exited : Run A
  fault : Run A

infixl 5 ◌>>=◌
abbrev pub ◌>>=◌ {ℓ κ} : {A : Type ℓ} {B : Type κ} → Run A → (A → Run B) → Run B
ok a >>= f = f a
exited >>= f = exited
fault >>= f = fault

-- The floating-point results that the code converts to integers: a congestion window, the time
-- that a segment takes at the paced bandwidth, and the bound on the data in flight as a word of 32
-- bits.
pub record Floats : Type 0 where
  pub cwnd : ℕ → ℕ → ℕ → ℕ
  pub pace : ℕ → ℕ → ℕ → ℕ
  pub bdp : ℕ → ℕ → ℕ
