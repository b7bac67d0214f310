-- ===== src/Ctcp/Output.antt =====
-- The output of a connection: its queue of chunks in lab3/ctcp_sys_internal.c.
pub mod Stream
pub mod Closes
pub mod Space
use mini_internet_computer_n.Base.{
  ℕ, ◌+◌, ◌-◌, Bool, true, false, not, ◌&&◌, ◌||◌, List, [], ◌∷◌, ◌++◌, ltb, leb, ◌==◌,
  if◌then◌else◌, take, drop, length,
}
use mini_internet_computer_n.Ctcp.State.{
  CtcpState, OutputBuffer, no_buffer, held, freed, Run, ok, exited, fault, ◌>>=◌,
}
use mini_internet_computer_n.Ctcp.Receive.{Platform, ctcp_output}

-- `size` is the length of `buf`.
pub record Chunk : Type 0 where
  pub used : ℕ
  pub buf : List ℕ

-- The part of `struct conn` that output concerns. `stream` is what `write` has taken, and `polls` is
-- whether the loop waits for space.
pub record Conn : Type 0 where
  pub wrote_eof : Bool
  pub wrote_err : Bool
  pub delete_me : Bool
  pub out_queue : List Chunk
  pub stream : List ℕ
  pub polls : Bool

-- What `write` returns: the number of bytes that it took, or -1 with `EAGAIN` or another error.
pub data Write : Type 0 where
  wrote : ℕ → Write
  again : Write
  failed : Write

-- What `conn_output` returns.
pub data Ret : Type 0 where
  count : ℕ → Ret
  error : Ret

abbrev max_buf_space : ℕ
max_buf_space = 8192

unfoldable pub queued : List Chunk → ℕ
queued [] = 0
queued (c ∷ cs) = length c.buf - c.used + queued cs

unfoldable pub conn_bufspace : Conn → ℕ
conn_bufspace conn =
    if ltb max_buf_space (queued conn.out_queue) then 0 else max_buf_space - queued conn.out_queue

unfoldable pub conn_remove : Conn → Conn
conn_remove conn = record conn { delete_me = true }

-- The bytes `rest` that were not written are put in the queue.
unfoldable pub enqueue_rest : Conn → List ℕ → Conn
enqueue_rest conn rest =
    let queue =
      if ltb 0 (length rest)
      then conn.out_queue ++ (record { used = 0; buf = rest } ∷ [])
      else conn.out_queue in
    record conn { out_queue = queue; polls = conn.polls || ltb 0 (length queue) }

-- The direct write for an empty queue.
unfoldable pub write_first : Conn → List ℕ → Write → Conn × Ret
write_first conn buf (wrote n) = (
  enqueue_rest (record conn { stream = conn.stream ++ take n buf }) (drop n buf),
  count (length buf),
)
write_first conn buf again = (enqueue_rest conn buf, count (length buf))
write_first conn buf failed = (record conn { wrote_err = true }, error)

-- `w` is what `write` returns, where it is called.
unfoldable pub conn_output : Conn → List ℕ → Write → Conn × Ret
conn_output conn buf w =
    if conn.wrote_eof
    then (conn, count 0)
    else if length buf == 0
    then (record conn { wrote_eof = true }, count 0)
    else if conn.wrote_err
    then (conn, error)
    else if conn_bufspace conn == 0
    then (conn, count 0)
    else if length conn.out_queue == 0
    then write_first conn buf w
    else (enqueue_rest conn buf, count (length buf))

-- What the loop of `conn_drain` leaves.
pub record Drained : Type 0 where
  pub left : List Chunk
  pub taken : List ℕ
  pub outputted : Bool
  pub erred : Bool
  pub stuck : Bool

-- The loop over the chunks. `ws` is what the calls of `write` return; behind the end of the list
-- there is no space.
abbrev stopped : List Chunk → Bool → Drained
stopped cs err = record { left = cs; taken = []; outputted = false; erred = err; stuck = false }

-- The chunk `c` after `n` of its bytes were taken, and what the loop makes of the chunks behind it if
-- it is complete.
unfoldable pub after_write : Chunk → List Chunk → ℕ → Drained → Drained
after_write c cs n rest =
    let taken = take n (drop c.used c.buf) in
    if ltb (c.used + n) (length c.buf)
    then record {
      left = record c { used = c.used + n } ∷ cs;
      taken = taken;
      outputted = true;
      erred = false;
      stuck = true;
    }
    else record rest { taken = taken ++ rest.taken; outputted = true }

unfoldable pub drain_loop : List Chunk → List Write → Drained
drain_loop [] ws = stopped [] false
drain_loop (c ∷ cs) [] = stopped (c ∷ cs) false
drain_loop (c ∷ cs) (again ∷ ws) = stopped (c ∷ cs) false
drain_loop (c ∷ cs) (failed ∷ ws) = stopped (c ∷ cs) true
drain_loop (c ∷ cs) (wrote n ∷ ws) = after_write c cs n (drain_loop cs ws)

unfoldable pub drained_conn : Conn → Drained → Conn
drained_conn conn d = record conn {
  out_queue = d.left;
  stream = conn.stream ++ d.taken;
  polls = d.stuck;
  wrote_err = d.erred || (conn.wrote_eof && length d.left == 0);
}

-- `conn_drain` up to its call of `ctcp_output`.
unfoldable pub drain_queue : Conn → List Write → Conn
drain_queue conn ws =
    if conn.wrote_err
    then record conn { polls = false }
    else drained_conn conn (drain_loop conn.out_queue ws)

-- The bytes that `ctcp_output` hands on.
abbrev pub buffer_bytes : OutputBuffer → List ℕ
buffer_bytes no_buffer = []
buffer_bytes (held b) = b
buffer_bytes freed = []

module _ (pf : Platform) where
  -- `ctcp_output` with its call of `conn_output`, for which `write` returns `w`.
  unfoldable pub output_on : Conn → CtcpState → Write → Run (Conn × CtcpState)
  output_on conn st w = ctcp_output pf (conn_bufspace conn) st >>= λ (st' : CtcpState). ok (
    if leb st.output_len (conn_bufspace conn)
        then (conn_output conn (buffer_bytes st.output_buffer) w).0
        else conn,
    st',
  )

  -- `w` is what `write` returns in `ctcp_output`, if it is called.
  unfoldable pub conn_drain : Conn → CtcpState → List Write → Write → Run (Conn × CtcpState)
  conn_drain conn st ws w =
      let outputted = not conn.wrote_err && (drain_loop conn.out_queue ws).outputted in
      if outputted && not conn.delete_me
      then output_on (drain_queue conn ws) st w
      else ok (drain_queue conn ws, st)
