-- ===== src/Ctcp/Output/Closes.antt =====
-- What `conn_drain` of lab3/ctcp_sys_internal.c does to a connection that has nothing to output.
use mini_internet_computer_n.Base.{ℕ, ◌≡◌, ap, true, false, not, ◌&&◌, List, [], arith, leb}
use mini_internet_computer_n.Ctcp.State.{CtcpState, OutputBuffer, no_buffer, ok, ◌>>=◌}
use mini_internet_computer_n.Ctcp.Receive.{Platform, ctcp_output, flush, flushed}
use mini_internet_computer_n.Ctcp.Output.{
  Conn, Write, count, conn_bufspace, conn_output, drain_loop, drain_queue, buffer_bytes, output_on,
  conn_drain,
}

conn_output-empty : (conn : Conn) (w : Write) → (conn_output conn [] w).0.wrote_eof ≡ true
unfolding conn_output
conn_output-empty conn w = ground arith

conn_output-closed :
    (conn : Conn) (buf : List ℕ) (w : Write)
    → conn.wrote_eof ≡ true
    → conn_output conn buf w ≡ (conn, count 0)
unfolding conn_output
conn_output-closed conn buf w e = ground arith

module _ (pf : Platform) where
  -- After a round of `conn_drain` that wrote some of the queue, at a connection that waits for more
  -- data to output, the end of the output is recorded: nothing that is output later is accepted.
  pub drain_closes :
      (conn : Conn) (st : CtcpState) (ws : List Write) (w : Write)
      → conn.wrote_err ≡ false
      → conn.delete_me ≡ false
      → (drain_loop conn.out_queue ws).outputted ≡ true
      → st.output_buffer ≡ no_buffer
      → st.output_len ≡ 0
      → (conn' : Conn) × (st' : CtcpState) × (conn_drain pf conn st ws w ≡ ok (conn', st'))
        × ((buf : List ℕ) (w' : Write) → conn_output conn' buf w' ≡ (conn', count 0))
  unfolding conn_drain output_on ctcp_output flush
  drain_closes conn st ws w err del out idle none =
      let c = drain_queue conn ws in
      let conn' = (conn_output c [] w).0 in
      let goes : (not conn.wrote_err
            && (drain_loop conn.out_queue ws).outputted
            && not conn.delete_me)
          ≡ true =
        ground arith in
      let room : leb st.output_len (conn_bufspace c) ≡ true = ground arith in
      (
        conn',
        flushed pf st [],
        rw goes (
            rw room (
              ap
                (λ (b : OutputBuffer). flush pf st b >>= λ (st' : CtcpState).
                  ok ((conn_output c (buffer_bytes b) w).0, st'))
                idle)),
        λ buf w'. conn_output-closed conn' buf w' (conn_output-empty c w),
      )
