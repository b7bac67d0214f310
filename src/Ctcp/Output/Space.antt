-- ===== src/Ctcp/Output/Space.antt =====
-- The bound on the output that waits, in lab3/ctcp_sys_internal.c.
use mini_internet_computer_n.Base.{
  ℕ, ◌+◌, ◌≤◌, ◌≡◌, List, [], ◌∷◌, ◌++◌, arith, leb, leb→le, if_split, take, drop, length,
  length-drop,
}
use mini_internet_computer_n.Ctcp.State.{CtcpState, Run, ok, exited, fault}
use mini_internet_computer_n.Ctcp.Numbers.{OnOk, OnOk-bind}
use mini_internet_computer_n.Ctcp.Receive.{Platform, ctcp_output}
use mini_internet_computer_n.Ctcp.Output.{
  Chunk, Conn, Write, wrote, again, failed, queued, conn_bufspace, enqueue_rest, write_first,
  conn_output, buffer_bytes, output_on,
}

queued-append :
    (cs : List Chunk) (d : List ℕ)
    → queued (cs ++ (record { used = 0; buf = d } ∷ [])) ≡ queued cs + length d
unfolding queued
queued-append [] d = omega arith
queued-append (c ∷ cs) d = omega (arith, queued-append cs d)

enqueue_rest-queued :
    (conn : Conn) (d : List ℕ)
    → queued (enqueue_rest conn d).out_queue ≡ queued conn.out_queue + length d
unfolding enqueue_rest
enqueue_rest-queued conn d = ground (arith, queued-append conn.out_queue d)

-- No more than 8192 bytes wait.
abbrev pub Fits : Conn → Type 0
Fits conn = queued conn.out_queue ≤ 8192

write_first-Fits :
    (conn : Conn) (buf : List ℕ) (w : Write)
    → queued conn.out_queue + length buf ≤ 8192
    → Fits (write_first conn buf w).0
unfolding write_first
write_first-Fits conn buf (wrote n) h = omega (
  arith,
  enqueue_rest-queued (record conn { stream = conn.stream ++ take n buf }) (drop n buf),
  length-drop n buf,
)
write_first-Fits conn buf again h = omega (arith, enqueue_rest-queued conn buf)
write_first-Fits conn buf failed h = omega arith

conn_output-Fits :
    (conn : Conn) (buf : List ℕ) (w : Write)
    → Fits conn
    → length buf ≤ conn_bufspace conn
    → Fits (conn_output conn buf w).0
unfolding conn_output conn_bufspace
conn_output-Fits conn buf w h room =
    let space : queued conn.out_queue + length buf ≤ 8192 = ground arith in
    ground (arith, write_first-Fits conn buf w, enqueue_rest-queued conn buf)

OnOk-Unit {ℓ} : {A : Type ℓ} (m : Run A) → OnOk m (λ a. Unit {0})
OnOk-Unit (ok a) = tt
OnOk-Unit exited = tt
OnOk-Unit fault = tt

module _ (pf : Platform) where
  -- `ctcp_output` gives no more to `conn_output` than the space that `conn_bufspace` reports, so that
  -- no more than 8192 bytes wait in the queue if no more waited before.
  pub output_on-Fits :
      (conn : Conn) (st : CtcpState) (w : Write)
      → Fits conn
      → length (buffer_bytes st.output_buffer) ≤ st.output_len
      → OnOk (output_on pf conn st w) (λ r. Fits r.0)
  unfolding output_on
  output_on-Fits conn st w h len =
      OnOk-bind (λ st'. Unit {0}) (λ r. Fits r.0) (ctcp_output pf (conn_bufspace conn) st) _
        (OnOk-Unit (ctcp_output pf (conn_bufspace conn) st))
        (λ st' u.
          if_split Fits (leb st.output_len (conn_bufspace conn)) _ _
            (λ e.
              let room = leb→le st.output_len (conn_bufspace conn) e in
              conn_output-Fits conn (buffer_bytes st.output_buffer) w h (omega arith))
            (λ e. h))
