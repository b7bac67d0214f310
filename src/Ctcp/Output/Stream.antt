-- ===== src/Ctcp/Output/Stream.antt =====
-- The output queue of lab3/ctcp_sys_internal.c loses, repeats and reorders nothing.
use mathlib.Core.List.{append_assoc, append-nil}
use mini_internet_computer_n.Base.{
  ℕ, zero, suc, ◌+◌, ◌≤◌, ◌≡◌, refl, ap, sym, ◌∙◌, inl, inr, true, false, Bool-cases, List, [], ◌∷◌,
  ◌++◌, arith, ltb, ◌==◌, take, drop, length, take-append-drop, take_all, length-drop, if_split,
}
use mini_internet_computer_n.Ctcp.Output.{
  Chunk, Conn, Write, wrote, again, failed, Ret, count, error, enqueue_rest, write_first,
  conn_output, conn_bufspace, after_write, drain_loop, drained_conn, drain_queue,
}

-- The bytes in the queue that are not written yet.
unfoldable pub pending : List Chunk → List ℕ
pending [] = []
pending (c ∷ cs) = drop c.used c.buf ++ pending cs

-- All bytes that were taken over, in their order.
abbrev pub content : Conn → List ℕ
content conn = conn.stream ++ pending conn.out_queue

-- The bytes that a call of `conn_output` takes over, by what it returns.
abbrev accepted_of : List ℕ → Ret → List ℕ
accepted_of buf (count n) = take n buf
accepted_of buf error = []

pending-append :
    (cs : List Chunk) (d : List ℕ)
    → pending (cs ++ (record { used = 0; buf = d } ∷ [])) ≡ pending cs ++ d
unfolding pending
pending-append [] d = append-nil d
pending-append (c ∷ cs) d =
    ap (λ l. drop c.used c.buf ++ l) (pending-append cs d)
    ∙ sym (append_assoc (drop c.used c.buf) (pending cs) d)

length-zero : (d : List ℕ) → ltb 0 (length d) ≡ false → d ≡ []
length-zero [] h = refl
length-zero (b ∷ d) h = absurd (ground arith)

enqueue_rest-content :
    (conn : Conn) (d : List ℕ) → content (enqueue_rest conn d) ≡ content conn ++ d
unfolding enqueue_rest
enqueue_rest-content conn d = elim (Bool-cases (ltb 0 (length d))) [
  | inl some_left ↦ rw some_left (
      ap (λ l. conn.stream ++ l) (pending-append conn.out_queue d)
      ∙ sym (append_assoc conn.stream (pending conn.out_queue) d))
  | inr none_left ↦
      rw none_left
        (sym (ap (λ l. content conn ++ l) (length-zero d none_left) ∙ append-nil (content conn)))
]

drop-nil : (n : ℕ) → drop {A = ℕ} n [] ≡ []
drop-nil zero = refl
drop-nil (suc n) = refl

drop-drop : (m n : ℕ) (l : List ℕ) → drop n (drop m l) ≡ drop (m + n) l
drop-drop zero n l = ap (λ (k : ℕ). drop k l) (let e : n ≡ 0 + n = omega arith in e)
drop-drop (suc m) n [] = drop-nil n ∙ sym (drop-nil (suc m + n))
drop-drop (suc m) n (x ∷ l) =
    drop-drop m n l
    ∙ ap (λ (k : ℕ). drop k (x ∷ l)) (let e : suc (m + n) ≡ suc m + n = omega arith in e)

join : (s t d p buf : List ℕ) → p ≡ [] → t ++ d ≡ buf → ((s ++ t) ++ p) ++ d ≡ (s ++ p) ++ buf
join s t d p buf e h =
    rw (e, append-nil (s ++ t), append-nil s, append_assoc s t d) (ap (λ l. s ++ l) h)

write_first-content :
    (conn : Conn) (buf : List ℕ) (w : Write)
    → conn.out_queue ≡ []
    → content (write_first conn buf w).0
      ≡ content conn ++ accepted_of buf (write_first conn buf w).1
unfolding write_first pending
write_first-content conn buf (wrote n) e =
    enqueue_rest-content (record conn { stream = conn.stream ++ take n buf }) (drop n buf)
    ∙ join conn.stream (take n buf) (drop n buf) (pending conn.out_queue) (take (length buf) buf)
        (ap pending e) (take-append-drop n buf ∙ sym (take_all (length buf) buf (omega arith)))
write_first-content conn buf again e =
    enqueue_rest-content conn buf
    ∙ ap (λ l. content conn ++ l) (sym (take_all (length buf) buf (omega arith)))
write_first-content conn buf failed e = sym (append-nil (content conn))

length-chunks-zero : (cs : List Chunk) → (length cs == 0) ≡ true → cs ≡ []
length-chunks-zero [] h = refl
length-chunks-zero (c ∷ cs) h = absurd (ground arith)

-- What `conn_output` says that it took over, and nothing else, is added behind what was taken over
-- before.
conn_output-content :
    (conn : Conn) (buf : List ℕ) (w : Write)
    → content (conn_output conn buf w).0
      ≡ content conn ++ accepted_of buf (conn_output conn buf w).1
unfolding conn_output
conn_output-content conn buf w =
    let nothing = sym (append-nil (content conn)) in
    let whole = ap (λ l. content conn ++ l) (sym (take_all (length buf) buf (omega arith))) in
    let P = λ (r : Conn × Ret). content r.0 ≡ content conn ++ accepted_of buf r.1 in
    if_split P conn.wrote_eof _ _ (λ e. nothing)
      (λ e.
        if_split P (length buf == 0) _ _ (λ e. nothing)
          (λ e.
            if_split P conn.wrote_err _ _ (λ e. nothing)
              (λ e.
                if_split P (conn_bufspace conn == 0) _ _ (λ e. nothing)
                  (λ e.
                    if_split P (length conn.out_queue == 0) _ _
                      (λ e. write_first-content conn buf w (length-chunks-zero conn.out_queue e))
                      (λ e. enqueue_rest-content conn buf ∙ whole)))))

-- The loop of `conn_drain` only moves bytes from the queue to the stream.
drain_loop-pending :
    (cs : List Chunk) (ws : List Write)
    → (drain_loop cs ws).taken ++ pending (drain_loop cs ws).left ≡ pending cs
unfolding drain_loop after_write pending
drain_loop-pending [] ws = refl
drain_loop-pending (c ∷ cs) [] = refl
drain_loop-pending (c ∷ cs) (again ∷ ws) = refl
drain_loop-pending (c ∷ cs) (failed ∷ ws) = refl
drain_loop-pending (c ∷ cs) (wrote n ∷ ws) = elim (Bool-cases (ltb (c.used + n) (length c.buf))) [
  | inl part ↦
      let d = drop c.used c.buf in
      rw part (
        sym (append_assoc (take n d) (drop (c.used + n) c.buf) (pending cs))
        ∙ ap (λ l. l ++ pending cs)
            (ap (λ l. take n d ++ l) (sym (drop-drop c.used n c.buf)) ∙ take-append-drop n d))
  | inr all ↦
      let d = drop c.used c.buf in
      let rest = drain_loop cs ws in
      let long : length c.buf ≤ c.used + n = ground arith in
      rw all (
        append_assoc (take n d) rest.taken (pending rest.left)
        ∙ ap (λ l. l ++ (rest.taken ++ pending rest.left))
            (take_all n d (omega (arith, length-drop c.used c.buf)))
        ∙ ap (λ l. d ++ l) (drain_loop-pending cs ws))
]

-- A round of `conn_drain` keeps the bytes that were taken over, and their order.
drained_conn-content :
    (conn : Conn) (ws : List Write)
    → content (drained_conn conn (drain_loop conn.out_queue ws)) ≡ content conn
unfolding drained_conn
drained_conn-content conn ws =
    let d = drain_loop conn.out_queue ws in
    append_assoc conn.stream d.taken (pending d.left)
    ∙ ap (λ l. conn.stream ++ l) (drain_loop-pending conn.out_queue ws)

-- What happens to the output: a call of `conn_output`, or a round of `conn_drain`.
pub data Use : Type 0 where
  output : List ℕ → Write → Use
  drain : List Write → Use

unfoldable pub used_by : Conn → Use → Conn
used_by conn (output buf w) = (conn_output conn buf w).0
used_by conn (drain ws) = drain_queue conn ws

abbrev accepted_by : Conn → Use → List ℕ
accepted_by conn (output buf w) = accepted_of buf (conn_output conn buf w).1
accepted_by conn (drain ws) = []

-- The connection behind a sequence of uses, and what was accepted in them.
unfoldable pub uses : Conn → List Use → Conn
uses conn [] = conn
uses conn (u ∷ us) = uses (used_by conn u) us

unfoldable pub accepted_in : Conn → List Use → List ℕ
accepted_in conn [] = []
accepted_in conn (u ∷ us) = accepted_by conn u ++ accepted_in (used_by conn u) us

used_by-content :
    (conn : Conn) (u : Use) → content (used_by conn u) ≡ content conn ++ accepted_by conn u
unfolding used_by drain_queue
used_by-content conn (output buf w) = conn_output-content conn buf w
used_by-content conn (drain ws) =
    if_split (λ c. content c ≡ content conn ++ []) conn.wrote_err _ _
      (λ e. sym (append-nil (content conn)))
      (λ e. drained_conn-content conn ws ∙ sym (append-nil (content conn)))

-- Whatever `write` returns and in whatever order output is given and drained, what is written and
-- what still waits are together the bytes that `conn_output` accepted, in their order.
pub uses-content :
    (conn : Conn) (us : List Use) → content (uses conn us) ≡ content conn ++ accepted_in conn us
unfolding uses accepted_in
uses-content conn [] = sym (append-nil (content conn))
uses-content conn (u ∷ us) =
    uses-content (used_by conn u) us
    ∙ ap (λ l. l ++ accepted_in (used_by conn u) us) (used_by-content conn u)
    ∙ append_assoc (content conn) (accepted_by conn u) (accepted_in (used_by conn u) us)
