-- ===== src/Ctcp/Events/Transfer.antt =====
-- From one connection to the other: the segments that a sender holds, given to a receiver.
use mathlib.Core.Path.{subst}
use mathlib.Core.List.{map, reverse, append_assoc, append-nil, reverse-cons}
use mini_internet_computer_n.Base.{
  ℕ, ◌+◌, ◌-◌, ◌^◌, ◌<◌, ◌≡◌, refl, ap, sym, ◌∙◌, Bool, false, ◌&&◌, List, [], ◌∷◌, ◌++◌, arith,
  length, take,
}
use mini_internet_computer_n.Ctcp.Segment.{CtcpSegment}
use mini_internet_computer_n.Ctcp.State.{CtcpConfig, CtcpState, ok}
use mini_internet_computer_n.Ctcp.Numbers.{Numbered}
use mini_internet_computer_n.Ctcp.Receive.{Platform}
use mini_internet_computer_n.Ctcp.Receive.Cksum.{take-length_append}
use mini_internet_computer_n.Ctcp.Receive.Deliver.{receive_new, receive_duplicate}
use mini_internet_computer_n.Bbr.{Bbr}
use mini_internet_computer_n.Ctcp.Window.Order.{queue}
use mini_internet_computer_n.Ctcp.Timer.{ctcp_init, ctcp_read}
use mini_internet_computer_n.Ctcp.Timer.Steady.{AllData, ctcp_read-Extends}
use mini_internet_computer_n.Ctcp.Events.{step, run}
use mini_internet_computer_n.Ctcp.Events.Pieces.{
  IsPiece, IsSent, AllSent, payload_of, bytes, Resent, all_came, comes, comes_again, arrival, Came,
  Came-mono, Came-Among, sent-len, sent-fin, sent-IsSound,
}

-- A receiver that sends nothing, has seen no FIN, and has the data below `a`.
pub record IsReady (a : ℕ) (st : CtcpState) : Type 0 where
  pub acked : st.unacked_segs_with_info ≡ []
  pub open_end : st.fin_flag ≡ false
  pub upto : st.prev_ackno ≡ a

reverse-shift : (d : List ℕ) (ds o : List (List ℕ)) → reverse ds ++ (d ∷ o) ≡ reverse (d ∷ ds) ++ o
reverse-shift d ds o =
    sym (append_assoc (reverse ds) (d ∷ []) o) ∙ ap (λ l. l ++ o) (sym (reverse-cons d ds))

module _ (pf : Platform) (space : ℕ) (r : List ℕ) where
  module _ (a : ℕ) (st : CtcpState) (s : CtcpSegment) (sent : IsSent space s)
      (ready : IsReady a st) where
    still_open : (st.fin_flag && st.eof_flag) ≡ false
    still_open = let e = ready.open_end in ground arith

    -- The next segment.
    arrive_next :
        s.seqno ≡ a
        → a + length s.payload < 2 ^ 32
        → (st' : CtcpState) × (step pf st (arrival space r s) ≡ ok st')
          × IsReady (a + length s.payload) st'
          × (st'.outputs ≡ s.payload ∷ st.outputs)
    unfolding step
    arrive_next next below =
        let len = sent-len space s r sent in
        let some_data = sent.piece.some_data in
        let room = sent.piece.room in
        let upto = ready.upto in
        let (st', e, out, s', ack, is_ack, upto', acked, fin) =
          receive_new pf space st s (20 + length s.payload) (0 ∷ r) (sent-IsSound space s r sent)
            (sent-fin space s r sent) ready.acked still_open (omega arith) (omega arith)
            (omega arith) in
        (
          st',
          e,
          record {
            acked = acked ∙ ready.acked;
            open_end = fin ∙ ready.open_end;
            upto = upto' ∙ omega arith;
          },
          out
              ∙ ap (λ (n : ℕ). take n (s.payload ++ (0 ∷ r)) ∷ st.outputs)
                  (let n : s.len - 20 ≡ length s.payload = omega arith in n)
              ∙ ap (λ d. d ∷ st.outputs) (take-length_append s.payload (0 ∷ r)),
        )

    arrive_again :
        s.seqno < a
        → (st' : CtcpState) × (step pf st (arrival space r s) ≡ ok st')
          × IsReady a st'
          × (st'.outputs ≡ st.outputs)
    unfolding step
    arrive_again old =
        let (st', e, out, ack, upto, curr, acked, fin) =
          receive_duplicate pf space st s (20 + length s.payload) (0 ∷ r)
            (sent-IsSound space s r sent) (sent-fin space s r sent) ready.acked still_open
            (subst (λ (n : ℕ). s.seqno < n) (sym ready.upto) old) in
        (
          st',
          e,
          record {
            acked = acked ∙ ready.acked;
            open_end = fin ∙ ready.open_end;
            upto = upto ∙ ready.upto;
          },
          out,
        )

  -- The segments that a sender makes of pieces of data, in order or with some repeated, arrive at a
  -- receiver with space for each: it goes on, and has output every piece once, in order.
  transfer_once :
      (a b : ℕ) (st : CtcpState) (seen q l : List CtcpSegment)
      → IsReady a st
      → Numbered a q b
      → AllSent space q
      → Came space a seen
      → a + bytes q < 2 ^ 32
      → Resent seen q l
      → (st' : CtcpState) × (run pf st (map (arrival space r) l) ≡ ok st')
        × (st'.outputs ≡ reverse (map payload_of q) ++ st.outputs)
        × (st'.prev_ackno ≡ a + bytes q)
  unfolding run
  transfer_once a b st seen q l ready n w c below (all_came x) =
      (st, refl, refl, let e = ready.upto in omega arith)
  transfer_once a b st seen q l ready n w c below (comes {s = s} {q = q'} {l = l'} more) =
      let (st', e, ready', out) = arrive_next a st s w.0 ready n.0 (omega arith) in
      let a' = a + length s.payload in
      let (st'', e', out', upto) =
        transfer_once a' b st' (s ∷ seen) q' l' ready'
          (subst (λ (m : ℕ). Numbered m q' b) (omega arith) n.1) w.1
          (let some_data = w.0.piece.some_data in
            (omega arith, w.0, Came-mono space a a' seen (omega arith) c))
          (omega arith) more in
      (
        st'',
        rw e e',
        out'
            ∙ ap (λ o. reverse (map payload_of q') ++ o) out
            ∙ reverse-shift s.payload (map payload_of q') st.outputs,
        upto ∙ omega arith,
      )
  transfer_once a b st seen q l ready n w c below (comes_again {l = l'} s m more) =
      let came = Came-Among space a s seen c m in
      let (st', e, ready', out) = arrive_again a st s came.1 ready came.0 in
      let (st'', e', out', upto) = transfer_once a b st' seen q l' ready' n w c below more in
      (st'', rw e e', out' ∙ ap (λ o. reverse (map payload_of q) ++ o) out, upto)

abbrev AllPieces : ℕ → List (List ℕ) → Type 0
AllPieces space [] = Unit
AllPieces space (d ∷ ds) = IsPiece space d × AllPieces space ds

abbrev volume : List (List ℕ) → ℕ
volume [] = 0
volume (d ∷ ds) = length d + volume ds

all_sent :
    (space : ℕ) (q : List CtcpSegment)
    → AllData q
    → AllPieces space (map payload_of q)
    → AllSent space q × (bytes q ≡ volume (map payload_of q))
all_sent space [] w p = (tt, refl)
all_sent space (s ∷ q) w p =
    let rest = all_sent space q w.1 p.1 in
    ((record { made = w.0; piece = p.0 }, rest.0), omega (arith, rest.1))

-- A new connection reads pieces of input, without zero bytes, and its segments arrive at another new
-- connection in order or with some repeated. The other one goes on, and it has output exactly these
-- pieces, each once and in order.
pub transfer :
    (sender receiver : Platform) (space : ℕ) (r : List ℕ) (raw raw' : Bbr) (cfg cfg' : CtcpConfig)
    (now now' : ℕ) (pieces : List (List ℕ)) (ends : Bool) (l : List CtcpSegment)
    → AllPieces space pieces
    → 1 + volume pieces < 2 ^ 32
    → Resent [] (queue (ctcp_read sender (ctcp_init raw cfg now) pieces ends)) l
    → (st' : CtcpState) × (run receiver (ctcp_init raw' cfg' now') (map (arrival space r) l)
        ≡ ok st')
      × (st'.outputs ≡ reverse pieces)
unfolding ctcp_init
transfer sender receiver space r raw raw' cfg cfg' now now' pieces ends l whole below came =
    let st = ctcp_read sender (ctcp_init raw cfg now) pieces ends in
    let (q, e, d, n, w) = ctcp_read-Extends sender (ctcp_init raw cfg now) pieces ends in
    let (sent, size) = all_sent space q w (subst (AllPieces space) (sym d) whole) in
    let (st', goes, out, upto) =
      transfer_once receiver space r 1 st.curr_seqno (ctcp_init raw' cfg' now') [] q l
        (record { acked = refl; open_end = refl; upto = refl }) n sent tt
        (let v : volume (map payload_of q) ≡ volume pieces = ap volume d in omega arith)
        (subst (λ t. Resent [] t l) e came) in
    (st', goes, out ∙ append-nil (reverse (map payload_of q)) ∙ ap reverse d)
