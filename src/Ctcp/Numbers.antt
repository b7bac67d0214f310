-- ===== src/Ctcp/Numbers.antt =====
-- The segments that a connection holds: what an acknowledgement takes away, and their numbers.
use mathlib.Core.Path.{subst}
use mini_internet_computer_n.Base.{
  ℕ, zero, suc, ◌+◌, ◌-◌, ◌%◌, ◌^◌, ◌<◌, ◌≡◌, ◌⊎◌, refl, ap, sym, inl, inr, Bool, true, false, ◌&&◌,
  Bool-cases, Option, none, some, List, [], ◌∷◌, ◌++◌, arith, ltb, ltb→lt, length, if◌then◌else◌,
}
use mini_internet_computer_n.Bbr.{Bbr}
use mini_internet_computer_n.Bbr.Ack.{acknowledged}
use mini_internet_computer_n.Ctcp.Segment.{CtcpSegment}
use mini_internet_computer_n.Ctcp.State.{SegmentInfo, CtcpState, Run, ok, exited, fault, ◌>>=◌}
use mini_internet_computer_n.Ctcp.Window.Order.{queue, segments, ctcp_send_sliding_window-queue}
use mini_internet_computer_n.Ctcp.Window.Frame.{
  Untouched, Untouched-refl, Untouched-trans, ctcp_send_sliding_window-Untouched,
}
use mini_internet_computer_n.Ctcp.Receive.{
  FreedNext, old_successor, null_pointer, undefined_read, shows_successor, read_freed, Platform,
  ack_front, ack_loop, ack_segments, released, refilled, after_ack,
}

-- `r` drops segments below `ackno` from the front of `q`.
pub data Drops (ackno : ℕ) : List CtcpSegment → List CtcpSegment → Type 0 where
  kept : (q : List CtcpSegment) → Drops ackno q q
  front :
      {s : CtcpSegment} {q r : List CtcpSegment}
      → s.seqno < ackno
      → Drops ackno q r
      → Drops ackno (s ∷ q) r

-- The numbers of the segments follow each other from `a` to `b`.
abbrev pub Numbered : ℕ → List CtcpSegment → ℕ → Type 0
Numbered a [] b = a ≡ b
Numbered a (s ∷ q) b = (s.seqno ≡ a) × Numbered ((a + length s.payload) % 2 ^ 32) q b

pub Numbered-append :
    (a b c : ℕ) (q r : List CtcpSegment) → Numbered a q b → Numbered b r c → Numbered a (q ++ r) c
Numbered-append a b c [] r h g = subst (λ t. Numbered t r c) (sym h) g
Numbered-append a b c (s ∷ q) r h g =
    (h.0, Numbered-append ((a + length s.payload) % 2 ^ 32) b c q r h.1 g)

-- What is left of a run of numbers starts at another number.
Numbered-Drops :
    {k : ℕ} {q r : List CtcpSegment}
    → Drops k q r
    → (a b : ℕ) → Numbered a q b
    → (c : ℕ) × Numbered c r b
Numbered-Drops (kept q) a b h = (a, h)
Numbered-Drops (front {s = s} below d) a b h =
    Numbered-Drops d ((a + length s.payload) % 2 ^ 32) b h.1

Drops-front :
    (k : ℕ) (p q q' r : List CtcpSegment) (s : CtcpSegment)
    → p ≡ s ∷ q
    → q' ≡ q
    → s.seqno < k
    → Drops k q' r
    → Drops k p r
Drops-front k p q q' r s e e' below d =
    subst (λ t. Drops k t r) (sym e) (front below (subst (λ t. Drops k t r) e' d))

-- The result, if there is one, satisfies `P`.
abbrev pub OnOk {ℓ κ} : {A : Type ℓ} → Run A → (A → Type κ) → Type κ
OnOk (ok a) P = P a
OnOk exited P = Unit
OnOk fault P = Unit

pub OnOk-bind {ℓ κ μ ν} :
    {A : Type ℓ} {B : Type κ} (P : A → Type μ) (Q : B → Type ν) (m : Run A) (f : A → Run B)
    → OnOk m P
    → ((a : A) → P a → OnOk (f a) Q)
    → OnOk (m >>= f) Q
OnOk-bind P Q (ok a) f h k = k a h
OnOk-bind P Q exited f h k = tt
OnOk-bind P Q fault f h k = tt

pub OnOk-map {ℓ κ μ} :
    {A : Type ℓ} (P : A → Type κ) (Q : A → Type μ) (m : Run A)
    → OnOk m P
    → ((a : A) → P a → Q a)
    → OnOk m Q
OnOk-map P Q (ok a) h k = k a h
OnOk-map P Q exited h k = tt
OnOk-map P Q fault h k = tt

pub OnOk-if {ℓ κ} :
    {A : Type ℓ} (P : A → Type κ) (b : Bool) (x y : Run A)
    → OnOk x P
    → OnOk y P
    → OnOk (if b then x else y) P
OnOk-if P true x y h k = h
OnOk-if P false x y h k = k

-- An acknowledged front segment `i` with `is` behind it is dropped, and the others stay in order.
abbrev pub Popped : CtcpState → List SegmentInfo → CtcpState → Type 0
Popped st is st' = (queue st' ≡ segments is ++ segments st.segs_to_send) × Untouched st st'

-- What the loop goes on with is nothing or the list of unacknowledged segments.
abbrev pub Follows : CtcpState → List SegmentInfo → Type 0
Follows st l = (l ≡ []) ⊎ (st.unacked_segs_with_info ≡ l)

abbrev pub Sheds : ℕ → CtcpState → CtcpState → Type 0
Sheds k st st' = Drops k (queue st) (queue st') × Untouched st st'

pub Sheds-refl : (k : ℕ) (st : CtcpState) → Sheds k st st
Sheds-refl k st = (kept (queue st), Untouched-refl st)

Sheds-Popped :
    (k : ℕ) (st : CtcpState) (i : SegmentInfo) (is : List SegmentInfo)
    → st.unacked_segs_with_info ≡ i ∷ is
    → i.curr_ctcp_segment.seqno < k
    → (st' st'' : CtcpState) → Popped st is st'
    → Sheds k st' st''
    → Sheds k st st''
Sheds-Popped k st i is e below st' st'' p d = (
  Drops-front k (queue st) (segments is ++ segments st.segs_to_send) (queue st') (queue st'')
      i.curr_ctcp_segment (ap (λ r. segments r ++ segments st.segs_to_send) e) p.0 below d.0,
  Untouched-trans st st' st'' p.1 d.1,
)

module _ (pf : Platform) where
  refilled-queue : (st : CtcpState) → queue (refilled pf st) ≡ queue st
  unfolding refilled
  refilled-queue st = elim (Bool-cases (ltb 0 (length st.segs_to_send))) [
    | inl some_left ↦ rw some_left (ctcp_send_sliding_window-queue pf.floats st)
    | inr none_left ↦ rw none_left
  ]

  refilled-Untouched : (st : CtcpState) → Untouched st (refilled pf st)
  unfolding refilled
  refilled-Untouched st = ground (arith, ctcp_send_sliding_window-Untouched pf.floats st)

  after_ack-Popped :
      (st : CtcpState) (i : SegmentInfo) (is : List SegmentInfo) (o : Option Bbr)
      → OnOk (after_ack pf st i is o) (Popped st is)
  unfolding after_ack released
  after_ack-Popped st i is none = tt
  after_ack-Popped st i is (some b) =
      let st' = released pf (record st { unacked_segs_with_info = is }) i b in
      (refilled-queue st', ground (arith, refilled-Untouched st'))

  pub ack_front-Popped :
      (st : CtcpState) (i : SegmentInfo) (is : List SegmentInfo)
      → OnOk (ack_front pf st i is) (Popped st is)
  unfolding ack_front
  ack_front-Popped st i is = after_ack-Popped st i is (
      acknowledged pf.floats.cwnd (st.clock - i.prev_sent_time) i.curr_ctcp_segment.len
        i.is_app_limited st.bbr)

  pub rest-Follows :
      (b : Bool) (st : CtcpState) → Follows st (if b then st.unacked_segs_with_info else [])
  rest-Follows true st = inr refl
  rest-Follows false st = inl refl

  read_freed-OnOk :
      (n : FreedNext) (P : CtcpState → Type 0) (m : Run CtcpState)
      → OnOk m P
      → OnOk (read_freed n m) P
  unfolding read_freed
  read_freed-OnOk old_successor P m h = h
  read_freed-OnOk null_pointer P m h = h
  read_freed-OnOk undefined_read P m h = tt

  ack_loop-Sheds :
      (f k : ℕ) (st : CtcpState) (l : List SegmentInfo)
      → Follows st l
      → OnOk (ack_loop pf f k st l) (Sheds k st)
  unfolding ack_loop
  ack_loop-Sheds zero k st l w = Sheds-refl k st
  ack_loop-Sheds (suc f) k st [] w = Sheds-refl k st
  ack_loop-Sheds (suc f) k st (i ∷ is) (inl e) = cc
  ack_loop-Sheds (suc f) k st (i ∷ is) (inr e) =
      let goes_on = ltb 0 (length is) && shows_successor (pf.lingers i) in
      elim (Bool-cases (ltb i.curr_ctcp_segment.seqno k)) [
        | inr above ↦ rw above (Sheds-refl k st)
        | inl below ↦
            rw (below, ack_loop)
              (OnOk-bind (Popped st is) (Sheds k st) (ack_front pf st i is) _
                (ack_front-Popped st i is)
                (λ st' q.
                  let l = if goes_on then st'.unacked_segs_with_info else [] in
                  read_freed-OnOk (pf.lingers i) (Sheds k st) (ack_loop pf f k st' l) (
                    OnOk-map (Sheds k st') (Sheds k st) (ack_loop pf f k st' l)
                      (ack_loop-Sheds f k st' l (rest-Follows goes_on st'))
                      (λ st'' d.
                        Sheds-Popped k st i is e (ltb→lt i.curr_ctcp_segment.seqno k below) st' st''
                          q d))))
      ]

  pub ack_segments-Sheds : (k : ℕ) (st : CtcpState) → OnOk (ack_segments pf k st) (Sheds k st)
  unfolding ack_segments
  ack_segments-Sheds k st =
      ack_loop-Sheds (length st.unacked_segs_with_info + length st.segs_to_send) k st
        st.unacked_segs_with_info (inr refl)
