-- ===== src/Ctcp/Receive/Fuel.antt =====
-- The loop of `ctcp_receive` in lab3/ctcp.c over the unacknowledged segments comes to an end.
use mini_internet_computer_n.Base.{
  ℕ, zero, suc, ◌+◌, ◌≤◌, ◌≡◌, refl, ap, sym, ◌∙◌, ◌&&◌, Bool-cases, inl, inr, List, [], ◌∷◌, ◌++◌,
  arith, ltb, length, length-append, length-map,
}
use mini_internet_computer_n.Ctcp.State.{SegmentInfo, CtcpState, Run, ok, exited, fault, ◌>>=◌}
use mini_internet_computer_n.Ctcp.Window.Order.{queue, segments, total}
use mini_internet_computer_n.Ctcp.Numbers.{OnOk, Popped, Follows, ack_front-Popped, rest-Follows}
use mini_internet_computer_n.Ctcp.Receive.{
  Platform, shows_successor, read_freed, ack_front, ack_loop, ack_segments,
}

bind-cong {ℓ κ μ} :
    {A : Type ℓ} {B : Type κ} (P : A → Type μ) (m : Run A) (f g : A → Run B)
    → OnOk m P
    → ((a : A) → P a → f a ≡ g a)
    → (m >>= f) ≡ (m >>= g)
bind-cong P (ok a) f g h k = k a h
bind-cong P exited f g h k = refl
bind-cong P fault f g h k = refl

length-segments : (l m : List SegmentInfo) → length (segments l ++ segments m) ≡ length l + length m
length-segments l m =
    length-append (segments l) (segments m)
    ∙ (let a = length-map l (λ (i : SegmentInfo). i.curr_ctcp_segment) in
        let b = length-map m (λ (i : SegmentInfo). i.curr_ctcp_segment) in omega arith)

total-Popped :
    (st st' : CtcpState) (i : SegmentInfo) (is : List SegmentInfo) (f : ℕ)
    → st.unacked_segs_with_info ≡ i ∷ is
    → queue st' ≡ segments is ++ segments st.segs_to_send
    → total st ≤ suc f
    → total st' ≤ f
total-Popped st st' i is f e q h =
    let front : length st.unacked_segs_with_info ≡ suc (length is) = ap length e in
    let left : total st' ≡ length is + length st.segs_to_send =
      sym (length-segments st'.unacked_segs_with_info st'.segs_to_send)
      ∙ ap length q
      ∙ length-segments is st.segs_to_send in
    omega arith

module _ (pf : Platform) where
  -- One more round of fuel changes nothing where there is fuel for every segment that is held.
  ack_loop-suc :
      (f k : ℕ) (st : CtcpState) (l : List SegmentInfo)
      → Follows st l
      → total st ≤ f
      → ack_loop pf (suc f) k st l ≡ ack_loop pf f k st l
  unfolding ack_loop
  ack_loop-suc zero k st [] w h = refl
  ack_loop-suc (suc f) k st [] w h = refl
  ack_loop-suc f k st (i ∷ is) (inl e) h = cc
  ack_loop-suc zero k st (i ∷ is) (inr e) h = absurd (omega (arith, ap length e))
  ack_loop-suc (suc f) k st (i ∷ is) (inr e) h =
      elim (Bool-cases (ltb i.curr_ctcp_segment.seqno k)) [
        | inr above ↦ rw above
        | inl below ↦ rw below (
            bind-cong (Popped st is) (ack_front pf st i is) _ _ (ack_front-Popped pf st i is)
              (λ st' q.
                let goes_on = ltb 0 (length is) && shows_successor (pf.lingers i) in
                ap (read_freed (pf.lingers i)) (
                  ack_loop-suc f k st' _ (rest-Follows pf goes_on st')
                    (total-Popped st st' i is f e q.0 h))))
      ]

  -- Any fuel beyond the one that `ack_segments` gives the loop has the same result, whatever reading
  -- a freed node gives, undefined behaviour included: the loop ends by its own conditions or there.
  pub ack_loop-enough :
      (n k : ℕ) (st : CtcpState)
      → ack_loop pf (total st + n) k st st.unacked_segs_with_info ≡ ack_segments pf k st
  unfolding ack_segments
  ack_loop-enough zero k st =
      ap (λ (f : ℕ). ack_loop pf f k st st.unacked_segs_with_info)
        (let e : total st + 0 ≡ total st = omega arith in e)
  ack_loop-enough (suc n) k st =
      ap (λ (f : ℕ). ack_loop pf f k st st.unacked_segs_with_info)
        (let e : total st + suc n ≡ suc (total st + n) = omega arith in e)
      ∙ ack_loop-suc (total st + n) k st st.unacked_segs_with_info (inr refl) (omega arith)
      ∙ ack_loop-enough n k st
