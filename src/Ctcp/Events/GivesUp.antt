-- ===== src/Ctcp/Events/GivesUp.antt =====
-- A connection whose peer is silent: the retransmissions of `ctcp_timer` of lab3/ctcp.c come to an
-- end.
use mathlib.Core.Path.{subst}
use mini_internet_computer_n.Base.{
  ℕ, ◌+◌, ◌<◌, ◌≤◌, ◌≡◌, ◌⊎◌, inl, inr, refl, sym, ◌∙◌, Bool-cases, List, [], ◌∷◌, arith, leb,
  length, if◌then◌else◌,
}
use mini_internet_computer_n.Ctcp.State.{
  CtcpConfig, SegmentInfo, CtcpState, Run, ok, exited, fault, ◌>>=◌,
}
use mini_internet_computer_n.Ctcp.Receive.{Platform, ctcp_destroy}
use mini_internet_computer_n.Ctcp.Timer.{
  filter_elapsed, filter_expired, retransmit, resent_info, resent_state, retransmit_loop, teardown,
  timer_round, max_num_retransmit,
}
use mini_internet_computer_n.Ctcp.Events.{Event, elapse, tick, step, run}

-- What the loop needs of the state, which the loop itself leaves alone.
record SameClock (s t : CtcpState) : Type 0 where
  now : t.clock ≡ s.clock
  config : t.connect_config ≡ s.connect_config

SameClock-trans : (s t u : CtcpState) → SameClock s t → SameClock t u → SameClock s u
SameClock-trans s t u a b = ground arith

filter-SameClock : (st : CtcpState) → SameClock st (filter_expired (filter_elapsed st))
unfolding filter_expired filter_elapsed
filter-SameClock st = ground arith

filter-unacked :
    (st : CtcpState)
    → (filter_expired (filter_elapsed st)).unacked_segs_with_info ≡ st.unacked_segs_with_info
unfolding filter_expired filter_elapsed
filter-unacked st = ground arith

resent-SameClock : (st : CtcpState) (i : SegmentInfo) → SameClock st (resent_state st i)
unfolding resent_state retransmit
resent-SameClock st i = ground arith

resent_info-late :
    (st : CtcpState) (i : SegmentInfo)
    → i.prev_sent_time + st.connect_config.rt_timeout < st.clock
    → (resent_info st i).curr_num_retransmit < 5
    → ((resent_info st i).prev_sent_time ≡ st.clock)
      × ((resent_info st i).curr_num_retransmit ≡ i.curr_num_retransmit + 1)
unfolding resent_info
resent_info-late st i late few = ground arith

module _ (pf : Platform) where
  -- The connection is torn down: a client exits, a server uses it after it is freed.
  abbrev pub ended {ℓ} : {A : Type ℓ} → Run A
  ended = if pf.is_server then fault else exited

  destroy-bind {ℓ} :
      {A : Type ℓ} (st : CtcpState) (f : CtcpState → Run A) → (ctcp_destroy pf st >>= f) ≡ ended
  unfolding ctcp_destroy
  destroy-bind st f = elim (Bool-cases pf.is_server) [
    | inl server ↦ rw server
    | inr client ↦ rw client
  ]

  ended-bind {ℓ κ} : {A : Type ℓ} {B : Type κ} (f : A → Run B) → (ended {A = A} >>= f) ≡ ended
  ended-bind f = elim (Bool-cases pf.is_server) [ inl server ↦ rw server | inr client ↦ rw client ]

  -- The run ends, or goes on with `P`.
  abbrev EndsOr {ℓ κ} : {A : Type ℓ} → Run A → (A → Type κ) → Type (ℓ ⊔ κ)
  EndsOr {A = A} m P = (m ≡ ended) ⊎ ((a : A) × (m ≡ ok a) × P a)

  EndsOr-bind {ℓ κ μ ν} :
      {A : Type ℓ} {B : Type κ} (P : A → Type μ) (Q : B → Type ν) (m : Run A) (f : A → Run B)
      → EndsOr m P
      → ((a : A) → P a → EndsOr (f a) Q)
      → EndsOr (m >>= f) Q
  EndsOr-bind P Q m f (inl e) k = inl (rw e (ended-bind f))
  EndsOr-bind P Q m f (inr (a, e, p)) k = rw e (k a p)

  -- What the loop leaves of a list with `i` in front.
  abbrev Retried : CtcpState → SegmentInfo → CtcpState × List SegmentInfo → Type 0
  Retried st i r =
      SameClock st r.0
      × (is : List SegmentInfo) × (r.1 ≡ resent_info st i ∷ is)
      × ((resent_info st i).curr_num_retransmit < 5)

  loop-Retried :
      (st : CtcpState) (i : SegmentInfo) (is : List SegmentInfo)
      → EndsOr (retransmit_loop pf (resent_state st i) is) (λ r. SameClock (resent_state st i) r.0)
      → EndsOr (retransmit_loop pf st (i ∷ is)) (Retried st i)
  unfolding retransmit_loop
  loop-Retried st i is rest =
      elim (Bool-cases (leb max_num_retransmit (resent_info st i).curr_num_retransmit)) [
        | inl tired ↦ inl (rw tired (destroy-bind (resent_state st i) _))
        | inr fresh ↦ rw fresh (
            EndsOr-bind (λ r. SameClock (resent_state st i) r.0) (Retried st i)
              (retransmit_loop pf (resent_state st i) is) (λ r. ok (r.0, resent_info st i ∷ r.1))
              rest
              (λ r same. inr (
                (r.0, resent_info st i ∷ r.1),
                refl,
                (
                  SameClock-trans st (resent_state st i) r.0 (resent-SameClock st i) same,
                  r.1,
                  refl,
                  ground arith,
                ),
              )))
      ]

  loop-EndsOr :
      (st : CtcpState) (l : List SegmentInfo)
      → EndsOr (retransmit_loop pf st l) (λ r. SameClock st r.0)
  unfolding retransmit_loop
  loop-EndsOr st [] = inr ((st, []), refl, ground arith)
  loop-EndsOr st (i ∷ is) = elim (loop-Retried st i is (loop-EndsOr (resent_state st i) is)) [
    | inl e ↦ inl e
    | inr (r, e, p) ↦ inr (r, e, p.0)
  ]

  -- The front segment behind a round in which it is overdue.
  abbrev Tried : CtcpState → SegmentInfo → CtcpState → Type 0
  Tried st i st' =
      (st'.clock ≡ st.clock)
      × (st'.connect_config ≡ st.connect_config)
      × (i' : SegmentInfo) × (is : List SegmentInfo) × (st'.unacked_segs_with_info ≡ i' ∷ is)
      × (i'.prev_sent_time ≡ st.clock)
      × (i'.curr_num_retransmit ≡ i.curr_num_retransmit + 1)
      × (i'.curr_num_retransmit < 5)

  teardown-busy :
      (st : CtcpState) (i : SegmentInfo) (is : List SegmentInfo)
      → st.unacked_segs_with_info ≡ i ∷ is
      → teardown pf st ≡ ok st
  unfolding teardown
  teardown-busy st i is e = ground arith

  loop-front :
      (st : CtcpState) (i : SegmentInfo) (is l : List SegmentInfo)
      → l ≡ i ∷ is
      → EndsOr (retransmit_loop pf st l) (Retried st i)
  loop-front st i is l e =
      subst (λ l. EndsOr (retransmit_loop pf st l) (Retried st i)) (sym e)
        (loop-Retried st i is (loop-EndsOr (resent_state st i) is))

  round-Tried :
      (st : CtcpState) (i : SegmentInfo) (is : List SegmentInfo)
      → st.unacked_segs_with_info ≡ i ∷ is
      → i.prev_sent_time + st.connect_config.rt_timeout < st.clock
      → EndsOr (timer_round pf st) (Tried st i)
  unfolding timer_round
  round-Tried st i is e late =
      let f = filter_expired (filter_elapsed st) in
      let same = filter-SameClock st in
      let front : f.unacked_segs_with_info ≡ i ∷ is = filter-unacked st ∙ e in
      EndsOr-bind (Retried f i) (Tried st i) (retransmit_loop pf f f.unacked_segs_with_info)
        (λ r. teardown pf (record (r.0) { unacked_segs_with_info = r.1 }))
        (loop-front f i is f.unacked_segs_with_info front)
        (λ r (kept, is', e', few).
          let st' = record (r.0) { unacked_segs_with_info = r.1 } in
          let (prev, more) =
            resent_info-late f i (let c = same.now in let d = same.config in rw (c, d) late) few in
          inr (
            st',
            teardown-busy st' (resent_info f i) is' e',
            (
              kept.now ∙ same.now,
              kept.config ∙ same.config,
              resent_info f i,
              is',
              e',
              prev ∙ same.now,
              more,
              few,
            ),
          ))

  -- The rounds of the timer, each after a time that passes.
  abbrev pub rounds : List ℕ → List Event
  rounds [] = []
  rounds (d ∷ ds) = elapse d ∷ tick ∷ rounds ds

  abbrev AllAbove : ℕ → List ℕ → Type 0
  AllAbove t [] = Unit
  AllAbove t (d ∷ ds) = (t < d) × AllAbove t ds

  -- With an unacknowledged segment in front and a silent peer the connection is torn down within
  -- five rounds of the timer that are each further apart than the timeout, less those that the
  -- segment has been sent again before.
  pub gives_up :
      (ds : List ℕ) (st : CtcpState) (i : SegmentInfo) (is : List SegmentInfo)
      → st.unacked_segs_with_info ≡ i ∷ is
      → i.prev_sent_time ≤ st.clock
      → i.curr_num_retransmit < 5
      → AllAbove st.connect_config.rt_timeout ds
      → 5 ≤ i.curr_num_retransmit + length ds
      → run pf st (rounds ds) ≡ ended
  unfolding run step
  gives_up [] st i is e sent few above enough = absurd (omega arith)
  gives_up (d ∷ ds) st i is e sent few above enough =
      let st' = record st { clock = st.clock + d } in
      elim (round-Tried st' i is e (let a = above.0 in omega arith)) [
        | inl over ↦ rw over (ended-bind (λ st''. run pf st'' (rounds ds)))
        | inr (st'', goes, (now, same, i', is', e', prev, more, few')) ↦ rw goes (
            gives_up ds st'' i' is' e' (omega arith) few'
              (subst (λ (c : CtcpConfig). AllAbove c.rt_timeout ds) (sym same) above.1)
              (omega arith))
      ]
