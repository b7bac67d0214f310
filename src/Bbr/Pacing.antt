-- ===== src/Bbr/Pacing.antt =====
-- The index of the pacing gain stays within the table.
use mini_internet_computer_n.Base.{
  ℕ, true, ◌*◌, ◌/◌, ◌≤◌, ◌≡◌, refl, Option, none, some, arith, inl, inr, Bool-cases, leb,
}
use mini_internet_computer_n.Bbr.{
  BbrMode, bbr_startup, bbr_drain, bbr_probe_bw, bbr_probe_rtt, Bbr, bbr_update_model,
  bbr_startup_state, bbr_drain_state, bbr_probe_bw_state, bbr_probe_rtt_state, next_pacing, paced,
  rounds_elapsed, starts_drain, mode_handler,
}

-- While the bandwidth is probed the index is one of the table's.
abbrev PacingOk : BbrMode → ℕ → Type 0
PacingOk bbr_startup i = Unit
PacingOk bbr_drain i = Unit
PacingOk bbr_probe_bw i = i ≤ 8
PacingOk bbr_probe_rtt i = Unit

-- A step that is defined ends within the table.
abbrev pub PacesOk : Option Bbr → Type 0
PacesOk none = ⊥
PacesOk (some bbr) = PacingOk bbr.curr_bbr_mode bbr.probe_bw_pacing_idx

module _ (cwnd : ℕ → ℕ → ℕ → ℕ) where
  startup-PacingOk :
      (bbr : Bbr) → bbr.curr_bbr_mode ≡ bbr_startup → PacesOk (some (bbr_startup_state cwnd bbr))
  unfolding bbr_startup_state
  startup-PacingOk bbr m = elim (Bool-cases (starts_drain bbr)) [
    | inl over ↦ rw over tt
    | inr more ↦ rw (more, m) tt
  ]

  drain-PacingOk :
      (bbr : Bbr) → bbr.curr_bbr_mode ≡ bbr_drain → PacesOk (some (bbr_drain_state cwnd bbr))
  unfolding bbr_drain_state
  drain-PacingOk bbr m =
      elim (Bool-cases (leb 4 (rounds_elapsed bbr.rtt_cnt bbr.probe_rtt_round))) [
        | inl over ↦ rw over (omega arith)
        | inr more ↦ rw (more, m) tt
      ]

  probe_rtt-PacingOk :
      (bbr : Bbr)
      → bbr.curr_bbr_mode ≡ bbr_probe_rtt
      → PacesOk (some (bbr_probe_rtt_state cwnd bbr))
  unfolding bbr_probe_rtt_state
  probe_rtt-PacingOk bbr m =
      elim (Bool-cases (leb 4 (rounds_elapsed bbr.rtt_cnt bbr.probe_rtt_round))) [
        | inl over ↦ rw over (omega arith)
        | inr more ↦ rw (more, m) tt
      ]

  paced-PacesOk :
      (bbr : Bbr)
      → bbr.curr_bbr_mode ≡ bbr_probe_bw
      → bbr.probe_bw_pacing_idx ≤ 8
      → PacesOk (paced cwnd bbr)
  unfolding paced
  paced-PacesOk bbr m i =
      let inside : leb bbr.probe_bw_pacing_idx 8 ≡ true = ground arith in rw (inside, m) i

  next_pacing_ok :
      (bbr : Bbr)
      → bbr.curr_bbr_mode ≡ bbr_probe_bw
      → bbr.probe_bw_pacing_idx ≤ 8
      → ((next_pacing cwnd bbr).curr_bbr_mode ≡ bbr_probe_bw)
        × ((next_pacing cwnd bbr).probe_bw_pacing_idx ≤ 8)
  unfolding next_pacing
  next_pacing_ok bbr m i =
      elim (Bool-cases (leb (bbr.btlbw * bbr.rtt_prop / 1000) bbr.probe_bw_data)) [
        | inl over ↦ rw over (m, ground arith)
        | inr more ↦ rw more (m, i)
      ]

  probe_bw-PacesOk :
      (bbr : Bbr)
      → bbr.curr_bbr_mode ≡ bbr_probe_bw
      → bbr.probe_bw_pacing_idx ≤ 8
      → PacesOk (bbr_probe_bw_state cwnd bbr)
  unfolding bbr_probe_bw_state
  probe_bw-PacesOk bbr m i =
      let next = next_pacing_ok bbr m i in paced-PacesOk (next_pacing cwnd bbr) next.0 next.1

  mode_handler-PacesOk :
      (bbr : Bbr) (mode : BbrMode)
      → bbr.curr_bbr_mode ≡ mode
      → PacingOk mode bbr.probe_bw_pacing_idx
      → PacesOk (mode_handler cwnd mode bbr)
  unfolding mode_handler
  mode_handler-PacesOk bbr bbr_startup m ok = startup-PacingOk bbr m
  mode_handler-PacesOk bbr bbr_drain m ok = drain-PacingOk bbr m
  mode_handler-PacesOk bbr bbr_probe_bw m ok = probe_bw-PacesOk bbr m ok
  mode_handler-PacesOk bbr bbr_probe_rtt m ok = probe_rtt-PacingOk bbr m

  -- A step of the model whose pacing index is within the table, if the bandwidth is being probed,
  -- reads no gain out of bounds, and leaves the index within the table if the bandwidth is probed
  -- then.
  pub bbr_update_model-PacesOk :
      (bbr : Bbr)
      → PacingOk bbr.curr_bbr_mode bbr.probe_bw_pacing_idx
      → PacesOk (bbr_update_model cwnd bbr)
  unfolding bbr_update_model
  bbr_update_model-PacesOk bbr ok = mode_handler-PacesOk bbr bbr.curr_bbr_mode refl ok
