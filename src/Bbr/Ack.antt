-- ===== src/Bbr/Ack.antt =====
-- What an acknowledgement tells the congestion control: the block of `ctcp_receive` of lab3/ctcp.c
-- on `state->bbr`. `max_bw` is set by the first acknowledgement, before it is compared.
use mini_internet_computer_n.Base.{
  ℕ, ◌+◌, ◌-◌, ◌/◌, ◌%◌, ◌^◌, ◌≤◌, ◌<◌, ◌≡◌, Bool, not, true, false, inl, inr, Bool-cases, Option,
  none, some, arith, ltb, ◌==◌, if◌then◌else◌,
}
use mini_internet_computer_n.Bbr.{
  signed_less, widened, BbrMode, bbr_startup, bbr_drain, bbr_probe_bw, bbr_probe_rtt, Bbr,
  bbr_update_bw, bbr_update_model,
}

-- `(mode == BBR_PROBE_BW) ? BBR_STARTUP : mode`.
unfoldable pub restarted : BbrMode → BbrMode
restarted bbr_startup = bbr_startup
restarted bbr_drain = bbr_drain
restarted bbr_probe_bw = bbr_startup
restarted bbr_probe_rtt = bbr_probe_rtt

-- The first assignment goes through `rtt_prop`, an `int32_t`.
unfoldable pub timed : ℕ → Bbr → Bbr
timed rtt bbr =
    if bbr.min_rtt == 2 ^ 64 - 1
    then record bbr { min_rtt = widened (rtt % 2 ^ 32); rtt_prop = rtt % 2 ^ 32 }
    else if not (signed_less bbr.min_rtt rtt)
    then record bbr { min_rtt = rtt; curr_bbr_mode = restarted bbr.curr_bbr_mode }
    else bbr

-- A new maximum is stored in front of the two before it.
unfoldable pub greatest : ℕ → Bbr → Bbr
greatest bandwidth bbr =
    if ltb bbr.max_bw bandwidth
    then record bbr { max_bw = bandwidth; bw2 = bbr.bw1; bw1 = bbr.bw0; bw0 = bandwidth }
    else bbr

unfoldable pub every_tenth : Bbr → Bbr
every_tenth bbr =
    if bbr.rtt_cnt % 10 == 0
    then record bbr { btlbw = if ltb bbr.btlbw bbr.max_bw then bbr.max_bw else bbr.btlbw }
    else bbr

-- `is_app_limited` is the segment's, `len` its length.
unfoldable pub measured : ℕ → ℕ → Bool → Bbr → Option Bbr
measured rtt len is_app_limited bbr =
    if bbr.rtt_cnt == 0
    then elim (bbr_update_bw bbr rtt len) [
      | none ↦ none
      | some (b, bandwidth) ↦ some (record b { max_bw = bandwidth; btlbw = bandwidth })
    ]
    else if is_app_limited
    then some bbr
    else elim (bbr_update_bw bbr rtt len) [
      | none ↦ none
      | some (b, bandwidth) ↦ some (every_tenth (greatest bandwidth b))
    ]

unfoldable pub acknowledged : (ℕ → ℕ → ℕ → ℕ) → ℕ → ℕ → Bool → Bbr → Option Bbr
acknowledged cwnd rtt len is_app_limited bbr =
    elim (measured rtt len is_app_limited (timed rtt bbr)) [
      | none ↦ none
      | some b ↦ bbr_update_model cwnd b
    ]

-- The stored bandwidths fall, and none is above `max_bw`.
pub record Descending (bbr : Bbr) : Type 0 where
  pub newest : bbr.bw0 ≤ bbr.max_bw
  pub middle : bbr.bw1 ≤ bbr.bw0
  pub oldest : bbr.bw2 ≤ bbr.bw1

greatest-Descending :
    (bandwidth : ℕ) (bbr : Bbr) → Descending bbr → Descending (greatest bandwidth bbr)
unfolding greatest
greatest-Descending bandwidth bbr d = elim (Bool-cases (ltb bbr.max_bw bandwidth)) [
  | inl more ↦
      rw more
        (record { newest = omega arith; middle = ground (arith, d.newest); oldest = d.middle })
  | inr same ↦ rw same d
]

every_tenth-Descending : (bbr : Bbr) → Descending bbr → Descending (every_tenth bbr)
unfolding every_tenth
every_tenth-Descending bbr d = elim (Bool-cases (bbr.rtt_cnt % 10 == 0)) [
  | inl due ↦ rw due (record { newest = d.newest; middle = d.middle; oldest = d.oldest })
  | inr early ↦ rw early d
]

abbrev MeasuredOk : Option Bbr → Type 0
MeasuredOk none = ⊥
MeasuredOk (some bbr) = Descending bbr

-- After the first acknowledgement, measuring one with a round-trip time above 0 is defined, and
-- keeps the newest stored bandwidth the greatest, the oldest the least, and none above `max_bw`.
measured-Descending :
    (rtt len : ℕ) (is_app_limited : Bool) (bbr : Bbr)
    → 0 < rtt
    → 0 < bbr.rtt_cnt
    → Descending bbr
    → MeasuredOk (measured rtt len is_app_limited bbr)
unfolding measured bbr_update_bw
measured-Descending rtt len true bbr pos later d =
    let counted : (bbr.rtt_cnt == 0) ≡ false = ground arith in rw counted d
measured-Descending rtt len false bbr pos later d =
    let counted : (bbr.rtt_cnt == 0) ≡ false = ground arith in
    let timed : (rtt == 0) ≡ false = ground arith in
    let b = record bbr { rtt_cnt = (bbr.rtt_cnt + 1) % 2 ^ 32 } in
    rw (counted, timed)
      (every_tenth-Descending (greatest (len / rtt) b) (
        greatest-Descending (len / rtt) b
          (record { newest = d.newest; middle = d.middle; oldest = d.oldest })))
