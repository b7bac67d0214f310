-- ===== src/Checksum/Fold.antt =====
-- The loop `while (sum > 0xffff)` of `cksum`, on its fuel.
use mini_internet_computer_n.Base.{
  ℕ, zero, suc, ◌+◌, ◌/◌, ◌%◌, ◌^◌, ◌≤◌, ◌<◌, ◌≡◌, ◌⊎◌, inl, inr, arith,
}
use mini_internet_computer_n.Checksum.{fold_carry}

-- One round keeps the residue.
round_mod : (s : ℕ) → (s / 65536 + s % 65536) % 65535 ≡ s % 65535
round_mod s = omega arith

fold_carry-mod : (f s : ℕ) → fold_carry f s % 65535 ≡ s % 65535
unfolding fold_carry
fold_carry-mod zero s = omega arith
fold_carry-mod (suc f) s = ground (arith, fold_carry-mod f (s / 65536 + s % 65536), round_mod s)

fold_carry-pos : (f s : ℕ) → 0 < s → 0 < fold_carry f s
unfolding fold_carry
fold_carry-pos zero s h = h
fold_carry-pos (suc f) s h = ground (arith, fold_carry-pos f (s / 65536 + s % 65536))

-- Nothing is left to fold.
fold_carry_small : (f s : ℕ) → s ≤ 65535 → fold_carry f s ≡ s
unfolding fold_carry
fold_carry_small zero s h = omega arith
fold_carry_small (suc f) s h = ground arith

fold_carry_two : (f s : ℕ) → s ≤ 131070 → (fold_carry (suc f) s ≤ 65535)
unfolding fold_carry
fold_carry_two f s h = ground (arith, fold_carry_small f (s / 65536 + s % 65536))

-- From any 32-bit sum the loop stops after at most two rounds, at a 16-bit value.
fold_carry_bounded : (f s : ℕ) → s < 2 ^ 32 → fold_carry (suc (suc f)) s ≤ 65535
unfolding fold_carry
fold_carry_bounded f s h = ground (arith, fold_carry_two f (s / 65536 + s % 65536))

-- Zero stays zero, and another multiple of 65535 becomes 65535.
pub fold_carry_value :
    (s : ℕ)
    → s < 2 ^ 32
    → (fold_carry 3 s ≡ s % 65535) ⊎ ((fold_carry 3 s ≡ 65535) × (s % 65535 ≡ 0))
fold_carry_value s h =
    let b = fold_carry_bounded 1 s h in
    let m = fold_carry-mod 3 s in
    elim (last (fold_carry 3 s) b) [ inl p ↦ inl (omega arith) | inr p ↦ inr (p, omega arith) ]
  where
    last : (x : ℕ) → x ≤ 65535 → (x < 65535) ⊎ (x ≡ 65535)
    last x h = grind arith
