-- ===== src/Bbr/Startup.antt =====
-- How the startup state measures the growth of the bandwidth.
use native.Mathlib.Nat.{div-eq_of_lt, le-div_iff_mul-le}
use mini_internet_computer_n.Base.{
  ℕ, ◌+◌, ◌-◌, ◌*◌, ◌/◌, ◌%◌, ◌^◌, ◌≤◌, ◌<◌, ◌≡◌, refl, false, arith, ltb, ◌==◌, inl, inr,
  Bool-cases,
}
use mini_internet_computer_n.Bbr.{slow_growth}

-- A bandwidth `a2` of at least `a0` counts as slow growth exactly when it is below twice `a0`, where
-- the comment in the code says 25 percent.
slow_growth_doubles :
    (a0 a2 : ℕ) → 0 < a0 → a0 ≤ a2 → a2 < 2 ^ 32 → slow_growth a0 a2 ≡ ltb a2 (2 * a0)
unfolding slow_growth
slow_growth_doubles a0 a2 pos grew small =
    let diff : (a2 + 2 ^ 32 - a0) % 2 ^ 32 ≡ a2 - a0 = omega arith in
    elim (Bool-cases (ltb a2 (2 * a0))) [
      | inl low ↦ let z : (a2 - a0) / a0 ≡ 0 = div-eq_of_lt (ground arith) in rw (diff, z, low) refl
      | inr high ↦
          let one : 1 ≤ (a2 - a0) / a0 = (le-div_iff_mul-le pos).1 (ground arith) in
          let no : ((a2 - a0) / a0 == 0) ≡ false = ground arith in rw (diff, no, high) refl
    ]

-- A bandwidth `a2` below `a0`, of at most 2 ^ 31, does not count as slow growth: the difference
-- wraps around.
slow_growth_fell : (a0 a2 : ℕ) → a2 < a0 → a0 ≤ 2 ^ 31 → slow_growth a0 a2 ≡ false
unfolding slow_growth
slow_growth_fell a0 a2 fell small =
    let pos : 0 < a0 = omega arith in
    let diff : (a2 + 2 ^ 32 - a0) % 2 ^ 32 ≡ a2 + 2 ^ 32 - a0 = omega arith in
    let one : 1 ≤ (a2 + 2 ^ 32 - a0) / a0 = (le-div_iff_mul-le pos).1 (omega arith) in
    let no : ((a2 + 2 ^ 32 - a0) / a0 == 0) ≡ false = ground arith in rw (diff, no) refl
