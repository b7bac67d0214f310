-- ===== src/Router/Table/Prefix.antt =====
-- Masks of leading ones, as the host words that `lpm` compares.
use native.Mathlib.Decide.{dec_lt}
use native.Mathlib.Nat.{add-zero}
use mini_internet_computer_n.Base.{
  ℕ, zero, suc, ◌+◌, ◌-◌, ◌*◌, ◌/◌, ◌%◌, ◌^◌, ◌≤◌, ◌<◌, ◌≡◌, refl, Bool, true, false, if◌then◌else◌,
  inl, inr, Bool-cases, ◌==◌, some, arith, ltb,
}
use mini_internet_computer_n.Router.State.{SrRt, Sr}
use mini_internet_computer_n.Router.Table.{matches, lpm}
use mini_internet_computer_n.Router.Table.Longest.{In, lpm_bound}

-- The word that a little-endian host loads from the four bytes of `v` in network order.
abbrev swap32 : ℕ → ℕ
swap32 v = v / 2 ^ 24 + 2 ^ 8 * (v / 2 ^ 16 % 256) + 2 ^ 16 * (v / 2 ^ 8 % 256) + 2 ^ 24 * (v % 256)

-- The mask of a prefix of `k` bits, `k` up to 32, as `s_addr` holds it.
unfoldable pub netmask : ℕ → ℕ
netmask k = swap32 (2 ^ 32 - 2 ^ (32 - k))

-- Each of the first `n` masks is below the next one.
masks_grow : ℕ → Bool
masks_grow zero = true
masks_grow (suc n) = if ltb (netmask n) (netmask (n + 1)) then masks_grow n else false

netmask_table : masks_grow 32 ≡ true
unfolding masks_grow netmask
netmask_table = refl

grow-step : (k n : ℕ) → k < n → masks_grow n ≡ true → netmask k < netmask (k + 1)
unfolding masks_grow
grow-step k zero below h = absurd (omega arith)
grow-step k (suc n) below h = elim (Bool-cases (k == n)) [
  | inl last ↦ ground arith
  | inr before ↦ grow-step k n (ground arith) (ground arith)
]

netmask-step : (k : ℕ) → k < 32 → netmask k < netmask (k + 1)
netmask-step k below = grow-step k 32 below netmask_table

netmask_mono_add : (d k : ℕ) → k + d ≤ 32 → netmask k + d ≤ netmask (k + d)
netmask_mono_add zero k h = rw (add-zero, add-zero) (omega arith)
netmask_mono_add (suc d) k h =
    let e : k + suc d ≡ (k + d) + 1 = omega arith in
    rw e (omega (arith, netmask-step (k + d) (omega arith), netmask_mono_add d k (omega arith)))

-- A longer prefix has the greater mask word.
netmask-lt : (j k : ℕ) → j < k → k ≤ 32 → netmask j < netmask k
netmask-lt j k h b =
    let e : k ≡ j + (k - j) = omega arith in
    rw e (omega (arith, netmask_mono_add (k - j) j (omega arith)))

-- In a table of prefixes no matching entry has a longer prefix than the one that `lpm` returns.
pub lpm_longest_prefix :
    (sr : Sr) (ip : ℕ) (e f : SrRt) (j k : ℕ)
    → lpm sr ip ≡ some e
    → In f sr.routing_table
    → matches ip f ≡ true
    → e.mask ≡ netmask j
    → f.mask ≡ netmask k
    → k ≤ 32
    → k ≤ j
lpm_longest_prefix sr ip e f j k found i m p q b =
    let bound = lpm_bound sr ip e f found i m in
    elim (dec_lt j k) [ yes h ↦ absurd (omega (arith, netmask-lt j k h b)) | no h ↦ omega arith ]
