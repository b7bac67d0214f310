-- ===== src/Checksum.antt =====
-- `cksum` of lab1/router/sr_utils.c, which lab3/ctcp_utils.c repeats, over the bytes that it reads.
pub mod Fold
pub mod Closed
pub mod Change
mod Tests
use mini_internet_computer_n.Base.{
  ℕ, zero, suc, ◌+◌, ◌-◌, ◌*◌, ◌/◌, ◌%◌, ◌^◌, ◌<◌, List, [], ◌∷◌, ltb, ◌==◌, if◌then◌else◌,
}

-- A `uint8_t` buffer: every element is a byte.
abbrev pub AreBytes : List ℕ → Type 0
AreBytes [] = Unit
AreBytes (b ∷ d) = (b < 256) × AreBytes d

-- `htons` and `ntohs` on the little-endian hosts that the build is for: the two bytes swapped.
abbrev pub swap16 : ℕ → ℕ
swap16 v = v % 256 * 256 + v / 256 % 256

-- The first loop. `sum` is a `uint32_t`; an odd last byte is the high half of its word.
pub sum_words : ℕ → List ℕ → ℕ
sum_words s [] = s
sum_words s (a ∷ []) = (s + a * 256) % 2 ^ 32
sum_words s (a ∷ b ∷ d) = sum_words ((s + (a * 256 + b)) % 2 ^ 32) d

-- The second loop, `while (sum > 0xffff)`, on fuel.
pub fold_carry : ℕ → ℕ → ℕ
fold_carry zero s = s
fold_carry (suc f) s =
    let rest = fold_carry f (s / 65536 + s % 65536) in if ltb 65535 s then rest else s

-- `htons` takes the low sixteen bits of `~sum`.
unfoldable pub cksum : List ℕ → ℕ
unfolding sum_words fold_carry
cksum d =
    let sum = swap16 ((2 ^ 32 - 1 - fold_carry 3 (sum_words 0 d)) % 65536) in
    if sum == 0 then 65535 else sum
