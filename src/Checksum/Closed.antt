-- ===== src/Checksum/Closed.antt =====
-- The checksum `cksum` and the sum of the buffer's 16-bit words.
use mathlib.Core.Logic.{◌↔◌}
use mini_internet_computer_n.Base.{
  ℕ, zero, suc, ◌+◌, ◌-◌, ◌*◌, ◌%◌, ◌^◌, ◌≤◌, ◌<◌, ◌≡◌, refl, ap, List, [], ◌∷◌, ◌++◌, arith,
  length, replicate,
}
use mini_internet_computer_n.Checksum.{AreBytes, swap16, sum_words, cksum}
use mini_internet_computer_n.Checksum.Fold.{fold_carry_value}

-- The sum of the big-endian 16-bit words, without bound.
unfoldable pub word_sum : List ℕ → ℕ
word_sum [] = 0
word_sum (a ∷ []) = a * 256
word_sum (a ∷ b ∷ d) = a * 256 + b + word_sum d

pub word_sum_bound : (d : List ℕ) → AreBytes d → word_sum d ≤ length d * 65280
unfolding word_sum
word_sum_bound [] h = omega arith
word_sum_bound (a ∷ []) h = omega arith
word_sum_bound (a ∷ b ∷ d) h = omega (arith, word_sum_bound d h.1.1)

sum_words-eq : (s : ℕ) (d : List ℕ) → s + word_sum d < 2 ^ 32 → sum_words s d ≡ s + word_sum d
unfolding sum_words word_sum
sum_words-eq s [] h = omega arith
sum_words-eq s (a ∷ []) h = omega arith
sum_words-eq s (a ∷ b ∷ d) h =
    omega (arith, sum_words-eq ((s + (a * 256 + b)) % 2 ^ 32) d (omega arith))

-- `cksum` of a buffer whose word sum fits 32 bits is the ones' complement, in network byte order,
-- of the word sum modulo 65535.
pub cksum_closed :
    (d : List ℕ) → word_sum d < 2 ^ 32 → cksum d ≡ swap16 (65535 - word_sum d % 65535)
unfolding cksum
cksum_closed d h = ground (arith, sum_words-eq 0 d, fold_carry_value (word_sum d))

-- The checksum is a nonzero 16-bit value.
pub cksum_bounds : (d : List ℕ) → word_sum d < 2 ^ 32 → (0 < cksum d) × (cksum d ≤ 65535)
cksum_bounds d h = omega (arith, cksum_closed d h)

-- A buffer and its checksum, read in network byte order, add up to a multiple of 65535.
pub cksum_verifies :
    (d : List ℕ) → word_sum d < 2 ^ 32 → (word_sum d + swap16 (cksum d)) % 65535 ≡ 0
cksum_verifies d h = omega (arith, cksum_closed d h)

-- Two buffers pass each other's check exactly when their word sums agree modulo 65535.
cksum_eq_iff :
    (d e : List ℕ)
    → word_sum d < 2 ^ 32
    → word_sum e < 2 ^ 32
    → (cksum d ≡ cksum e) ↔ (word_sum d % 65535 ≡ word_sum e % 65535)
cksum_eq_iff d e h k = (
  λ p. omega (arith, cksum_closed d h, cksum_closed e k),
  λ p. omega (arith, cksum_closed d h, cksum_closed e k),
)

-- An even number of bytes in front adds its own words.
word_sum-append :
    (n : ℕ) (d e : List ℕ) → length d ≡ n + n → word_sum (d ++ e) ≡ word_sum d + word_sum e
unfolding word_sum
word_sum-append n [] e h = omega arith
word_sum-append n (a ∷ []) e h = absurd (omega arith)
word_sum-append n (a ∷ b ∷ d) e h = omega (arith, word_sum-append (n - 1) d e (omega arith))

word_sum-replicate : (n : ℕ) → word_sum (replicate n 0) ≡ 0
unfolding word_sum
word_sum-replicate zero = refl
word_sum-replicate (suc zero) = refl
word_sum-replicate (suc (suc n)) = omega (arith, word_sum-replicate n)

-- Zero bytes after an even number of bytes do not change the checksum.
pub cksum-append_zeros :
    (k n : ℕ) (d : List ℕ)
    → length d ≡ k + k
    → word_sum d < 2 ^ 32
    → cksum (d ++ replicate n 0) ≡ cksum d
cksum-append_zeros k n d e h =
    let s = word_sum-append k d (replicate n 0) e in
    let z = word_sum-replicate n in
    omega (
      arith,
      cksum_closed d h,
      cksum_closed (d ++ replicate n 0) (omega arith),
      ap (λ (w : ℕ). w % 65535) s,
    )
