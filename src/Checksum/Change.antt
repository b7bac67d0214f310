-- ===== src/Checksum/Change.antt =====
-- A byte of a buffer changes its checksum.
use mini_internet_computer_n.Base.{
  ℕ, zero, suc, ◌+◌, ◌*◌, ◌%◌, ◌<◌, ◌≡◌, ◌≢◌, ◌⊎◌, inl, inr, List, [], ◌∷◌, arith, get_or, set,
  length,
}
use mini_internet_computer_n.Checksum.{AreBytes}
use mini_internet_computer_n.Checksum.Closed.{word_sum}

-- A byte that is set moves the word sum by its difference, or by 256 times that.
word_sum-set :
    (p : List ℕ) (i v : ℕ)
    → i < length p
    → (word_sum (set p i v) + get_or p i 0 * 256 ≡ word_sum p + v * 256)
      ⊎ (word_sum (set p i v) + get_or p i 0 ≡ word_sum p + v)
unfolding word_sum
word_sum-set [] i v h = absurd (omega arith)
word_sum-set (a ∷ []) zero v h = inl (omega arith)
word_sum-set (a ∷ []) (suc i) v h = absurd (omega arith)
word_sum-set (a ∷ b ∷ p) zero v h = inl (omega arith)
word_sum-set (a ∷ b ∷ p) (suc zero) v h = inr (omega arith)
word_sum-set (a ∷ b ∷ p) (suc (suc i)) v h = elim (word_sum-set p i v (omega arith)) [
  | inl e ↦ inl (omega arith)
  | inr e ↦ inr (omega arith)
]

pub AreBytes-set : (p : List ℕ) (i v : ℕ) → AreBytes p → v < 256 → AreBytes (set p i v)
AreBytes-set [] i v a h = a
AreBytes-set (x ∷ p) zero v a h = (h, a.1)
AreBytes-set (x ∷ p) (suc i) v a h = (a.0, AreBytes-set p i v a.1 h)

pub get_or_byte : (p : List ℕ) (i : ℕ) → AreBytes p → get_or p i 0 < 256
get_or_byte [] i a = omega arith
get_or_byte (x ∷ p) zero a = a.0
get_or_byte (x ∷ p) (suc i) a = get_or_byte p i a.1

-- Another byte at one place changes the word sum modulo 65535.
pub word_sum-set_moves :
    (p : List ℕ) (i v : ℕ)
    → AreBytes p
    → i < length p
    → v < 256
    → v ≢ get_or p i 0
    → word_sum (set p i v) % 65535 ≢ word_sum p % 65535
word_sum-set_moves p i v a h k other same =
    let b = get_or_byte p i a in
    other (elim (word_sum-set p i v h) [ inl e ↦ omega arith | inr e ↦ omega arith ])
