-- ===== src/Checksum/Tests.antt =====
-- The checksum on small inputs.
use mini_internet_computer_n.Base.{ℕ, ◌-◌, ◌%◌, ◌≡◌, refl, List, [], ◌∷◌, arith}
use mini_internet_computer_n.Checksum.{swap16, cksum}
use mini_internet_computer_n.Checksum.Closed.{word_sum, cksum_closed}

abbrev three_bytes : List ℕ
three_bytes = 1 ∷ 2 ∷ 3 ∷ []

abbrev four_bytes : List ℕ
four_bytes = 0xff ∷ 0xff ∷ 1 ∷ 2 ∷ []

cksum_odd : cksum three_bytes ≡ 0xfdfb
unfolding cksum
cksum_odd = refl

cksum_closed_example : cksum three_bytes ≡ swap16 (65535 - word_sum three_bytes % 65535)
unfolding word_sum
cksum_closed_example = cksum_closed three_bytes (omega arith)
