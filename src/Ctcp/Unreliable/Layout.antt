-- ===== src/Ctcp/Unreliable/Layout.antt =====
-- The bytes of a segment that stand behind its flags.
use mini_internet_computer_n.Base.{
  ℕ, suc, ◌+◌, ◌-◌, ◌*◌, ◌/◌, ◌%◌, ◌^◌, ◌<◌, ◌≤◌, ◌≡◌, refl, ap, ◌∙◌, List, [], ◌∷◌, ◌++◌, arith,
  get_or, set, length,
}
use mini_internet_computer_n.Checksum.{AreBytes, cksum}
use mini_internet_computer_n.Checksum.Closed.{
  word_sum, word_sum_bound, cksum_bounds, cksum_verifies,
}
use mini_internet_computer_n.Ctcp.Segment.{CtcpSegment, put_ctcp, big16, big32, little16, little32}
use mini_internet_computer_n.Ctcp.Unreliable.Corruption.{Fits}
use mini_internet_computer_n.Ctcp.Unreliable.{get_ctcp}

-- The first 16 bytes, and what follows them.
abbrev pub headed : CtcpSegment → List ℕ → List ℕ
headed s t = big32 s.seqno (big32 s.ackno (big16 s.len (little16 s.pad (little32 s.flags t))))

module _ (s : CtcpSegment) where
  pub word_sum-headed : (t : List ℕ) → word_sum (headed s t) ≡ word_sum (headed s []) + word_sum t
  unfolding word_sum
  word_sum-headed t = omega arith

  -- The sum of the header and the data, where the checksum is right.
  pub word_sum-checked :
      (d : List ℕ)
      → AreBytes d
      → length d < 60000
      → s.sum ≡ cksum (put_ctcp (record s { sum = 0 }) d)
      → word_sum (put_ctcp s d) % 65535 ≡ 0
  unfolding word_sum
  word_sum-checked d a h e =
      let b = word_sum_bound d a in
      let small : word_sum (put_ctcp (record s { sum = 0 }) d) < 2 ^ 32 = omega arith in
      omega (
        arith,
        cksum_bounds (put_ctcp (record s { sum = 0 }) d) small,
        cksum_verifies (put_ctcp (record s { sum = 0 }) d) small,
      )

  -- The segment that the bytes are.
  unfoldable pub read_back : ℕ → ℕ → ℕ → ℕ → List ℕ → CtcpSegment
  read_back a b c e r = record s { window = a * 256 + b; sum = c + e * 256; payload = r }

  pub get_ctcp-headed :
      (a b c e : ℕ) (r : List ℕ)
      → Fits s
      → get_ctcp (headed s (a ∷ b ∷ c ∷ e ∷ r)) ≡ read_back a b c e r
  unfolding get_ctcp read_back
  get_ctcp-headed a b c e r fits =
      let n : (s.seqno / 16777216 % 256 * 256 + s.seqno / 65536 % 256) * 65536
            + (s.seqno / 256 % 256 * 256 + s.seqno % 256)
          ≡ s.seqno =
        omega (arith, fits.seqno) in
      let k : (s.ackno / 16777216 % 256 * 256 + s.ackno / 65536 % 256) * 65536
            + (s.ackno / 256 % 256 * 256 + s.ackno % 256)
          ≡ s.ackno =
        omega (arith, fits.ackno) in
      let l : s.len / 256 % 256 * 256 + s.len % 256 ≡ s.len = omega (arith, fits.len) in
      let p : s.pad % 256 + s.pad / 256 % 256 * 256 ≡ s.pad = omega (arith, fits.pad) in
      let f : s.flags % 256
            + s.flags / 256 % 256 * 256
            + (s.flags / 65536 % 256 + s.flags / 16777216 % 256 * 256) * 65536
          ≡ s.flags =
        omega (arith, fits.flags) in
      rw (n, k, l, p, f) refl

  pub put_ctcp-read_back :
      (a b c e : ℕ) (r : List ℕ)
      → a < 256
      → b < 256
      → c < 256
      → e < 256
      → put_ctcp (read_back a b c e r) r ≡ headed s (a ∷ b ∷ c ∷ e ∷ r)
  unfolding read_back
  put_ctcp-read_back a b c e r h1 h2 h3 h4 =
      let x : (a * 256 + b) / 256 % 256 ≡ a = omega arith in
      let y : (a * 256 + b) % 256 ≡ b = omega arith in
      let z : (c + e * 256) % 256 ≡ c = omega arith in
      let w : (c + e * 256) / 256 % 256 ≡ e = omega arith in rw (x, y, z, w) refl

set-append : (h t : List ℕ) (j v : ℕ) → set (h ++ t) (length h + j) v ≡ h ++ set t j v
set-append [] t j v = ap (λ (i : ℕ). set t i v) (omega arith)
set-append (x ∷ h) t j v =
    ap (λ (i : ℕ). set (x ∷ (h ++ t)) i v)
      (let e : suc (length h) + j ≡ suc (length h + j) = omega arith in e)
    ∙ ap (λ l. x ∷ l) (set-append h t j v)

-- A byte behind the flags is set in what follows them.
pub set-headed :
    (s : CtcpSegment) (t : List ℕ) (i v : ℕ)
    → 16 ≤ i
    → set (headed s t) i v ≡ headed s (set t (i - 16) v)
set-headed s t i v h =
    ap (λ (k : ℕ). set (headed s t) k v) (omega arith) ∙ set-append (headed s []) t (i - 16) v

get_or-append : (h t : List ℕ) (j : ℕ) → get_or (h ++ t) (length h + j) 0 ≡ get_or t j 0
get_or-append [] t j = ap (λ (i : ℕ). get_or t i 0) (omega arith)
get_or-append (x ∷ h) t j =
    ap (λ (i : ℕ). get_or (x ∷ (h ++ t)) i 0)
      (let e : suc (length h) + j ≡ suc (length h + j) = omega arith in e)
    ∙ get_or-append h t j

pub get_or-headed :
    (s : CtcpSegment) (t : List ℕ) (i : ℕ) → 16 ≤ i → get_or (headed s t) i 0 ≡ get_or t (i - 16) 0
get_or-headed s t i h =
    ap (λ (k : ℕ). get_or (headed s t) k 0) (omega arith) ∙ get_or-append (headed s []) t (i - 16)
