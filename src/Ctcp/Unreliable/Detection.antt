-- ===== src/Ctcp/Unreliable/Detection.antt =====
-- A receiver finds the bit that `conn_send` flips.
use Prim.Native.Nat.{bit_xor}
use mathlib.Core.Path.{subst}
use mini_internet_computer_n.Base.{
  ℕ, zero, suc, ◌+◌, ◌-◌, ◌/◌, ◌%◌, ◌^◌, ◌<◌, ◌≤◌, ◌≡◌, ◌≢◌, refl, ap, sym, ◌∙◌, inr, Bool, true,
  not, ◌&&◌, List, [], ◌∷◌, ltb, ◌==◌, arith, get_or, set, length, length-set,
}
use mini_internet_computer_n.Checksum.{AreBytes, cksum}
use mini_internet_computer_n.Checksum.Closed.{word_sum}
use mini_internet_computer_n.Checksum.Change.{AreBytes-set, get_or_byte, word_sum-set_moves}
use mini_internet_computer_n.Ctcp.Segment.{
  CtcpSegment, put_ctcp, big16, little16, segment_cksum, received_cksum, data_segment,
}
use mini_internet_computer_n.Ctcp.State.{CtcpState, ok}
use mini_internet_computer_n.Ctcp.Receive.{Platform, ctcp_receive}
use mini_internet_computer_n.Ctcp.Receive.Cksum.{NoZero, received_cksum-zero, segment_cksum-take}
use mini_internet_computer_n.Ctcp.Receive.Deliver.{receive_unsound}
use mini_internet_computer_n.Ctcp.Unreliable.Corruption.{Fits, rand_bit_behind}
use mini_internet_computer_n.Ctcp.Unreliable.Layout.{
  headed, word_sum-headed, word_sum-checked, read_back, get_ctcp-headed, put_ctcp-read_back,
  set-headed, get_or-headed,
}
use mini_internet_computer_n.Ctcp.Unreliable.{get_ctcp, flipped_bytes, flipbit, rand_bit}

-- A test that holds of every number under a bound.
every_under : (ℕ → Bool) → ℕ → Bool
every_under test zero = true
every_under test (suc bound) = every_under test bound && test bound

every_under-at :
    (test : ℕ → Bool) (bound i : ℕ) → i < bound → every_under test bound ≡ true → test i ≡ true
unfolding every_under
every_under-at test zero i below all = absurd (omega arith)
every_under-at test (suc bound) i below all = ground (arith, every_under-at test bound i)

-- Another byte.
abbrev flips : ℕ → ℕ → Bool
flips k b = ltb (bit_xor b (2 ^ k)) 256 && not (bit_xor b (2 ^ k) == b)

flip_table : every_under (λ k. every_under (flips k) 256) 8 ≡ true
unfolding every_under
flip_table = refl

flipped_byte : (b k : ℕ) → b < 256 → k < 8 → (bit_xor b (2 ^ k) < 256) × (bit_xor b (2 ^ k) ≢ b)
flipped_byte b k h l =
    let for_bit = every_under-at (λ k. every_under (flips k) 256) 8 k l flip_table in
    let e : flips k b ≡ true = every_under-at (flips k) 256 b h for_bit in ground arith

module _ (s : CtcpSegment) (r : List ℕ) where
  -- What the receiver's check of a segment says of the segment's bytes.
  Checks : List ℕ → CtcpSegment → Type 0
  Checks t g =
      g.sum ≡ received_cksum g (0 ∷ r) → NoZero g.payload → word_sum (headed s t) % 65535 ≡ 0

  received-Checks :
      (t : List ℕ)
      → AreBytes t
      → 4 ≤ length t
      → length t < 60000
      → Fits s
      → Checks t (get_ctcp (headed s t))
  unfolding Checks read_back
  received-Checks [] h l m fits = absurd (omega arith)
  received-Checks (a ∷ []) h l m fits = absurd (omega arith)
  received-Checks (a ∷ b ∷ []) h l m fits = absurd (omega arith)
  received-Checks (a ∷ b ∷ c ∷ []) h l m fits = absurd (omega arith)
  received-Checks (a ∷ b ∷ c ∷ e ∷ d) (ha, (hb, (hc, (he, hd)))) l m fits =
      subst (Checks (a ∷ b ∷ c ∷ e ∷ d)) (sym (get_ctcp-headed s a b c e d fits)) (λ same clean.
        let g = read_back s a b c e d in
        let sound =
          word_sum-checked g d hd (omega arith)
            (same ∙ received_cksum-zero g d (0 ∷ r) r refl clean (omega arith)) in
        ap (λ p. word_sum p % 65535) (sym (put_ctcp-read_back s a b c e d ha hb hc he)) ∙ sound)

  -- A flipped bit behind the flags is found.
  flipbit-found :
      (bit : ℕ)
      → Fits s
      → 128 ≤ bit
      → bit / 8 < 20 + length s.payload
      → AreBytes s.payload
      → length s.payload < 59996
      → s.sum ≡ cksum (put_ctcp (record s { sum = 0 }) s.payload)
      → NoZero (flipbit s bit).payload
      → (flipbit s bit).sum ≢ received_cksum (flipbit s bit) (0 ∷ r)
  unfolding flipbit flipped_bytes Checks
  flipbit-found bit fits behind inside h m sound clean same =
      let t = big16 s.window (little16 s.sum s.payload) in
      let i = bit / 8 - 16 in
      let bytes : AreBytes t = (omega arith, (omega arith, (omega arith, (omega arith, h)))) in
      let v = bit_xor (get_or (headed s t) (bit / 8) 0) (2 ^ (bit % 8)) in
      let (fits_byte, other) =
        flipped_byte (get_or t i 0) (bit % 8) (get_or_byte t i bytes) (omega arith) in
      let same_v : bit_xor (get_or t i 0) (2 ^ (bit % 8)) ≡ v =
        ap (λ (b : ℕ). bit_xor b (2 ^ (bit % 8)))
          (sym (get_or-headed s t (bit / 8) (omega arith))) in
      let t' = set t i v in
      let flipped = set-headed s t (bit / 8) v (omega arith) in
      let long = length-set t i v in
      let checks =
        received-Checks t' (AreBytes-set t i v bytes (omega arith)) (omega arith) (omega arith)
          fits in
      let checked = subst (λ p. Checks t' (get_ctcp p)) (sym flipped) checks same clean in
      word_sum-set_moves t i v bytes (omega arith) (omega arith) (λ e. other (same_v ∙ e))
        (omega (
          arith,
          checked,
          word_sum-checked s s.payload h (omega arith) sound,
          word_sum-headed s t,
          word_sum-headed s t',
        ))

rand_bit_inside : (len roll : ℕ) → 20 ≤ len → len < 8192 → rand_bit len roll / 8 < len
unfolding rand_bit
rand_bit_inside len roll h k = grind arith

-- A data segment of fewer than 8172 bytes of data, whose numbers fit, is dropped by the receiver when
-- it has been corrupted, whatever bit is drawn, if its data then has no zero byte and a zero stands
-- behind it in memory: nothing is output or acknowledged, and the connection stays as it is.
pub corruption_shed :
    (pf : Platform) (space : ℕ) (st : CtcpState) (n k w : ℕ) (d r : List ℕ) (roll len : ℕ)
    → n < 2 ^ 32
    → k < 2 ^ 32
    → AreBytes d
    → 20 + length d < 8192
    → NoZero (flipbit (data_segment n k w d) (rand_bit (20 + length d) roll)).payload
    → ctcp_receive pf space st
        (flipbit (data_segment n k w d) (rand_bit (20 + length d) roll))
        len
        (0 ∷ r)
      ≡ ok st
unfolding data_segment segment_cksum
corruption_shed pf space st n k w d r roll len hn hk h short clean =
    let s = data_segment n k w d in
    let bit = rand_bit (20 + length d) roll in
    receive_unsound pf space st (flipbit s bit) len (0 ∷ r) (
      inr (
        flipbit-found s r bit
          (record {
            seqno = hn;
            ackno = hk;
            len = omega arith;
            pad = omega arith;
            flags = omega arith;
          })
          (rand_bit_behind (20 + length d) roll (omega arith) short)
          (rand_bit_inside (20 + length d) roll (omega arith) short) h (omega arith)
          (segment_cksum-take (record s { sum = 0 }) d [] (omega arith)) clean))
