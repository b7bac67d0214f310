-- ===== src/Ctcp/Unreliable/Corruption.antt =====
-- What a flipped bit leaves alone.
use mini_internet_computer_n.Base.{
  ℕ, zero, suc, ◌+◌, ◌/◌, ◌^◌, ◌<◌, ◌≤◌, ◌≡◌, refl, List, [], ◌∷◌, arith, get_or, set, length,
  length-set, length-drop,
}
use mini_internet_computer_n.Ctcp.Segment.{CtcpSegment, put_ctcp}
use mini_internet_computer_n.Ctcp.Unreliable.{
  load16, stored16, get_ctcp, flipped_bytes, flipbit, rand_bit,
}

-- The fields fit their types, and the length field counts the data.
pub record Fits (s : CtcpSegment) : Type 0 where
  pub seqno : s.seqno < 2 ^ 32
  pub ackno : s.ackno < 2 ^ 32
  pub len : s.len < 65536
  pub pad : s.pad < 65536
  pub flags : s.flags < 2 ^ 32

get_or-set_below : (p : List ℕ) (i v k : ℕ) → k < i → get_or (set p i v) k 0 ≡ get_or p k 0
get_or-set_below [] i v k h = refl
get_or-set_below (x ∷ p) zero v k h = absurd (omega arith)
get_or-set_below (x ∷ p) (suc i) v zero h = refl
get_or-set_below (x ∷ p) (suc i) v (suc k) h = get_or-set_below p i v k (omega arith)

module _ (p : List ℕ) (bit : ℕ) where
  byte_kept : (k : ℕ) → k < bit / 8 → get_or (flipped_bytes p bit) k 0 ≡ get_or p k 0
  unfolding flipped_bytes
  byte_kept k h = get_or-set_below p (bit / 8) _ k h

  load16_kept : (k : ℕ) → k + 1 < bit / 8 → load16 (flipped_bytes p bit) k ≡ load16 p k
  load16_kept k h = omega (arith, byte_kept k, byte_kept (k + 1))

  stored16_kept : (k : ℕ) → k + 1 < bit / 8 → stored16 (flipped_bytes p bit) k ≡ stored16 p k
  stored16_kept k h = omega (arith, byte_kept k, byte_kept (k + 1))

  length-flipped : length (flipped_bytes p bit) ≡ length p
  unfolding flipped_bytes
  length-flipped = length-set p (bit / 8) _

module _ (s : CtcpSegment) (fits : Fits s) (bit : ℕ) (behind : 128 ≤ bit) where
  -- A bit behind the flags leaves the numbers, the length, the flags and the number of bytes alone.
  flipbit_keeps :
      ((flipbit s bit).seqno ≡ s.seqno)
      × ((flipbit s bit).ackno ≡ s.ackno)
      × ((flipbit s bit).len ≡ s.len)
      × ((flipbit s bit).pad ≡ s.pad)
      × ((flipbit s bit).flags ≡ s.flags)
      × (length (flipbit s bit).payload ≡ length s.payload)
  unfolding flipbit get_ctcp
  flipbit_keeps =
      let p = put_ctcp s s.payload in
      let a = fits.seqno in
      let b = fits.ackno in
      let c = fits.len in
      let d = fits.pad in
      let e = fits.flags in
      (
        omega (arith, load16_kept p bit 0, load16_kept p bit 2),
        omega (arith, load16_kept p bit 4, load16_kept p bit 6),
        omega (arith, load16_kept p bit 8),
        omega (arith, stored16_kept p bit 10),
        omega (arith, stored16_kept p bit 12, stored16_kept p bit 14),
        omega (arith, length-drop 20 (flipped_bytes p bit), length-flipped p bit),
      )

pub rand_bit_behind : (len roll : ℕ) → 20 ≤ len → len < 8192 → 128 ≤ rand_bit len roll
unfolding rand_bit
rand_bit_behind len roll h k = grind arith

-- From 8205 bytes on the bit may be one of the flags.
rand_bit_wraps : (len : ℕ) → 8205 ≤ len → len < 65536 → rand_bit len 65504 ≡ 96
unfolding rand_bit
rand_bit_wraps len h k = grind arith

-- The corruption of a segment whose fields fit their types, of 20 to 8191 bytes, whatever number is
-- drawn, leaves the numbers, the length field, the padding, the flags and the number of bytes of
-- data alone.
corruption_keeps :
    (s : CtcpSegment) (len roll : ℕ)
    → Fits s
    → 20 ≤ len
    → len < 8192
    → let s' : CtcpSegment = flipbit s (rand_bit len roll) in
      (s'.seqno ≡ s.seqno)
      × (s'.ackno ≡ s.ackno)
      × (s'.len ≡ s.len)
      × (s'.pad ≡ s.pad)
      × (s'.flags ≡ s.flags)
      × (length s'.payload ≡ length s.payload)
corruption_keeps s len roll fits h k =
    flipbit_keeps s fits (rand_bit len roll) (rand_bit_behind len roll h k)
