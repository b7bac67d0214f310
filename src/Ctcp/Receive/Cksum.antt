-- ===== src/Ctcp/Receive/Cksum.antt =====
-- The checksum that a receiver of lab3 computes over the data that `strlen` measures.
use mini_internet_computer_n.Base.{
  ℕ, suc, ◌+◌, ◌%◌, ◌<◌, ◌≡◌, ◌≢◌, refl, ap, sym, ◌∙◌, List, [], ◌∷◌, ◌++◌, arith, length, take,
}
use mathlib.Core.List.{append_assoc}
use mini_internet_computer_n.Checksum.{cksum}
use mini_internet_computer_n.Ctcp.Segment.{
  CtcpSegment, put_ctcp, strlen, segment_cksum, received_cksum, data_segment,
}

-- No byte is zero.
abbrev pub NoZero : List ℕ → Type 0
NoZero [] = Unit
NoZero (b ∷ d) = (b ≢ 0) × NoZero d

strlen-append_zero : (d r : List ℕ) → NoZero d → strlen (d ++ (0 ∷ r)) ≡ length d
unfolding strlen
strlen-append_zero [] r h = refl
strlen-append_zero (b ∷ d) r h = ground (arith, strlen-append_zero d r h.1)

take-append {ℓ} : {A : Type ℓ} (h r : List A) (n : ℕ) → take (length h + n) (h ++ r) ≡ h ++ take n r
take-append [] r n = ap (λ (m : ℕ). take m r) (omega arith)
take-append (x ∷ h) r n =
    ap (λ (m : ℕ). take m (x ∷ (h ++ r)))
      (let e : suc (length h) + n ≡ suc (length h + n) = omega arith in e)
    ∙ ap (λ l. x ∷ l) (take-append h r n)

pub take-length_append {ℓ} : {A : Type ℓ} (d r : List A) → take (length d) (d ++ r) ≡ d
take-length_append [] r = refl
take-length_append (x ∷ d) r = ap (λ l. x ∷ l) (take-length_append d r)

-- The bytes that are summed up: the header, and the data up to its first zero.
pub segment_cksum-take :
    (s : CtcpSegment) (d r : List ℕ)
    → 20 + length d < 65536
    → cksum (take ((20 + length d) % 65536) (put_ctcp s (d ++ r))) ≡ cksum (put_ctcp s d)
segment_cksum-take s d r h = ap cksum (
    ap (λ n. take n (put_ctcp s (d ++ r))) (omega arith)
    ∙ take-append (put_ctcp s []) (d ++ r) (length d)
    ∙ ap (λ t. put_ctcp s [] ++ t) (take-length_append d r))

-- The checksum over a segment whose data is `d`, with a zero behind it in memory.
pub received_cksum-zero :
    (s : CtcpSegment) (d r e : List ℕ)
    → s.payload ++ r ≡ d ++ (0 ∷ e)
    → NoZero d
    → 20 + length d < 65536
    → received_cksum s r ≡ cksum (put_ctcp (record s { sum = 0 }) d)
unfolding received_cksum segment_cksum
received_cksum-zero s d r e same clean fits =
    let s' = record s { sum = 0 } in
    ap (λ l. cksum (take ((20 + strlen l) % 65536) (put_ctcp s' l))) same
    ∙ ap (λ (n : ℕ). cksum (take ((20 + n) % 65536) (put_ctcp s' (d ++ (0 ∷ e)))))
        (strlen-append_zero d e clean)
    ∙ segment_cksum-take s' d (0 ∷ e) fits

-- A data segment whose bytes are not zero passes the check of the receiver, if a zero stands behind
-- it in memory.
pub received-data_segment :
    (n k w : ℕ) (d r : List ℕ)
    → NoZero d
    → 20 + length d < 65536
    → received_cksum (data_segment n k w d) (0 ∷ r) ≡ (data_segment n k w d).sum
unfolding data_segment segment_cksum
received-data_segment n k w d r clean fits =
    let s = data_segment n k w d in
    received_cksum-zero s d (0 ∷ r) r refl clean fits
    ∙ sym (segment_cksum-take (record s { sum = 0 }) d [] fits)

-- What stands behind the first zero of the data does not count: two segments that differ only there,
-- of whatever length it is, have the same checksum for the receiver.
pub received_cksum_blind :
    (s : CtcpSegment) (d e e' r r' : List ℕ)
    → NoZero d
    → 20 + length d < 65536
    → received_cksum (record s { payload = d ++ (0 ∷ e) }) r
      ≡ received_cksum (record s { payload = d ++ (0 ∷ e') }) r'
received_cksum_blind s d e e' r r' clean fits =
    received_cksum-zero (record s { payload = d ++ (0 ∷ e) }) d r (e ++ r)
      (append_assoc d (0 ∷ e) r) clean fits
    ∙ sym (
        received_cksum-zero (record s { payload = d ++ (0 ∷ e') }) d r' (e' ++ r')
          (append_assoc d (0 ∷ e') r') clean fits)
