-- ===== src/Ctcp/Events/Pieces.antt =====
-- Pieces of data as the segments that a sender makes of them, and the ways in which they arrive.
use mathlib.Core.Path.{subst}
use mini_internet_computer_n.Base.{
  ℕ, ◌+◌, ◌%◌, ◌<◌, ◌≤◌, ◌≡◌, ◌⊎◌, inl, inr, ap, sym, ◌∙◌, false, List, [], ◌∷◌, arith, ◌==◌,
  length,
}
use mini_internet_computer_n.Ctcp.Segment.{CtcpSegment, data_segment, has_fin, received_cksum}
use mini_internet_computer_n.Ctcp.Receive.Cksum.{NoZero, received-data_segment}
use mini_internet_computer_n.Ctcp.Receive.Deliver.{IsSound}
use mini_internet_computer_n.Ctcp.Events.{Event, arrive}

-- A piece of data that is not empty, has no zero byte and fits a segment and the space for output.
pub record IsPiece (space : ℕ) (d : List ℕ) : Type 0 where
  pub clean : NoZero d
  pub some_data : 0 < length d
  pub fits : 20 + length d < 65536
  pub room : length d ≤ space

-- A segment as a sender makes it from such a piece.
pub record IsSent (space : ℕ) (s : CtcpSegment) : Type 0 where
  pub made : s ≡ data_segment s.seqno s.ackno s.window s.payload
  pub piece : IsPiece space s.payload

abbrev pub AllSent : ℕ → List CtcpSegment → Type 0
AllSent space [] = Unit
AllSent space (s ∷ q) = IsSent space s × AllSent space q

abbrev pub payload_of : CtcpSegment → List ℕ
payload_of s = s.payload

abbrev pub bytes : List CtcpSegment → ℕ
bytes [] = 0
bytes (s ∷ q) = length s.payload + bytes q

abbrev Among : CtcpSegment → List CtcpSegment → Type 0
Among s [] = ⊥
Among s (t ∷ l) = (s ≡ t) ⊎ Among s l

-- The segments `l` that arrive are those of `q` in order, where one that came before, or is among
-- `seen`, may come again.
pub data Resent : List CtcpSegment → List CtcpSegment → List CtcpSegment → Type 0 where
  all_came : (seen : List CtcpSegment) → Resent seen [] []
  comes :
      {s : CtcpSegment} {seen q l : List CtcpSegment}
      → Resent (s ∷ seen) q l
      → Resent seen (s ∷ q) (s ∷ l)
  comes_again :
      {seen q l : List CtcpSegment} (s : CtcpSegment)
      → Among s seen
      → Resent seen q l
      → Resent seen q (s ∷ l)

-- A segment arrives in one piece; the byte in memory behind it is zero.
abbrev pub arrival : ℕ → List ℕ → CtcpSegment → Event
arrival space r s = arrive space s (20 + length s.payload) (0 ∷ r)

-- Segments that came have numbers below `a`.
abbrev pub Came : ℕ → ℕ → List CtcpSegment → Type 0
Came space a [] = Unit
Came space a (s ∷ l) = (s.seqno < a) × IsSent space s × Came space a l

pub Came-mono : (space a b : ℕ) (l : List CtcpSegment) → a ≤ b → Came space a l → Came space b l
Came-mono space a b [] h c = tt
Came-mono space a b (s ∷ l) h (below, sent, c) = (omega arith, sent, Came-mono space a b l h c)

pub Came-Among :
    (space a : ℕ) (s : CtcpSegment) (l : List CtcpSegment)
    → Came space a l
    → Among s l
    → (s.seqno < a) × IsSent space s
Came-Among space a s [] c m = absurd m
Came-Among space a s (t ∷ l) (below, sent, c) (inl e) =
    subst (λ u. (u.seqno < a) × IsSent space u) (sym e) (below, sent)
Came-Among space a s (t ∷ l) (below, sent, c) (inr m) = Came-Among space a s l c m

module _ (space : ℕ) (s : CtcpSegment) (r : List ℕ) (sent : IsSent space s) where
  pub sent-len : s.len ≡ 20 + length s.payload
  unfolding data_segment
  sent-len = let fits = sent.piece.fits in ap (λ (t : CtcpSegment). t.len) sent.made ∙ omega arith

  pub sent-fin : has_fin s ≡ false
  unfolding data_segment
  sent-fin = ap (λ (t : CtcpSegment). t.flags % 2 == 1) sent.made

  pub sent-IsSound : IsSound s (20 + length s.payload) (0 ∷ r)
  sent-IsSound = record {
    whole = omega (arith, sent-len);
    intact =
        ap (λ (t : CtcpSegment). t.sum) sent.made
        ∙ sym (
            received-data_segment s.seqno s.ackno s.window s.payload r sent.piece.clean
              sent.piece.fits)
        ∙ ap (λ t. received_cksum t (0 ∷ r)) (sym sent.made);
  }
