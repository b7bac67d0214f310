-- ===== src/Ctcp/Events/Holding.antt =====
-- A connection as a sender: what it holds, against an abstract sender.
use mathlib.Core.Path.{subst}
use mathlib.Core.List.{map, map-append}
use mini_internet_computer_n.Base.{
  ℕ, ◌+◌, ◌%◌, ◌^◌, ◌≡◌, ◌<◌, refl, ap, sym, ◌∙◌, Bool, true, false, List, [], ◌∷◌, ◌++◌, length,
  if◌then◌else◌, ◌&&◌, Bool-cases, inl, inr,
}
use mini_internet_computer_n.Ctcp.Segment.{CtcpSegment}
use mini_internet_computer_n.Ctcp.State.{CtcpState}
use mini_internet_computer_n.Ctcp.Window.Order.{queue}
use mini_internet_computer_n.Ctcp.Numbers.{Drops, kept, front, Numbered, OnOk, OnOk-bind, OnOk-map}
use mini_internet_computer_n.Ctcp.Receive.{Platform, ctcp_receive, ctcp_output}
use mini_internet_computer_n.Ctcp.Receive.Sheds.{
  Steady, Releases, ctcp_receive-Releases, ctcp_output-Steady,
}
use mini_internet_computer_n.Ctcp.Timer.{ctcp_read, timer_round}
use mini_internet_computer_n.Ctcp.Timer.Steady.{
  Extends, ctcp_read-Extends, ctcp_read-eof, timer_round-Steady,
}
use mini_internet_computer_n.Ctcp.Events.{Event, elapse, arrive, input, drained, tick, step, run}

-- A piece of input with its number.
abbrev Item : Type 0
Item = ℕ × List ℕ

-- An abstract sender: the number of the next piece, the pieces that it holds, and whether its input
-- has ended.
pub record Outbox : Type 0 where
  pub next : ℕ
  pub held : List Item
  pub over : Bool

pub numbered_from : ℕ → List (List ℕ) → List Item
numbered_from a [] = []
numbered_from a (d ∷ ds) = (a, d) ∷ numbered_from ((a + length d) % 2 ^ 32) ds

pub number_after : ℕ → List (List ℕ) → ℕ
number_after a [] = a
number_after a (d ∷ ds) = number_after ((a + length d) % 2 ^ 32) ds

abbrev AllBelow : ℕ → List Item → Type 0
AllBelow k [] = Unit
AllBelow k (i ∷ l) = (i.0 < k) × AllBelow k l

abbrev pub IsInput : Event → Type 0
IsInput (elapse d) = ⊥
IsInput (arrive space seg len beyond) = ⊥
IsInput (input pieces ends) = Unit
IsInput (drained space) = ⊥
IsInput tick = ⊥

-- It takes all new pieces at the end, numbered by their lengths, until its input has ended, which it
-- can only do where it is told so. An acknowledgement removes pieces with lower numbers from the
-- front. Nothing else changes it.
pub data Sender : Outbox → Event → Outbox → Type 0 where
  waits : (o : Outbox) (e : Event) → ¬ IsInput e → Sender o e o
  refuses :
      (n : ℕ) (l : List Item) (pieces : List (List ℕ)) (ends : Bool)
      → Sender
          (record { next = n; held = l; over = true })
          (input pieces ends)
          (record { next = n; held = l; over = true })
  takes :
      (n : ℕ) (l : List Item) (pieces : List (List ℕ)) (ends b : Bool)
      → Sender
          (record { next = n; held = l; over = false })
          (input pieces ends)
          (record {
            next = number_after n pieces;
            held = l ++ numbered_from n pieces;
            over = ends && b;
          })
  loses :
      (n : ℕ) (gone l : List Item) (over : Bool) (space : ℕ) (seg : CtcpSegment) (len : ℕ)
      (beyond : List ℕ)
      → AllBelow seg.ackno gone
      → Sender
          (record { next = n; held = gone ++ l; over = over })
          (arrive space seg len beyond)
          (record { next = n; held = l; over = over })

pub data Senders : Outbox → List Event → Outbox → Type 0 where
  stop : (o : Outbox) → Senders o [] o
  then_on :
      {o p q : Outbox} {e : Event} {es : List Event}
      → Sender o e p
      → Senders p es q
      → Senders o (e ∷ es) q

abbrev item : CtcpSegment → Item
item s = (s.seqno, s.payload)

-- What a connection is as a sender.
abbrev pub holding : CtcpState → Outbox
holding st = record { next = st.curr_seqno; held = map item (queue st); over = st.eof_flag }

items-Numbered :
    (a b : ℕ) (q : List CtcpSegment)
    → Numbered a q b
    → (map item q ≡ numbered_from a (map (λ (s : CtcpSegment). s.payload) q))
      × (b ≡ number_after a (map (λ (s : CtcpSegment). s.payload) q))
unfolding numbered_from number_after
items-Numbered a b [] h = (refl, sym h)
items-Numbered a b (s ∷ q) h =
    let rest = items-Numbered ((a + length s.payload) % 2 ^ 32) b q h.1 in
    (rw (h.0, rest.0) refl, rest.1)

-- What is dropped is a part at the front, below the number.
items-Drops :
    (k : ℕ) {q r : List CtcpSegment}
    → Drops k q r
    → (gone : List Item) × (map item q ≡ gone ++ map item r) × AllBelow k gone
items-Drops k (kept q) = ([], refl, tt)
items-Drops k (front {s = s} below d) =
    let rest = items-Drops k d in (item s ∷ rest.0, ap (λ l. item s ∷ l) rest.1, (below, rest.2))

outbox_ext : {o p : Outbox} → o.next ≡ p.next → o.held ≡ p.held → o.over ≡ p.over → o ≡ p
outbox_ext n h b = λ i. record { next = n i; held = h i; over = b i }

Sender-Steady :
    (e : Event) (st st' : CtcpState)
    → ¬ IsInput e
    → Steady st st'
    → Sender (holding st) e (holding st')
Sender-Steady e st st' other h =
    subst (λ (o : Outbox). Sender (holding st) e o)
      (outbox_ext (sym h.1) (ap (map item) (sym h.0)) (sym h.2)) (waits (holding st) e other)

Sender-Extends :
    (st st' : CtcpState) (pieces : List (List ℕ)) (ends b : Bool)
    → st.eof_flag ≡ false
    → st'.eof_flag ≡ (ends && b)
    → Extends st pieces st'
    → Sender (holding st) (input pieces ends) (holding st')
Sender-Extends st st' pieces ends b unended over (q, e, d, n, w) =
    let items = items-Numbered st.curr_seqno st'.curr_seqno q n in
    let added = map item (queue st) ++ numbered_from st.curr_seqno pieces in
    let taken : map item (queue st') ≡ added =
      ap (map item) e
      ∙ map-append item (queue st) q
      ∙ ap (λ l. map item (queue st) ++ l) (items.0 ∙ ap (numbered_from st.curr_seqno) d) in
    subst (λ (o : Outbox). Sender o (input pieces ends) (holding st'))
      (outbox_ext refl refl (sym unended))
      (subst
        (λ (o : Outbox).
          Sender (record { next = st.curr_seqno; held = map item (queue st); over = false })
            (input pieces ends) o)
        (outbox_ext (sym (items.1 ∙ ap (number_after st.curr_seqno) d)) (sym taken) (sym over))
        (takes st.curr_seqno (map item (queue st)) pieces ends b))

Sender-Releases :
    (space : ℕ) (st st' : CtcpState) (seg : CtcpSegment) (len : ℕ) (beyond : List ℕ)
    → Releases seg.ackno st st'
    → Sender (holding st) (arrive space seg len beyond) (holding st')
Sender-Releases space st st' seg len beyond (d, n, o) =
    let gone = items-Drops seg.ackno d in
    subst (λ (o : Outbox). Sender o (arrive space seg len beyond) (holding st'))
      (outbox_ext n (sym gone.1) o)
      (loses st'.curr_seqno gone.0 (map item (queue st')) st'.eof_flag space seg len beyond gone.2)

module _ (pf : Platform) where
  read-over :
      (st : CtcpState) (pieces : List (List ℕ)) (ends : Bool)
      → st.eof_flag ≡ true
      → Sender (holding st) (input pieces ends) (holding (ctcp_read pf st pieces ends))
  unfolding ctcp_read
  read-over st pieces ends over = rw over (refuses st.curr_seqno (map item (queue st)) pieces ends)

  -- Input behind the end adds nothing.
  Sender-read :
      (st : CtcpState) (pieces : List (List ℕ)) (ends : Bool)
      → Sender (holding st) (input pieces ends) (holding (ctcp_read pf st pieces ends))
  Sender-read st pieces ends = elim (Bool-cases st.eof_flag) [
    | inl over ↦ read-over st pieces ends over
    | inr unended ↦
        let (b, e) = ctcp_read-eof pf st pieces ends unended in
        Sender-Extends st (ctcp_read pf st pieces ends) pieces ends b unended e (
          subst (λ (b : Bool). Extends st (if b then [] else pieces) (ctcp_read pf st pieces ends))
            unended (ctcp_read-Extends pf st pieces ends))
  ]

  step-Sender :
      (st : CtcpState) (e : Event)
      → OnOk (step pf st e) (λ st'. Sender (holding st) e (holding st'))
  unfolding step
  step-Sender st (elapse d) = waits (holding st) (elapse d) (λ i. i)
  step-Sender st (arrive space seg len beyond) =
      OnOk-map (Releases seg.ackno st) _ (ctcp_receive pf space st seg len beyond)
        (ctcp_receive-Releases pf space st seg len beyond)
        (λ st' h. Sender-Releases space st st' seg len beyond h)
  step-Sender st (input pieces ends) = Sender-read st pieces ends
  step-Sender st (drained space) =
      OnOk-map (Steady st) _ (ctcp_output pf space st) (ctcp_output-Steady pf space st)
        (λ st' h. Sender-Steady (drained space) st st' (λ i. i) h)
  step-Sender st tick =
      OnOk-map (Steady st) _ (timer_round pf st) (timer_round-Steady pf st)
        (λ st' h. Sender-Steady tick st st' (λ i. i) h)

  -- Whatever happens to a connection, as long as it goes on it holds what an abstract sender holds
  -- after the same events: all pieces of input in their order, until the input has ended, each
  -- numbered by the lengths of those before it, less some at the front that an acknowledgement above
  -- their numbers has removed.
  pub run-Senders :
      (st : CtcpState) (es : List Event)
      → OnOk (run pf st es) (λ st'. Senders (holding st) es (holding st'))
  unfolding run
  run-Senders st [] = stop (holding st)
  run-Senders st (e ∷ es) =
      OnOk-bind (λ st'. Sender (holding st) e (holding st')) _ (step pf st e) _ (step-Sender st e)
        (λ st' h.
          OnOk-map (λ st''. Senders (holding st') es (holding st'')) _ (run pf st' es)
            (run-Senders st' es) (λ st'' hs. then_on h hs))
