-- ===== src/Ctcp/LinkedList/Remove.antt =====
-- `ll_remove` of lab3/ctcp_linked_list.c takes a node out of the list.
use mathlib.Core.Path.{subst}
use mathlib.Core.List.{append_assoc, append-nil}
use mini_internet_computer_n.Base.{
  ℕ, ◌+◌, ◌-◌, ◌%◌, ◌^◌, ◌<◌, ◌≡◌, ◌≢◌, inl, inr, refl, ap, sym, ◌∙◌, true, false, Option, none,
  some, List, [], ◌∷◌, ◌++◌, arith, ◌==◌, ==_iff, ==_refl, if◌then◌else◌, length, length-append,
}
use mini_internet_computer_n.Ctcp.LinkedList.{
  LlNode, LinkedList, Heap, free, set_next, set_prev, ◌>>=◌, unlink, ll_remove,
}
use mini_internet_computer_n.Ctcp.LinkedList.Chain.{
  Entry, first, last, Absent, Distinct, Chain, Chain-frame, Chain-append, Chain-split,
  Absent-append, Absent-join, Absent-join, Distinct-middle, set_next-Chain, set_prev-Chain,
  free-other,
}
use mini_internet_computer_n.Ctcp.LinkedList.Refines.{
  Holds, snoc, last-append, first-snoc, not_eq-==,
}

first-Absent :
    (p : ℕ) (a : List Entry) (t : Entry) → Absent p (a ++ (t ∷ [])) → p ≢ first (a ++ (t ∷ [])) 0
first-Absent p [] t h = h.0
first-Absent p (x ∷ a) t h = h.0

last-Absent : (p q : ℕ) (x : Entry) (b : List Entry) → Absent p (x ∷ b) → p ≢ last q (x ∷ b)
last-Absent p q x [] h = h.0
last-Absent p q x (y ∷ b) h = last-Absent p x.0 y b h.1

last-cons :
    (p : ℕ) (a : List Entry) (x : Entry) (b : List Entry) → last p (a ++ (x ∷ b)) ≡ last x.0 b
last-cons p [] x b = refl
last-cons p (y ∷ a) x b = last-cons y.0 a x b

module _ (h : Heap) (list : LinkedList) (e : Entry) (b : List Entry) where
  -- The node that is removed, behind the nodes `a`.
  abbrev removed : List Entry → LlNode
  removed a = record { next = first b 0; prev = last 0 a; object = e.1 }

  abbrev forward : List Entry → Option (Heap × LinkedList)
  forward a =
      if e.0 == list.head
      then some (h, record list { head = first b 0 })
      else (set_next h (last 0 a) (first b 0) >>= λ h'. some (h', list))

  -- After the first step the nodes before the removed one lead round it.
  abbrev Bent : List Entry → Heap × LinkedList → Type 0
  Bent a r =
      Chain r.0 0 a (first b 0)
      × Chain r.0 e.0 b 0
      × (r.1.head ≡ first (a ++ b) 0)
      × (r.1.tail ≡ list.tail)
      × (r.1.length ≡ list.length)

  forward-empty : Holds h list (e ∷ b) → (r : Heap × LinkedList) × (forward [] ≡ some r) × Bent [] r
  forward-empty holds =
      let r : Heap × LinkedList = (h, record list { head = first b 0 }) in
      let same : (e.0 == list.head) ≡ true = (==_iff e.0 list.head).1 (sym holds.front) in
      (r, rw same refl, (tt, holds.chain.2, refl, refl, refl))

  forward-snoc :
      (a : List Entry) (t : Entry)
      → Holds h list ((a ++ (t ∷ [])) ++ (e ∷ b))
      → (r : Heap × LinkedList) × (forward (a ++ (t ∷ [])) ≡ some r) × Bent (a ++ (t ∷ [])) r
  forward-snoc a t holds =
      let l = a ++ (t ∷ []) in
      let (before, behind) = Chain-split h 0 l (e ∷ b) 0 holds.chain in
      let apart =
        Distinct-middle a t (e ∷ b)
          (subst Distinct (append_assoc a (t ∷ []) (e ∷ b)) holds.distinct) in
      let (h1, e1, c1, same1) = set_next-Chain h 0 a t e.0 (first b 0) before apart.0 in
      let away = Distinct-middle l e b holds.distinct in
      let head : list.head ≡ first l 0 = holds.front ∙ sym (first-snoc a t (e ∷ b)) in
      let ne : (e.0 == list.head) ≡ false =
        not_eq-== e.0 list.head (λ same. first-Absent e.0 a t away.0 (same ∙ head)) in
      (
        (h1, list),
        rw ne (
            ap (λ (q : ℕ). set_next h q (first b 0) >>= λ h'. some (h', list)) (last-append 0 a t)
            ∙ rw e1 refl),
        (
          c1,
          Chain-frame h h1 e.0 b 0 t.0 same1 apart.1.1 behind.2,
          head ∙ first-snoc a t b,
          refl,
          refl,
        ),
      )

  abbrev backward : List Entry → Heap × LinkedList → Option (Heap × LinkedList)
  backward a r =
      if e.0 == list.tail
      then some (r.0, record (r.1) { tail = last 0 a })
      else (set_prev (r.0) (first b 0) (last 0 a) >>= λ h'. some (h', r.1))

  -- After both steps the chain leads round the removed node.
  abbrev Unlinked : List Entry → Heap × LinkedList → Type 0
  Unlinked a r =
      Chain r.0 0 (a ++ b) 0
      × (r.1.head ≡ first (a ++ b) 0)
      × (r.1.tail ≡ last 0 (a ++ b))
      × (r.1.length ≡ list.length)

-- The second step, where the removed node is the last one, and where nodes stand behind it.
backward-empty :
    (h : Heap) (list : LinkedList) (e : Entry) (a : List Entry) (r : Heap × LinkedList)
    → Holds h list (a ++ (e ∷ []))
    → Bent h list e [] a r
    → (r' : Heap × LinkedList) × (backward h list e [] a r ≡ some r') × Unlinked h list e [] a r'
backward-empty h list e a r holds (before, behind, head, tail, len) =
    let r' : Heap × LinkedList = (r.0, record (r.1) { tail = last 0 a }) in
    let same : (e.0 == list.tail) ≡ true =
      (==_iff e.0 list.tail).1 (sym (holds.back ∙ last-append 0 a e)) in
    (
      r',
      rw same refl,
      (
        subst (λ l. Chain r.0 0 l 0) (sym (append-nil a)) before,
        head,
        ap (last 0) (sym (append-nil a)),
        len,
      ),
    )

backward-cons :
    (h : Heap) (list : LinkedList) (e x : Entry) (b a : List Entry) (r : Heap × LinkedList)
    → Holds h list (a ++ (e ∷ x ∷ b))
    → Bent h list e (x ∷ b) a r
    → (r' : Heap × LinkedList) × (backward h list e (x ∷ b) a r ≡ some r')
      × Unlinked h list e (x ∷ b) a r'
backward-cons h list e x b a r holds (before, behind, head, tail, len) =
    let away = Distinct-middle a e (x ∷ b) holds.distinct in
    let apart =
      Distinct-middle (a ++ (e ∷ [])) x b
        (subst Distinct (sym (append_assoc a (e ∷ []) (x ∷ b))) holds.distinct) in
    let before_x = Absent-append x.0 a (e ∷ []) apart.0 in
    let (h2, e2, c2, same2) = set_prev-Chain r.0 e.0 x b 0 (last 0 a) behind apart.1 in
    let last_tail : list.tail ≡ last 0 (x ∷ b) = holds.back ∙ last-cons 0 a e (x ∷ b) in
    let ne : (e.0 == list.tail) ≡ false =
      not_eq-== e.0 list.tail (λ same. last-Absent e.0 0 x b away.1 (same ∙ last_tail)) in
    (
      (h2, r.1),
      rw ne (rw e2 refl),
      (
        Chain-append h2 0 a (x ∷ b) 0 (Chain-frame r.0 h2 0 a x.0 x.0 same2 before_x.0 before) c2,
        head,
        tail ∙ last_tail ∙ sym (last-cons 0 a x b),
        len,
      ),
    )

module _ (h : Heap) (list : LinkedList) (e : Entry) (a b : List Entry)
    (holds : Holds h list (a ++ (e ∷ b))) where
  bent : (r : Heap × LinkedList) × (forward h list e b a ≡ some r) × Bent h list e b a r
  bent = elim (snoc a) [
    | inl none_left ↦
        subst (λ c. (r : Heap × LinkedList) × (forward h list e b c ≡ some r) × Bent h list e b c r)
          (sym none_left)
          (forward-empty h list e b (subst (λ c. Holds h list (c ++ (e ∷ b))) none_left holds))
    | inr (c, t, same) ↦
        subst (λ c. (r : Heap × LinkedList) × (forward h list e b c ≡ some r) × Bent h list e b c r)
          (sym same)
          (forward-snoc h list e b c t (subst (λ c. Holds h list (c ++ (e ∷ b))) same holds))
  ]

unlinked :
    (h : Heap) (list : LinkedList) (e : Entry) (a b : List Entry) (r : Heap × LinkedList)
    → Holds h list (a ++ (e ∷ b))
    → Bent h list e b a r
    → (r' : Heap × LinkedList) × (backward h list e b a r ≡ some r') × Unlinked h list e b a r'
unlinked h list e a [] r holds bend = backward-empty h list e a r holds bend
unlinked h list e a (x ∷ b) r holds bend = backward-cons h list e x b a r holds bend

-- `ll_remove` takes the node out of the list wherever it stands, keeps the others in their order,
-- frees the node, and returns its object.
pub ll_remove-Holds :
    (h : Heap) (list : LinkedList) (e : Entry) (a b : List Entry)
    → Holds h list (a ++ (e ∷ b))
    → length (a ++ (e ∷ b)) < 2 ^ 32
    → (h' : Heap) × (list' : LinkedList) × (ll_remove h list e.0 ≡ some (h', list', e.1))
      × Holds h' list' (a ++ b)
      × (h' e.0 ≡ none)
unfolding ll_remove unlink free
ll_remove-Holds h list e a b holds room =
    let (before, behind) = Chain-split h 0 a (e ∷ b) 0 holds.chain in
    let (r, goes, bend) = bent h list e a b holds in
    let (r', goes', (chain, head, tail, len)) = unlinked h list e a b r holds bend in
    let away = Distinct-middle a e b holds.distinct in
    let h' = free r'.0 e.0 in
    let list' : LinkedList = record (r'.1) { length = (r'.1.length + 2 ^ 32 - 1) % 2 ^ 32 } in
    (
      h',
      list',
      rw (not_eq-== e.0 0 behind.0) (rw behind.1 (rw goes (rw goes' refl))),
      record {
        front = head;
        back = tail;
        counted =
            let c = holds.counted in
            let n = length-append a (e ∷ b) in let m = length-append a b in omega arith;
        chain =
            Chain-frame r'.0 h' 0 (a ++ b) 0 e.0 (free-other r'.0 e.0)
              (Absent-join e.0 a b away.0 away.1) chain;
        distinct = away.2;
      },
      rw (==_refl e.0),
    )
