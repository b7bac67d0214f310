-- ===== src/Ctcp/LinkedList/Chain.antt =====
-- The nodes of a linked list of lab3, as a chain on the heap.
use mini_internet_computer_n.Base.{
  ℕ, ◌≡◌, ◌≢◌, refl, ap, sym, ◌∙◌, Option, none, some, List, [], ◌∷◌, ◌++◌, arith, ==_refl,
}
use mini_internet_computer_n.Ctcp.LinkedList.{LlNode, Heap, store, free, set_next, set_prev}

-- A node's pointer, and the object that it holds.
abbrev pub Entry : Type 0
Entry = ℕ × ℕ

abbrev pub first : List Entry → ℕ → ℕ
first [] n = n
first (e ∷ l) n = e.0

abbrev pub last : ℕ → List Entry → ℕ
last p [] = p
last p (e ∷ l) = last e.0 l

abbrev pub Absent : ℕ → List Entry → Type 0
Absent p [] = Unit
Absent p (e ∷ l) = (p ≢ e.0) × Absent p l

abbrev pub Distinct : List Entry → Type 0
Distinct [] = Unit
Distinct (e ∷ l) = Absent e.0 l × Distinct l

-- The nodes of `l`, between the nodes `p` and `n`, are linked in both directions.
abbrev pub Chain : Heap → ℕ → List Entry → ℕ → Type 0
Chain h p [] n = Unit
Chain h p (e ∷ l) n =
    (e.0 ≢ 0)
    × (h e.0 ≡ some (record { next = first l n; prev = p; object = e.1 }))
    × Chain h e.0 l n

-- What is stored elsewhere does not matter.
pub Chain-frame :
    (h h' : Heap) (p : ℕ) (l : List Entry) (n q : ℕ)
    → ((r : ℕ) → q ≢ r → h' r ≡ h r)
    → Absent q l
    → Chain h p l n
    → Chain h' p l n
Chain-frame h h' p [] n q same a c = tt
Chain-frame h h' p (e ∷ l) n q same a c =
    (c.0, same e.0 a.0 ∙ c.1, Chain-frame h h' e.0 l n q same a.1 c.2)

pub store-other : (h : Heap) (p : ℕ) (n : LlNode) (r : ℕ) → p ≢ r → store h p n r ≡ h r
unfolding store
store-other h p n r e = ground arith

pub store-same : (h : Heap) (p : ℕ) (n : LlNode) → store h p n p ≡ some n
unfolding store
store-same h p n = rw (==_refl p)

pub free-other : (h : Heap) (p r : ℕ) → p ≢ r → free h p r ≡ h r
unfolding free
free-other h p r e = ground arith

first-append : (a b : List Entry) (n : ℕ) → first (a ++ b) n ≡ first a (first b n)
first-append [] b n = refl
first-append (e ∷ a) b n = refl

linked :
    (e : Entry) (p : ℕ) {m n : ℕ}
    → m ≡ n
    → ◌≡◌ {A = Option LlNode}
        (some (record { next = m; prev = p; object = e.1 }))
        (some (record { next = n; prev = p; object = e.1 }))
linked e p h = ap (λ (k : ℕ). some (record { next = k; prev = p; object = e.1 })) h

pub Chain-append :
    (h : Heap) (p : ℕ) (a b : List Entry) (n : ℕ)
    → Chain h p a (first b n)
    → Chain h (last p a) b n
    → Chain h p (a ++ b) n
Chain-append h p [] b n c d = d
Chain-append h p (e ∷ a) b n c d =
    (c.0, c.1 ∙ linked e p (sym (first-append a b n)), Chain-append h e.0 a b n c.2 d)

pub Chain-split :
    (h : Heap) (p : ℕ) (a b : List Entry) (n : ℕ)
    → Chain h p (a ++ b) n
    → Chain h p a (first b n) × Chain h (last p a) b n
Chain-split h p [] b n c = (tt, c)
Chain-split h p (e ∷ a) b n c =
    let rest = Chain-split h e.0 a b n c.2 in
    ((c.0, c.1 ∙ linked e p (first-append a b n), rest.0), rest.1)

-- A pointer that leads to no node is not among the nodes.
pub Chain-Absent :
    (h : Heap) (p : ℕ) (l : List Entry) (n q : ℕ) → Chain h p l n → h q ≡ none → Absent q l
Chain-Absent h p [] n q c e = tt
Chain-Absent h p (x ∷ l) n q c e =
    (λ same. absurd (none_some (sym e ∙ ap h same ∙ c.1)), Chain-Absent h x.0 l n q c.2 e)
  where
    none_some : {n : LlNode} → ◌≡◌ {A = Option LlNode} none (some n) → ⊥
    none_some e = ground arith

pub Absent-append : (p : ℕ) (a b : List Entry) → Absent p (a ++ b) → Absent p a × Absent p b
Absent-append p [] b h = (tt, h)
Absent-append p (e ∷ a) b h = let rest = Absent-append p a b h.1 in ((h.0, rest.0), rest.1)

pub Absent-join : (p : ℕ) (a b : List Entry) → Absent p a → Absent p b → Absent p (a ++ b)
Absent-join p [] b h k = k
Absent-join p (e ∷ a) b h k = (h.0, Absent-join p a b h.1 k)

pub Distinct-middle :
    (a : List Entry) (e : Entry) (b : List Entry)
    → Distinct (a ++ (e ∷ b))
    → Absent e.0 a × Absent e.0 b × Distinct (a ++ b)
Distinct-middle [] e b d = (tt, d.0, d.1)
Distinct-middle (x ∷ a) e b d =
    let rest = Distinct-middle a e b d.1 in
    let apart = Absent-append x.0 a (e ∷ b) d.0 in
    (
      (λ same. apart.1.0 (sym same), rest.0),
      rest.1,
      (Absent-join x.0 a b apart.0 apart.1.1, rest.2),
    )

pub Distinct-snoc :
    (a : List Entry) (e : Entry) → Distinct a → Absent e.0 a → Distinct (a ++ (e ∷ []))
Distinct-snoc [] e d h = (tt, tt)
Distinct-snoc (x ∷ a) e d h =
    (Absent-join x.0 a (e ∷ []) d.0 ((λ same. h.0 (sym same)), tt), Distinct-snoc a e d.1 h.1)

-- Bending the forward pointer of the last node.
pub set_next-Chain :
    (h : Heap) (p : ℕ) (a : List Entry) (t : Entry) (n v : ℕ)
    → Chain h p (a ++ (t ∷ [])) n
    → Absent t.0 a
    → (h' : Heap) × (set_next h t.0 v ≡ some h')
      × Chain h' p (a ++ (t ∷ [])) v
      × ((r : ℕ) → t.0 ≢ r → h' r ≡ h r)
unfolding set_next
set_next-Chain h p a t n v c apart =
    let (before, back) = Chain-split h p a (t ∷ []) n c in
    let node : LlNode = record { next = v; prev = last p a; object = t.1 } in
    let h' = store h t.0 node in
    (
      h',
      rw (back.1, set_next) refl,
      Chain-append h' p a (t ∷ []) v
          (Chain-frame h h' p a t.0 t.0 (store-other h t.0 node) apart before)
          (back.0, store-same h t.0 node, tt),
      store-other h t.0 node,
    )

-- Bending the backward pointer of the first node.
pub set_prev-Chain :
    (h : Heap) (p : ℕ) (e : Entry) (b : List Entry) (n v : ℕ)
    → Chain h p (e ∷ b) n
    → Absent e.0 b
    → (h' : Heap) × (set_prev h e.0 v ≡ some h')
      × Chain h' v (e ∷ b) n
      × ((r : ℕ) → e.0 ≢ r → h' r ≡ h r)
unfolding set_prev
set_prev-Chain h p e b n v c apart =
    let node : LlNode = record { next = first b n; prev = v; object = e.1 } in
    let h' = store h e.0 node in
    (
      h',
      rw (c.1, set_prev) refl,
      (c.0, store-same h e.0 node, Chain-frame h h' e.0 b n e.0 (store-other h e.0 node) apart c.2),
      store-other h e.0 node,
    )
