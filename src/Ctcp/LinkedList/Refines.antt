-- ===== src/Ctcp/LinkedList/Refines.antt =====
-- The operations of lab3/ctcp_linked_list.c are those of lists.
use mathlib.Core.Path.{subst}
use mini_internet_computer_n.Base.{
  ℕ, ◌+◌, ◌%◌, ◌^◌, ◌<◌, ◌≡◌, ◌≢◌, ◌⊎◌, inl, inr, refl, ap, sym, ◌∙◌, true, false, none, some, List,
  [], ◌∷◌, ◌++◌, arith, ◌==◌, ==_iff, length, length-append,
}
use mini_internet_computer_n.Ctcp.LinkedList.{
  LinkedList, Heap, set_next, set_prev, ◌>>=◌, ll_create_node, ll_add, ll_add_front,
}
use mini_internet_computer_n.Ctcp.LinkedList.Chain.{
  Entry, first, last, Distinct, Chain, Chain-frame, Chain-append, Chain-Absent, Absent-append,
  Distinct-middle, Distinct-snoc, set_next-Chain, set_prev-Chain, store-same, store-other,
}

-- The list holds the entries `l`.
pub record Holds (h : Heap) (list : LinkedList) (l : List Entry) : Type 0 where
  pub front : list.head ≡ first l 0
  pub back : list.tail ≡ last 0 l
  pub counted : list.length ≡ length l
  pub chain : Chain h 0 l 0
  pub distinct : Distinct l

pub last-append : (p : ℕ) (a : List Entry) (e : Entry) → last p (a ++ (e ∷ [])) ≡ e.0
last-append p [] e = refl
last-append p (x ∷ a) e = last-append x.0 a e

abbrev Snoc : List Entry → Type 0
Snoc l = (l ≡ []) ⊎ ((a : List Entry) × (t : Entry) × (l ≡ a ++ (t ∷ [])))

-- A list is empty or has a last entry.
pub snoc : (l : List Entry) → Snoc l
snoc [] = inl refl
snoc (e ∷ l) = elim (snoc l) [
  | inl none_left ↦ inr ([], e, ap (λ r. e ∷ r) none_left)
  | inr (a, t, same) ↦ inr (e ∷ a, t, ap (λ r. e ∷ r) same)
]

pub not_eq-== : (a b : ℕ) → a ≢ b → (a == b) ≡ false
not_eq-== a b h = ground arith

first-ne-zero :
    (h : Heap) (p : ℕ) (a : List Entry) (t : Entry) (n : ℕ)
    → Chain h p (a ++ (t ∷ [])) n
    → first (a ++ (t ∷ [])) 0 ≢ 0
first-ne-zero h p [] t n c = c.0
first-ne-zero h p (e ∷ a) t n c = c.0

pub first-snoc :
    (a : List Entry) (t : Entry) (b : List Entry)
    → first (a ++ (t ∷ [])) 0 ≡ first ((a ++ (t ∷ [])) ++ b) 0
first-snoc [] t b = refl
first-snoc (e ∷ a) t b = refl

module _ (h : Heap) (list : LinkedList) (p object : ℕ) (some_object : object ≢ 0)
    (fresh : h p ≡ none) (some_node : p ≢ 0) where
  created : Heap
  created = ll_create_node h p object

  created-Chain : (q : ℕ) (l : List Entry) (n : ℕ) → Chain h q l n → Chain created q l n
  unfolding created ll_create_node
  created-Chain q l n c =
      Chain-frame h created q l n p
        (store-other h p (record { next = 0; prev = 0; object = object }))
        (Chain-Absent h q l n p c fresh) c

  new-Chain : (q : ℕ) → q ≡ 0 → Chain created q ((p, object) ∷ []) 0
  unfolding created ll_create_node
  new-Chain q e =
      rw e (some_node, store-same h p (record { next = 0; prev = 0; object = object }), tt)

  add-empty :
      Holds h list []
      → (h' : Heap) × (list' : LinkedList) × (ll_add h list p object ≡ some (h', list', p))
        × Holds h' list' ((p, object) ∷ [])
  unfolding ll_add created ll_create_node
  add-empty holds =
      let list' : LinkedList = record { head = p; tail = p; length = (list.length + 1) % 2 ^ 32 } in
      (
        created,
        list',
        (let head : (list.head == 0) ≡ true = (==_iff list.head 0).1 holds.front in
            rw (not_eq-== object 0 some_object) (rw head refl)),
        record {
          front = refl;
          back = refl;
          counted = let c = holds.counted in omega arith;
          chain = new-Chain 0 refl;
          distinct = (tt, tt);
        },
      )

  add-snoc :
      (a : List Entry) (t : Entry)
      → Holds h list (a ++ (t ∷ []))
      → length (a ++ (t ∷ [])) + 1 < 2 ^ 32
      → (h' : Heap) × (list' : LinkedList) × (ll_add h list p object ≡ some (h', list', p))
        × Holds h' list' ((a ++ (t ∷ [])) ++ ((p, object) ∷ []))
  unfolding ll_add created
  add-snoc a t holds room =
      let l = a ++ (t ∷ []) in
      let apart = Distinct-middle a t [] holds.distinct in
      let absent = Chain-Absent h 0 l 0 p holds.chain fresh in
      let (h2, e2, c2, same2) =
        set_next-Chain created 0 a t 0 p (created-Chain 0 l 0 holds.chain) apart.0 in
      let ne : t.0 ≢ p = λ e. (Absent-append p a (t ∷ []) absent).1.0 (sym e) in
      let (h3, e3, c3, same3) =
        set_prev-Chain h2 0 (p, object) [] 0 t.0
          (Chain-frame created h2 0 ((p, object) ∷ []) 0 t.0 same2 (ne, tt) (new-Chain 0 refl))
          tt in
      let list' : LinkedList = record list { tail = p; length = (list.length + 1) % 2 ^ 32 } in
      let tail : list.tail ≡ t.0 = holds.back ∙ last-append 0 a t in
      let head : (list.head == 0) ≡ false =
        not_eq-== list.head 0 (λ e. first-ne-zero h 0 a t 0 holds.chain (sym holds.front ∙ e)) in
      (
        h3,
        list',
        rw (not_eq-== object 0 some_object) (
            rw head (
              ap
                (λ (q : ℕ).
                  set_next created q p >>= λ h'. set_prev h' p q >>= λ h''. some (h'', list', p))
                tail
              ∙ rw e2 (rw e3 refl))),
        record {
          front = holds.front ∙ first-snoc a t ((p, object) ∷ []);
          back = sym (last-append 0 l (p, object));
          counted =
              let c = holds.counted in let n = length-append l ((p, object) ∷ []) in omega arith;
          chain =
              Chain-append h3 0 l ((p, object) ∷ []) 0 (Chain-frame h2 h3 0 l p p same3 absent c2)
                (subst (λ q. Chain h3 q ((p, object) ∷ []) 0) (sym (last-append 0 a t)) c3);
          distinct = Distinct-snoc l (p, object) holds.distinct absent;
        },
      )

  abbrev Added : List Entry → Type 0
  Added l =
      (h' : Heap) × (list' : LinkedList) × (ll_add h list p object ≡ some (h', list', p))
      × Holds h' list' (l ++ ((p, object) ∷ []))

  -- `ll_add` puts the object behind the others, in the new node, and returns this node.
  ll_add-Holds :
      (l : List Entry)
      → Holds h list l
      → length l + 1 < 2 ^ 32
      → (h' : Heap) × (list' : LinkedList) × (ll_add h list p object ≡ some (h', list', p))
        × Holds h' list' (l ++ ((p, object) ∷ []))
  ll_add-Holds l holds room = elim (snoc l) [
    | inl none_left ↦
        subst (λ m. Added m) (sym none_left) (add-empty (subst (Holds h list) none_left holds))
    | inr (a, t, same) ↦
        subst (λ m. Added m) (sym same)
          (add-snoc a t (subst (Holds h list) same holds)
            (subst (λ (m : List Entry). length m + 1 < 2 ^ 32) same room))
  ]

  abbrev Fronted : List Entry → Type 0
  Fronted l =
      (h' : Heap) × (list' : LinkedList) × (ll_add_front h list p object ≡ some (h', list', p))
      × Holds h' list' ((p, object) ∷ l)

  -- `ll_add_front` puts the object before the others, in the new node, and returns this node.
  ll_add_front-Holds : (l : List Entry) → Holds h list l → length l + 1 < 2 ^ 32 → Fronted l
  unfolding ll_add_front created ll_create_node
  ll_add_front-Holds [] holds room =
      let list' : LinkedList = record { head = p; tail = p; length = (list.length + 1) % 2 ^ 32 } in
      let head : (list.head == 0) ≡ true = (==_iff list.head 0).1 holds.front in
      (
        created,
        list',
        rw (not_eq-== object 0 some_object) (rw head refl),
        record {
          front = refl;
          back = refl;
          counted = let c = holds.counted in omega arith;
          chain = new-Chain 0 refl;
          distinct = (tt, tt);
        },
      )
  ll_add_front-Holds (e ∷ b) holds room =
      let absent = Chain-Absent h 0 (e ∷ b) 0 p holds.chain fresh in
      let (h2, e2, c2, same2) =
        set_next-Chain created 0 [] (p, object) 0 list.head (new-Chain 0 refl) tt in
      let (h3, e3, c3, same3) =
        set_prev-Chain h2 0 e b 0 p
          (Chain-frame created h2 0 (e ∷ b) 0 p same2 absent
            (created-Chain 0 (e ∷ b) 0 holds.chain))
          holds.distinct.0 in
      let list' : LinkedList = record list { head = p; length = (list.length + 1) % 2 ^ 32 } in
      let head : (list.head == 0) ≡ false =
        not_eq-== list.head 0 (λ same. holds.chain.0 (sym holds.front ∙ same)) in
      (
        h3,
        list',
        rw (not_eq-== object 0 some_object) (
            rw head (
              rw e2 (
                ap (λ (q : ℕ). set_prev h2 q p >>= λ h'. some (h', list', p)) holds.front
                ∙ rw e3 refl))),
        record {
          front = refl;
          back = holds.back;
          counted = let c = holds.counted in omega arith;
          chain =
              Chain-append h3 0 ((p, object) ∷ []) (e ∷ b) 0
                (Chain-frame h2 h3 0 ((p, object) ∷ []) e.0 e.0 same3
                  ((λ same. absent.0 (sym same)), tt)
                  (subst (λ (q : ℕ). Chain h2 0 ((p, object) ∷ []) q) holds.front c2))
                c3;
          distinct = (absent, holds.distinct);
        },
      )
