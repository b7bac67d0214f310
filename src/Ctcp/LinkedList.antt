-- ===== src/Ctcp/LinkedList.antt =====
-- The linked list of lab3/ctcp_linked_list.c on a heap. A pointer is a number, and 0 the null pointer.
-- The list's own struct is passed by value, so that it is never the null pointer.
pub mod Chain
pub mod Refines
pub mod Remove
pub mod Loops
use mini_internet_computer_n.Base.{
  ℕ, zero, suc, ◌+◌, ◌-◌, ◌%◌, ◌^◌, Bool, true, false, ◌||◌, Option, none, some, List, [], ◌∷◌,
  ◌==◌, if◌then◌else◌,
}

pub record LlNode : Type 0 where
  pub next : ℕ
  pub prev : ℕ
  pub object : ℕ

pub record LinkedList : Type 0 where
  pub head : ℕ
  pub tail : ℕ
  pub length : ℕ

-- The nodes that are allocated.
abbrev pub Heap : Type 0
Heap = ℕ → Option LlNode

unfoldable pub store : Heap → ℕ → LlNode → Heap
store h p n q = if q == p then some n else h q

unfoldable pub free : Heap → ℕ → Heap
free h p q = if q == p then none else h q

-- `p->next = v` and `p->prev = v`. `none` is a pointer that does not lead to a node.
unfoldable pub set_next : Heap → ℕ → ℕ → Option Heap
set_next h p v = elim (h p) [ none ↦ none | some n ↦ some (store h p (record n { next = v })) ]

unfoldable pub set_prev : Heap → ℕ → ℕ → Option Heap
set_prev h p v = elim (h p) [ none ↦ none | some n ↦ some (store h p (record n { prev = v })) ]

infixl 5 ◌>>=◌
abbrev pub ◌>>=◌ {ℓ κ} : {A : Type ℓ} {B : Type κ} → Option A → (A → Option B) → Option B
none >>= f = none
some a >>= f = f a

unfoldable pub ll_create : LinkedList
ll_create = record { head = 0; tail = 0; length = 0 }

-- `p` is what `calloc` returns.
unfoldable pub ll_create_node : Heap → ℕ → ℕ → Heap
ll_create_node h p object = store h p (record { next = 0; prev = 0; object = object })

unfoldable pub ll_add : Heap → LinkedList → ℕ → ℕ → Option (Heap × LinkedList × ℕ)
ll_add h list p object =
    let node = ll_create_node h p object in
    if object == 0
    then some (h, list, 0)
    else if list.head == 0
    then some (node, record { head = p; tail = p; length = (list.length + 1) % 2 ^ 32 }, p)
    else set_next node list.tail p >>= λ h'. set_prev h' p list.tail >>= λ h''.
        some (h'', record list { tail = p; length = (list.length + 1) % 2 ^ 32 }, p)

unfoldable pub ll_add_front : Heap → LinkedList → ℕ → ℕ → Option (Heap × LinkedList × ℕ)
ll_add_front h list p object =
    let node = ll_create_node h p object in
    if object == 0
    then some (h, list, 0)
    else if list.head == 0
    then some (node, record { head = p; tail = p; length = (list.length + 1) % 2 ^ 32 }, p)
    else set_next node p list.head >>= λ h'. set_prev h' list.head p >>= λ h''.
        some (h'', record list { head = p; length = (list.length + 1) % 2 ^ 32 }, p)

-- The pointers behind and before the node are bent round it; `n` is the node.
unfoldable pub unlink : Heap → LinkedList → ℕ → LlNode → Option (Heap × LinkedList)
unlink h list node n =
    (if node == list.head
      then some (h, record list { head = n.next })
      else (set_next h n.prev n.next >>= λ h'. some (h', list)))
    >>= λ (r : Heap × LinkedList).
        if node == list.tail
        then some (r.0, record (r.1) { tail = n.prev })
        else set_prev r.0 n.next n.prev >>= λ h'. some (h', r.1)

unfoldable pub ll_remove : Heap → LinkedList → ℕ → Option (Heap × LinkedList × ℕ)
ll_remove h list node =
    if node == 0
    then some (h, list, 0)
    else h node >>= λ n. unlink h list node n >>= λ r.
        some (free r.0 node, record (r.1) { length = (r.1.length + 2 ^ 32 - 1) % 2 ^ 32 }, n.object)

unfoldable pub ll_front : LinkedList → ℕ
ll_front list = list.head

unfoldable pub ll_back : LinkedList → ℕ
ll_back list = list.tail

unfoldable pub ll_length : LinkedList → ℕ
ll_length list = list.length

unfoldable pub ll_add_after : Heap → LinkedList → ℕ → ℕ → ℕ → Option (Heap × LinkedList × ℕ)
ll_add_after h list node p object =
    if node == 0 || object == 0
    then some (h, list, 0)
    else h node >>= λ n.
        (let new = store h p (record { next = n.next; prev = node; object = object }) in
          if n.next == 0 then some new else set_prev new n.next p)
        >>= λ h'. set_next h' node p >>= λ h''. some (
          h'',
          record list {
            tail = if node == list.tail then p else list.tail;
            length = (list.length + 1) % 2 ^ 32;
          },
          p,
        )

-- The loops follow the pointers on fuel. `none` is also where the fuel runs out.
unfoldable pub find_from : ℕ → Heap → ℕ → ℕ → Option ℕ
find_from zero h object curr = if curr == 0 then some 0 else none
find_from (suc f) h object curr =
    let search = h curr >>= λ n.
    let rest = find_from f h object n.next in if n.object == object then some curr else rest in
    if curr == 0 then some 0 else search

unfoldable pub ll_find : Heap → LinkedList → ℕ → Option ℕ
ll_find h list object = if object == 0 then some 0 else find_from list.length h object list.head

unfoldable pub destroy_from : ℕ → Heap → ℕ → Option Heap
destroy_from zero h curr = if curr == 0 then some h else none
destroy_from (suc f) h curr =
    let go = h curr >>= λ n. destroy_from f (free h curr) n.next in if curr == 0 then some h else go

unfoldable pub ll_destroy : Heap → LinkedList → Option Heap
ll_destroy h list = destroy_from list.length h list.head
