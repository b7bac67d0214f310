-- ===== src/Ctcp/LinkedList/Loops.antt =====
-- The loops of lab3/ctcp_linked_list.c over the nodes.
use mini_internet_computer_n.Base.{
  ℕ, ◌≡◌, ◌≢◌, refl, ap, ◌∙◌, Bool-cases, inl, inr, some, List, [], ◌∷◌, ◌==◌, if◌then◌else◌,
  length,
}
use mini_internet_computer_n.Ctcp.LinkedList.{
  LinkedList, Heap, free, find_from, ll_find, destroy_from, ll_destroy,
}
use mini_internet_computer_n.Ctcp.LinkedList.Chain.{
  Entry, first, Distinct, Chain, Chain-frame, free-other,
}
use mini_internet_computer_n.Ctcp.LinkedList.Refines.{Holds, not_eq-==}

-- The node of the first entry with the object, or the null pointer.
find_entry : ℕ → List Entry → ℕ
find_entry object [] = 0
find_entry object (e ∷ l) = if e.1 == object then e.0 else find_entry object l

find_from-Chain :
    (h : Heap) (object p : ℕ) (l : List Entry)
    → Chain h p l 0
    → find_from (length l) h object (first l 0) ≡ some (find_entry object l)
unfolding find_from find_entry
find_from-Chain h object p [] c = refl
find_from-Chain h object p (e ∷ l) c = rw (not_eq-== e.0 0 c.0) (
    rw c.1 (elim (Bool-cases (e.1 == object)) [
      | inl found ↦ rw found refl
      | inr other ↦ rw other (find_from-Chain h object e.0 l c.2)
    ]))

-- `ll_find` ends, and returns the first node that holds the object, or the null pointer if none does.
ll_find-Holds :
    (h : Heap) (list : LinkedList) (l : List Entry) (object : ℕ)
    → Holds h list l
    → object ≢ 0
    → ll_find h list object ≡ some (find_entry object l)
unfolding ll_find
ll_find-Holds h list l object holds some_object = rw (not_eq-== object 0 some_object) (
    ap (λ (f : ℕ). find_from f h object list.head) holds.counted
    ∙ ap (find_from (length l) h object) holds.front
    ∙ find_from-Chain h object 0 l holds.chain)

-- The heap without the nodes of `l`.
freed_all : Heap → List Entry → Heap
freed_all h [] = h
freed_all h (e ∷ l) = freed_all (free h e.0) l

destroy_from-Chain :
    (h : Heap) (p : ℕ) (l : List Entry)
    → Chain h p l 0
    → Distinct l
    → destroy_from (length l) h (first l 0) ≡ some (freed_all h l)
unfolding destroy_from freed_all
destroy_from-Chain h p [] c d = refl
destroy_from-Chain h p (e ∷ l) c d = rw (not_eq-== e.0 0 c.0) (
    rw c.1 (
      destroy_from-Chain (free h e.0) e.0 l
        (Chain-frame h (free h e.0) e.0 l 0 e.0 (free-other h e.0) d.0 c.2) d.1))

-- `ll_destroy` ends, and frees each node of the list once.
ll_destroy-Holds :
    (h : Heap) (list : LinkedList) (l : List Entry)
    → Holds h list l
    → ll_destroy h list ≡ some (freed_all h l)
unfolding ll_destroy
ll_destroy-Holds h list l holds =
    ap (λ (f : ℕ). destroy_from f h list.head) holds.counted
    ∙ ap (destroy_from (length l) h) holds.front
    ∙ destroy_from-Chain h 0 l holds.chain holds.distinct
