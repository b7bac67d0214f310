-- ===== src/Router/ArpCache/Queue.antt =====
-- The well-formedness of the request queue: at most one request for an address, each with a frame
-- that waits and at most five tries, and every waiting frame with an interface of the list.
use mini_internet_computer_n.Base.{
  ℕ, ◌≤◌, ◌≡◌, refl, ◌≢◌, inl, inr, none, some, if◌then◌else◌, List, [], ◌∷◌, arith, ◌==◌,
  Bool-cases, length,
}
use mini_internet_computer_n.Router.State.{Name, SrIf, SrPacket, ArpReq}
use mini_internet_computer_n.Router.Interfaces.{find_interface}
use mini_internet_computer_n.Router.ArpCache.{find_request, unlink_request, change_request}

-- An interface of that name is on the list.
abbrev pub Resolves : List SrIf → Name → Type 0
Resolves is name = (i : SrIf) × (find_interface is name ≡ some i)

abbrev pub PacketsOk : List SrIf → List SrPacket → Type 0
PacketsOk is [] = Unit
PacketsOk is (p ∷ ps) = (14 ≤ length p.buf) × Resolves is p.iface × PacketsOk is ps

abbrev pub IsWaiting : List SrPacket → Type 0
IsWaiting [] = ⊥
IsWaiting (p ∷ ps) = Unit

pub record ReqOk (is : List SrIf) (r : ArpReq) : Type 0 where
  pub waiting : IsWaiting r.packets
  pub packets : PacketsOk is r.packets
  pub tries : r.times_sent ≤ 5

-- No request for the address.
abbrev pub NoRequest : ℕ → List ArpReq → Type 0
NoRequest ip [] = Unit
NoRequest ip (r ∷ rs) = (r.ip ≢ ip) × NoRequest ip rs

abbrev pub QueueOk : List SrIf → List ArpReq → Type 0
QueueOk is [] = Unit
QueueOk is (r ∷ rs) = ReqOk is r × NoRequest r.ip rs × QueueOk is rs

NoRequest-unlink :
    (ip other : ℕ) (rs : List ArpReq) → NoRequest other rs → NoRequest other (unlink_request ip rs)
unfolding unlink_request
NoRequest-unlink ip other [] n = n
NoRequest-unlink ip other (r ∷ rs) n = elim (Bool-cases (r.ip == ip)) [
  | inl h ↦ rw h n.1
  | inr h ↦ rw h (n.0, NoRequest-unlink ip other rs n.1)
]

-- Unlinking a request keeps the queue well formed.
pub unlink-QueueOk :
    (is : List SrIf) (ip : ℕ) (rs : List ArpReq) → QueueOk is rs → QueueOk is (unlink_request ip rs)
unfolding unlink_request
unlink-QueueOk is ip [] q = q
unlink-QueueOk is ip (r ∷ rs) q = elim (Bool-cases (r.ip == ip)) [
  | inl h ↦ rw h q.2
  | inr h ↦ rw h (q.0, NoRequest-unlink ip r.ip rs q.1, unlink-QueueOk is ip rs q.2)
]

-- After unlinking, no request for the address is left.
unlink-NoRequest :
    (is : List SrIf) (ip : ℕ) (rs : List ArpReq)
    → QueueOk is rs
    → NoRequest ip (unlink_request ip rs)
unfolding unlink_request
unlink-NoRequest is ip [] q = q
unlink-NoRequest is ip (r ∷ rs) q = elim (Bool-cases (r.ip == ip)) [
  | inl h ↦ rw h (let e : r.ip ≡ ip = ground arith in rw e at q.1)
  | inr h ↦ rw h (ground arith, unlink-NoRequest is ip rs q.2)
]

pub find-ReqOk :
    (is : List SrIf) (ip : ℕ) (rs : List ArpReq) (r : ArpReq)
    → QueueOk is rs
    → find_request ip rs ≡ some r
    → ReqOk is r
unfolding find_request
find-ReqOk is ip [] r q h = cc
find-ReqOk is ip (x ∷ rs) r q h = elim (Bool-cases (x.ip == ip)) [
  | inl e ↦ let same : some x ≡ some r = rw e at h in ground (arith, q.0)
  | inr e ↦ find-ReqOk is ip rs r q.2 (rw e at h)
]

module _ (f : ArpReq → ArpReq) (keeps : (r : ArpReq) → (f r).ip ≡ r.ip) where
  NoRequest-change :
      (ip other : ℕ) (rs : List ArpReq)
      → NoRequest other rs
      → NoRequest other (change_request f ip rs)
  unfolding change_request
  NoRequest-change ip other [] n = n
  NoRequest-change ip other (r ∷ rs) n = elim (Bool-cases (r.ip == ip)) [
    | inl h ↦ rw h (rw (keeps r) n.0, n.1)
    | inr h ↦ rw h (n.0, NoRequest-change ip other rs n.1)
  ]

  -- A change that keeps each request well formed keeps the queue so.
  pub change-QueueOk :
      (is : List SrIf) (ip : ℕ) (rs : List ArpReq)
      → ((r : ArpReq) → find_request ip rs ≡ some r → ReqOk is r → ReqOk is (f r))
      → QueueOk is rs
      → QueueOk is (change_request f ip rs)
  unfolding change_request find_request
  change-QueueOk is ip [] ok q = q
  change-QueueOk is ip (r ∷ rs) ok q = elim (Bool-cases (r.ip == ip)) [
    | inl h ↦ rw h (ok r (rw h) q.0, rw (keeps r) q.1, q.2)
    | inr h ↦
        rw h
          (q.0, NoRequest-change ip r.ip rs q.1, change-QueueOk is ip rs (λ x e. ok x (rw h e)) q.2)
  ]

-- Neither a change nor an unlinking is seen at another address.
pub find-change_other :
    (f : ArpReq → ArpReq) (ip other : ℕ) (rs : List ArpReq)
    → ((r : ArpReq) → (f r).ip ≡ r.ip)
    → ip ≢ other
    → find_request other (change_request f ip rs) ≡ find_request other rs
unfolding find_request change_request
find-change_other f ip other [] keeps ne = refl
find-change_other f ip other (r ∷ rs) keeps ne =
    ground (arith, keeps r, find-change_other f ip other rs keeps ne)

pub find-unlink_other :
    (ip other : ℕ) (rs : List ArpReq)
    → ip ≢ other
    → find_request other (unlink_request ip rs) ≡ find_request other rs
unfolding find_request unlink_request
find-unlink_other ip other [] ne = refl
find-unlink_other ip other (r ∷ rs) ne = ground (arith, find-unlink_other ip other rs ne)

find-NoRequest : (ip : ℕ) (rs : List ArpReq) → NoRequest ip rs → find_request ip rs ≡ none
unfolding find_request
find-NoRequest ip [] n = refl
find-NoRequest ip (r ∷ rs) n = ground (arith, n.0, find-NoRequest ip rs n.1)

-- After unlinking, the requests for other addresses are as before.
pub find-unlink :
    (is : List SrIf) (ip other : ℕ) (rs : List ArpReq)
    → QueueOk is rs
    → find_request other (unlink_request ip rs)
      ≡ (if ip == other then none else find_request other rs)
find-unlink is ip other rs q = elim (Bool-cases (ip == other)) [
  | inl e ↦
      let same : ip ≡ other = ground arith in
      rw e (rw (← same) (find-NoRequest ip (unlink_request ip rs) (unlink-NoRequest is ip rs q)))
  | inr e ↦ rw e (find-unlink_other ip other rs (ground arith))
]
