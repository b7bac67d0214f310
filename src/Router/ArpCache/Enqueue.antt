-- ===== src/Router/ArpCache/Enqueue.antt =====
-- `sr_arpcache_queuereq` on the request queue.
use mathlib.Core.Option.{some-injective}
use mini_internet_computer_n.Base.{
  ℕ, ◌≤◌, ◌≡◌, refl, ◌∙◌, sym, ap, ◌≢◌, inl, inr, none, some, List, [], ◌∷◌, arith, ◌==◌,
  Bool-cases, Option-cases, length, ==_refl,
}
use mini_internet_computer_n.Router.Headers.{Bytes}
use mini_internet_computer_n.Router.State.{Name, copy_name, SrIf, SrPacket, ArpReq}
use mini_internet_computer_n.Router.Interfaces.Laws.{find_interface-copy}
use mini_internet_computer_n.Router.ArpCache.{
  find_request, change_request, new_request, add_packet, enqueue, ensure_request,
}
use mini_internet_computer_n.Router.ArpCache.Queue.{
  Resolves, PacketsOk, ReqOk, NoRequest, QueueOk, change-QueueOk,
}

find_none-NoRequest : (ip : ℕ) (rs : List ArpReq) → find_request ip rs ≡ none → NoRequest ip rs
unfolding find_request
find_none-NoRequest ip [] h = tt
find_none-NoRequest ip (r ∷ rs) h = elim (Bool-cases (r.ip == ip)) [
  | inl e ↦ absurd (let bad : some r ≡ none = rw e at h in cc)
  | inr e ↦ (ground arith, find_none-NoRequest ip rs (rw e at h))
]

find-cons_hit :
    (ip : ℕ) (x : ArpReq) (rs : List ArpReq) → x.ip ≡ ip → find_request ip (x ∷ rs) ≡ some x
unfolding find_request
find-cons_hit ip x rs e = ground arith

find-cons_miss :
    (ip : ℕ) (x : ArpReq) (rs : List ArpReq)
    → x.ip ≢ ip
    → find_request ip (x ∷ rs) ≡ find_request ip rs
unfolding find_request
find-cons_miss ip x rs e = ground arith

find-change :
    (f : ArpReq → ArpReq) (ip : ℕ) (rs : List ArpReq) (r : ArpReq)
    → ((x : ArpReq) → (f x).ip ≡ x.ip)
    → find_request ip rs ≡ some r
    → find_request ip (change_request f ip rs) ≡ some (f r)
unfolding change_request
find-change f ip [] r keeps h = let bad : none ≡ some r = unfold find_request in h in cc
find-change f ip (x ∷ rs) r keeps h = elim (Bool-cases (x.ip == ip)) [
  | inl e ↦
      let hit : x.ip ≡ ip = ground arith in
      let same : x ≡ r = some-injective x r (sym (find-cons_hit ip x rs hit) ∙ h) in
      rw e (find-cons_hit ip (f x) rs (keeps x ∙ hit) ∙ ap (λ y. some (f y)) same)
  | inr e ↦
      let miss : x.ip ≢ ip = ground arith in
      rw e (
        find-cons_miss ip x (change_request f ip rs) miss
        ∙ find-change f ip rs r keeps (sym (find-cons_miss ip x rs miss) ∙ h))
]

-- The queue's request for `ip` before the frame is added.
unfoldable pub old_request : ℕ → List ArpReq → ArpReq
old_request ip rs = elim (find_request ip rs) [ none ↦ new_request ip | some r ↦ r ]

find-ensure :
    (ip : ℕ) (rs : List ArpReq) → find_request ip (ensure_request ip rs) ≡ some (old_request ip rs)
unfolding ensure_request old_request
find-ensure ip rs = elim (Option-cases (find_request ip rs)) [
  | inl h ↦ rw (h, ensure_request, old_request) (find-cons_hit ip (new_request ip) rs refl)
  | inr r ↦ rw (r.1, ensure_request, old_request) r.1
]

module _ (is : List SrIf) (ip b : ℕ) (rest : Bytes) (iface : Name) (rs : List ArpReq) where
  abbrev pub queued : SrPacket
  queued = record { buf = b ∷ rest; iface = copy_name iface }

  -- The returned request has the frame in front of those that waited before.
  pub find-queuereq :
      find_request ip (enqueue (b ∷ rest) iface ip (ensure_request ip rs))
      ≡ some (add_packet queued (old_request ip rs))
  unfolding enqueue
  find-queuereq =
      find-change (add_packet queued) ip (ensure_request ip rs) (old_request ip rs) (λ x. refl)
        (find-ensure ip rs)

  add-ReqOk :
      (r : ArpReq)
      → 14 ≤ length (b ∷ rest)
      → Resolves is iface
      → PacketsOk is r.packets
      → r.times_sent ≤ 5
      → ReqOk is (add_packet queued r)
  add-ReqOk r l (i, e) ps t = record {
    waiting = tt;
    packets = (l, (i, find_interface-copy is iface ∙ e), ps);
    tries = t;
  }

  pub queuereq-QueueOk :
      14 ≤ length (b ∷ rest)
      → Resolves is iface
      → QueueOk is rs
      → QueueOk is (enqueue (b ∷ rest) iface ip (ensure_request ip rs))
  unfolding enqueue ensure_request
  queuereq-QueueOk l e q = elim (Option-cases (find_request ip rs)) [
    | inl h ↦
        rw (h, ensure_request)
          (unfold change_request in
            rw (==_refl ip)
              (add-ReqOk (new_request ip) l e tt (omega arith), find_none-NoRequest ip rs h, q))
    | inr r ↦
        rw (r.1, ensure_request)
          (change-QueueOk (add_packet queued) (λ x. refl) is ip rs
            (λ x found ok. add-ReqOk x l e ok.packets ok.tries) q)
  ]

pub find-ip : (ip : ℕ) (rs : List ArpReq) (r : ArpReq) → find_request ip rs ≡ some r → r.ip ≡ ip
unfolding find_request
find-ip ip [] r h = cc
find-ip ip (x ∷ rs) r h = ground (arith, find-ip ip rs r)
