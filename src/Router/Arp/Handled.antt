-- ===== src/Router/Arp/Handled.antt =====
-- What `handle_arpreq` does with one request of a well-formed queue.
use mini_internet_computer_n.Base.{
  ℕ, ◌+◌, ◌≤◌, ◌<◌, ◌≡◌, refl, ◌∙◌, sym, ap, ◌≢◌, ◌⊎◌, inl, inr, none, some, List, [], ◌∷◌, ◌==◌,
  arith, leb, Bool-cases,
}
use native.Mathlib.Decide.{dec_lt}
use mathlib.Core.Option.{some-injective}
use mini_internet_computer_n.Router.State.{SrIf, SrRt, ArpReq, ArpCache, Sr}
use mini_internet_computer_n.Router.ArpCache.{change_request, find_request, sr_arpreq_destroy}
use mini_internet_computer_n.Router.ArpCache.Queue.{
  ReqOk, QueueOk, unlink-QueueOk, change-QueueOk, find-change_other, find-unlink_other,
}
use mini_internet_computer_n.Router.Arp.{
  max_request_tries, count_try, send_arp_request, give_up, handle_arpreq,
}
use mini_internet_computer_n.Router.Arp.Safe.{
  Ends, Ends-mono, Still, SomeAddressed, send-Still, give_up-cases, sending_Resolves,
}

-- A second has passed since the last of at least five tries: the request is to be given up.
abbrev pub IsDue : ℕ → ArpReq → Type 0
IsDue now r = (r.sent + 1 ≤ now) × (5 ≤ r.times_sent)

abbrev pub NotDue : ℕ → ArpReq → Type 0
NotDue now r = (now < r.sent + 1) ⊎ (r.times_sent < 5)

abbrev pub NoneDue : ℕ → List ArpReq → Type 0
NoneDue now [] = Unit
NoneDue now (r ∷ rs) = NotDue now r × NoneDue now rs

abbrev pub SomeDue : ℕ → List ArpReq → Type 0
SomeDue now [] = ⊥
SomeDue now (r ∷ rs) = IsDue now r ⊎ SomeDue now rs

pub due-cases : (now : ℕ) (rs : List ArpReq) → NoneDue now rs ⊎ SomeDue now rs
due-cases now [] = inl tt
due-cases now (r ∷ rs) = elim (dec_lt now (r.sent + 1)) [
  | yes early ↦ elim (due-cases now rs) [ inl n ↦ inl (inl early, n) | inr d ↦ inr (inr d) ]
  | no late ↦ elim (dec_lt r.times_sent 5) [
    | yes few ↦ elim (due-cases now rs) [ inl n ↦ inl (inr few, n) | inr d ↦ inr (inr d) ]
    | no many ↦ inr (inl (omega arith, omega arith))
  ]
]

pub find-NotDue :
    (now ip : ℕ) (rs : List ArpReq) (r : ArpReq)
    → find_request ip rs ≡ some r
    → NoneDue now rs
    → NotDue now r
unfolding find_request
find-NotDue now ip [] r h n = cc
find-NotDue now ip (x ∷ rs) r h n = elim (Bool-cases (x.ip == ip)) [
  | inl e ↦ let same : some x ≡ some r = rw e at h in rw (← some-injective x r same) n.0
  | inr e ↦ find-NotDue now ip rs r (rw e at h) n.1
]

abbrev counted : ℕ → ℕ → ArpCache → ArpCache
counted now ip c = record c { requests = change_request (count_try now) ip c.requests }

-- What `handle_arpreq` does with a request: nothing within a second of the last try, another try
-- while there were fewer than five, and otherwise it gives the request up.
pub data Handled (now : ℕ) (req : ArpReq) (c : ArpCache) : ArpCache → Type 0 where
  waits : now < req.sent + 1 → Handled now req c c
  asked :
      req.sent + 1 ≤ now
      → req.times_sent < max_request_tries
      → Handled now req c (counted now req.ip c)
  dropped :
      req.sent + 1 ≤ now
      → max_request_tries ≤ req.times_sent
      → Handled now req c (sr_arpreq_destroy c req.ip)

abbrev pub AfterRequest : List SrIf → List SrRt → ℕ → ArpReq → ArpCache → Sr → Type 0
AfterRequest is es now req c sr' = (c' : ArpCache) × Handled now req c c' × Still is es c' sr'

module _ (is : List SrIf) (es : List SrRt) (c : ArpCache) where
  request-Ends :
      (now : ℕ) (sr : Sr) (req : ArpReq)
      → ReqOk is req
      → Still is es c sr
      → Ends (Still is es (counted now req.ip c)) (send_arp_request now sr req)
  unfolding send_arp_request
  request-Ends now sr req ok w =
      let (i, e) = sending_Resolves is es c sr req.packets ok.waiting ok.packets w.ifs in
      rw (e, send_arp_request)
        (send-Still is es (counted now req.ip c) _ _ i.name
          (record { ifs = w.ifs; routes = w.routes; cache = ap (counted now req.ip) w.cache }))

  pub handle_arpreq-cases :
      (now : ℕ) (sr : Sr) (req : ArpReq)
      → ReqOk is req
      → Still is es c sr
      → Ends (AfterRequest is es now req c) (handle_arpreq now sr req)
        ⊎ (IsDue now req × SomeAddressed is req.packets × (handle_arpreq now sr req ≡ none))
  unfolding handle_arpreq
  handle_arpreq-cases now sr req ok w = elim (Bool-cases (leb (req.sent + 1) now)) [
    | inl due ↦ elim (Bool-cases (leb max_request_tries req.times_sent)) [
      | inl over ↦ elim (give_up-cases is es c sr req ok.packets w) [
        | inl ends ↦ inl (
            rw (due, over)
              (Ends-mono (give_up sr req) (Still is es (sr_arpreq_destroy c req.ip))
                (AfterRequest is es now req c) ends
                (λ sr' w'. (_, dropped (ground arith) (ground arith), w'))))
        | inr undefined ↦
            inr ((ground arith, ground arith), undefined.0, rw (due, over) undefined.1)
      ]
      | inr more ↦ inl (
          rw (due, more)
            (Ends-mono (send_arp_request now sr req) (Still is es (counted now req.ip c))
              (AfterRequest is es now req c) (request-Ends now sr req ok w)
              (λ sr' w'. (_, asked (ground arith) (ground arith), w'))))
    ]
    | inr early ↦ inl (rw early (c, waits (ground arith), w))
  ]

  -- A request that is not given up is handled without undefined behaviour.
  pub handle_arpreq-Ends :
      (now : ℕ) (sr : Sr) (req : ArpReq)
      → ReqOk is req
      → Still is es c sr
      → NotDue now req
      → Ends (AfterRequest is es now req c) (handle_arpreq now sr req)
  handle_arpreq-Ends now sr req ok w early = elim (handle_arpreq-cases now sr req ok w) [
    | inl ends ↦ ends
    | inr due ↦ absurd (elim early [ inl e ↦ omega (arith, due.0) | inr e ↦ omega (arith, due.0) ])
  ]

-- What is handled leaves a well-formed queue well formed, and the requests for other addresses alone.
pub Handled-QueueOk :
    (is : List SrIf) (now : ℕ) (req : ArpReq) (c c' : ArpCache)
    → QueueOk is c.requests
    → find_request req.ip c.requests ≡ some req
    → Handled now req c c'
    → QueueOk is c'.requests
unfolding sr_arpreq_destroy
Handled-QueueOk is now req c c' q f (waits p) = q
Handled-QueueOk is now req c c' q f (asked p t) =
    change-QueueOk (count_try now) (λ r. refl) is req.ip c.requests
      (λ r found ok.
        let same : r ≡ req = some-injective r req (sym found ∙ f) in
        let tries : r.times_sent < 5 = rw same t in
        record { waiting = ok.waiting; packets = ok.packets; tries = omega arith })
      q
Handled-QueueOk is now req c c' q f (dropped p t) = unlink-QueueOk is req.ip c.requests q

pub Handled-other :
    (now other : ℕ) (req : ArpReq) (c c' : ArpCache)
    → req.ip ≢ other
    → Handled now req c c'
    → find_request other c'.requests ≡ find_request other c.requests
unfolding sr_arpreq_destroy
Handled-other now other req c c' ne (waits p) = refl
Handled-other now other req c c' ne (asked p t) =
    find-change_other (count_try now) req.ip other c.requests (λ r. refl) ne
Handled-other now other req c c' ne (dropped p t) = find-unlink_other req.ip other c.requests ne
