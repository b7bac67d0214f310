-- ===== src/Router/Arp/Sweep.antt =====
-- A sweep over the whole queue, and a round of the timeout thread.
use mini_internet_computer_n.Base.{ℕ, ◌≡◌, refl, ◌∙◌, sym, some, List, [], ◌∷◌, arith, ==_refl}
use mini_internet_computer_n.Router.State.{SrIf, SrRt, ArpReq, ArpCache, Sr}
use mini_internet_computer_n.Router.ArpCache.{find_request, expire}
use mini_internet_computer_n.Router.ArpCache.Queue.{NoRequest, QueueOk}
use mini_internet_computer_n.Router.Arp.{
  handle_arpreq, sweep_from, sr_arpcache_sweepreqs, sr_arpcache_timeout,
}
use mini_internet_computer_n.Router.Arp.Safe.{Ends, Ends-bind, Still}
use mini_internet_computer_n.Router.Arp.Handled.{
  Handled, AfterRequest, NoneDue, handle_arpreq-Ends, Handled-QueueOk, Handled-other,
}

-- The interfaces are `is`, the routes `es`, and the queue is well formed.
pub record WellFormed (is : List SrIf) (es : List SrRt) (sr : Sr) : Type 0 where
  pub ifs : sr.if_list ≡ is
  pub routes : sr.routing_table ≡ es
  pub queue : QueueOk is sr.cache.requests

-- Each request of the list is the one that the queue has for its address.
abbrev Found : List ArpReq → List ArpReq → Type 0
Found queue [] = Unit
Found queue (r ∷ rs) = (find_request r.ip queue ≡ some r) × Found queue rs

Found-cons :
    (x : ArpReq) (queue rs : List ArpReq)
    → NoRequest x.ip rs
    → Found queue rs
    → Found (x ∷ queue) rs
unfolding find_request
Found-cons x queue [] n f = tt
Found-cons x queue (r ∷ rs) n f = (ground (arith, n.0, f.0), Found-cons x queue rs n.1 f.1)

QueueOk-Found : (is : List SrIf) (rs : List ArpReq) → QueueOk is rs → Found rs rs
QueueOk-Found is [] q = tt
QueueOk-Found is (r ∷ rs) q =
    (unfold find_request in rw (==_refl r.ip), Found-cons r rs rs q.1 (QueueOk-Found is rs q.2))

Found-Handled :
    (now : ℕ) (req : ArpReq) (c c' : ArpCache) (rs : List ArpReq)
    → NoRequest req.ip rs
    → Handled now req c c'
    → Found c.requests rs
    → Found c'.requests rs
Found-Handled now req c c' [] n h f = tt
Found-Handled now req c c' (r ∷ rs) n h f = (
  Handled-other now r.ip req c c' (λ e. n.0 (sym e)) h ∙ f.0,
  Found-Handled now req c c' rs n.1 h f.1,
)

module _ (is : List SrIf) (es : List SrRt) (now : ℕ) where
  sweep_from-Ends :
      (rs : List ArpReq) (c : ArpCache) (sr : Sr)
      → QueueOk is rs
      → Found c.requests rs
      → QueueOk is c.requests
      → Still is es c sr
      → NoneDue now rs
      → Ends (WellFormed is es) (sweep_from now sr rs)
  unfolding sweep_from
  sweep_from-Ends [] c sr ok f q w n = record {
    ifs = w.ifs;
    routes = w.routes;
    queue = rw w.cache q;
  }
  sweep_from-Ends (r ∷ rs) c sr ok f q w n =
      Ends-bind (handle_arpreq now sr r) (λ sr'. sweep_from now sr' rs) (AfterRequest is es now r c)
        (WellFormed is es) (handle_arpreq-Ends is es c now sr r ok.0 w n.0)
        (λ sr' (c', h, w').
          sweep_from-Ends rs c' sr' ok.2 (Found-Handled now r c c' rs ok.1 h f.1)
            (Handled-QueueOk is now r c c' q f.0 h) w' n.1)

  -- A round of the timeout thread on a well-formed router that has no request to give up is defined
  -- and leaves it well formed.
  pub timeout-Ends :
      (sr : Sr)
      → WellFormed is es sr
      → NoneDue now sr.cache.requests
      → Ends (WellFormed is es) (sr_arpcache_timeout now sr)
  unfolding sr_arpcache_timeout sr_arpcache_sweepreqs
  timeout-Ends sr w n =
      let c : ArpCache = record sr.cache { entries = expire now sr.cache.entries } in
      sweep_from-Ends sr.cache.requests c (record sr { cache = c }) w.queue
        (QueueOk-Found is sr.cache.requests w.queue) w.queue
        (record { ifs = w.ifs; routes = w.routes; cache = refl }) n
