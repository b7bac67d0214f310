-- ===== src/Router/System.antt =====
-- The running router: the loop of `main` in lab1/router/sr_main.c, which handles the packets that
-- `sr_read_from_server` of sr_vns_comm.c delivers, and the timeout thread of sr_arpcache.c beside
-- it. Each event is one step: a round of the thread holds the cache's lock throughout, but a handler
-- only within each call of the cache, so a round in the middle of a handler is not modelled.
use mini_internet_computer_n.Base.{
  ℕ, ◌≤◌, ◌≡◌, ◌⊎◌, refl, Bool, false, not, ◌&&◌, inl, inr, Bool-cases, Option, none, some, List,
  [], ◌∷◌, length, ltb, ◌==◌, arith, if◌then◌else◌,
}
use mini_internet_computer_n.Checksum.{swap16}
use mini_internet_computer_n.Router.Headers.RoundTrip.{get_ethernet_total, get_arp_total}
use mini_internet_computer_n.Router.Interfaces.{sr_get_interface}
use mini_internet_computer_n.Router.Send.{ethertype_arp}
use mini_internet_computer_n.Router.Headers.{Bytes, get_ethernet, get_arp}
use mini_internet_computer_n.Router.State.{Name, SrIf, SrRt, Sr}
use mini_internet_computer_n.Router.Table.Verify.{RoutesOk}
use mini_internet_computer_n.Router.ArpCache.{sr_arpcache_init}
use mini_internet_computer_n.Router.ArpCache.Queue.{Resolves}
use mini_internet_computer_n.Router.Arp.{arp_op_request, sr_arpcache_timeout}
use mini_internet_computer_n.Router.Arp.Safe.{Ends}
use mini_internet_computer_n.Router.Arp.Handled.{NoneDue, SomeDue, due-cases}
use mini_internet_computer_n.Router.Arp.Sweep.{WellFormed, timeout-Ends}
use mini_internet_computer_n.Router.Handle.{sr_handlepacket}
use mini_internet_computer_n.Router.Handle.Total.{handlepacket-Ends}

-- `sr_init`: the cache is new. The thread that it starts is the `tick` events.
unfoldable pub sr_init : Sr → Sr
unfolding sr_arpcache_init
sr_init sr = record sr { cache = sr_arpcache_init }

-- `none` is the failing `assert(iface)`.
unfoldable pub sr_arp_req_not_for_us : Sr → Bytes → Name → Option Bool
sr_arp_req_not_for_us sr packet interface =
    if ltb (length packet) 42 then some false else elim (sr_get_interface sr interface) [
      | none ↦ none
      | some iface ↦ elim (get_ethernet packet) [
        | none ↦ none
        | some (e_hdr, r) ↦ elim (get_arp r) [
          | none ↦ none
          | some (a_hdr, r') ↦ some (
              e_hdr.ether_type == swap16 ethertype_arp
              && (a_hdr.ar_op == swap16 arp_op_request && not (a_hdr.ar_tip == iface.ip)))
        ]
      ]
    ]

-- A packet from the server, or a round of the timeout thread; the number is the time.
pub data Event : Type 0 where
  arrival : ℕ → Name → Bytes → Event
  tick : ℕ → Event

-- The case VNSPACKET of `sr_read_from_server_expect`.
unfoldable pub deliver : ℕ → Sr → Bytes → Name → Option Sr
deliver now sr packet interface = elim (sr_arp_req_not_for_us sr packet interface) [
  | none ↦ none
  | some not_for_us ↦ if not_for_us then some sr else sr_handlepacket now sr packet interface
]

unfoldable pub step : Sr → Event → Option Sr
step sr (arrival now interface packet) = deliver now sr packet interface
step sr (tick now) = sr_arpcache_timeout now sr

unfoldable pub run : Sr → List Event → Option Sr
run sr [] = some sr
run sr (e ∷ es) = elim (step sr e) [ none ↦ none | some sr' ↦ run sr' es ]

abbrev pub time_of : Event → ℕ
time_of (arrival now interface packet) = now
time_of (tick now) = now

-- Every packet has at least 38 bytes and comes in by an interface of the list.
abbrev AreDelivered : List SrIf → List Event → Type 0
AreDelivered is [] = Unit
AreDelivered is (arrival now interface packet ∷ es) =
    (38 ≤ length packet) × Resolves is interface × AreDelivered is es
AreDelivered is (tick now ∷ es) = AreDelivered is es

module _ (is : List SrIf) (es : List SrRt) (routes : RoutesOk is es) where
  not_for_us_some :
      (sr : Sr) (packet : Bytes) (interface : Name)
      → Resolves sr.if_list interface
      → (b : Bool) × (sr_arp_req_not_for_us sr packet interface ≡ some b)
  unfolding sr_arp_req_not_for_us sr_get_interface
  not_for_us_some sr packet interface here = elim (Bool-cases (ltb (length packet) 42)) [
    | inl short ↦ (false, rw short)
    | inr long ↦
        let (eth, r, e, m) = get_ethernet_total packet (ground arith) in
        let (arp, r', e', m') = get_arp_total r (ground arith) in
        let drop =
          eth.ether_type == swap16 ethertype_arp
          && (arp.ar_op == swap16 arp_op_request && not (arp.ar_tip == here.0.ip)) in
        (
          drop,
          rw long (
              rw (here.1, sr_arp_req_not_for_us)
                (rw (e, sr_arp_req_not_for_us) (rw (e', sr_arp_req_not_for_us) refl))),
        )
  ]

  deliver-Ends :
      (now : ℕ) (sr : Sr) (packet : Bytes) (interface : Name)
      → 38 ≤ length packet
      → Resolves is interface
      → WellFormed is es sr
      → NoneDue now sr.cache.requests
      → Ends (WellFormed is es) (deliver now sr packet interface)
  unfolding deliver
  deliver-Ends now sr packet interface l here w fresh =
      let (b, e) = not_for_us_some sr packet interface (rw w.ifs here) in
      elim (Bool-cases b) [
        | inl t ↦ rw (e, deliver) (rw t w)
        | inr f ↦
            rw (e, deliver)
              (rw f (handlepacket-Ends is es now sr interface here w packet l routes fresh))
      ]

  step-Ends :
      (sr : Sr) (e : Event) (events : List Event)
      → WellFormed is es sr
      → AreDelivered is (e ∷ events)
      → NoneDue (time_of e) sr.cache.requests
      → Ends (WellFormed is es) (step sr e) × AreDelivered is events
  unfolding step
  step-Ends sr (arrival now interface packet) events w d fresh =
      (deliver-Ends now sr packet interface d.0 d.1 w fresh, d.2)
  step-Ends sr (tick now) events w d fresh = (timeout-Ends is es now sr w fresh, d)

  -- The events lead to a well-formed router that has a request to give up when the next one comes.
  pub data MustGiveUp : Sr → List Event → Type 0 where
    now_due :
        (sr : Sr) (e : Event) (events : List Event)
        → WellFormed is es sr
        → SomeDue (time_of e) sr.cache.requests
        → MustGiveUp sr (e ∷ events)
    later_due :
        (sr sr' : Sr) (e : Event) (events : List Event)
        → step sr e ≡ some sr'
        → MustGiveUp sr' events
        → MustGiveUp sr (e ∷ events)

  run_on :
      (sr : Sr) (e : Event) (events : List Event) (m : Option Sr)
      → step sr e ≡ m
      → Ends (WellFormed is es) m
      → ((sr' : Sr)
          → WellFormed is es sr'
          → Ends (WellFormed is es) (run sr' events) ⊎ MustGiveUp sr' events)
      → Ends (WellFormed is es) (run sr (e ∷ events)) ⊎ MustGiveUp sr (e ∷ events)
  unfolding run
  run_on sr e events none same ends next = absurd ends
  run_on sr e events (some sr') same ends next = elim (next sr' ends) [
    | inl on ↦ inl (rw (same, run) on)
    | inr due ↦ inr (later_due sr sr' e events same due)
  ]

  run_from-Ends :
      (sr : Sr) (events : List Event)
      → WellFormed is es sr
      → AreDelivered is events
      → Ends (WellFormed is es) (run sr events) ⊎ MustGiveUp sr events
  unfolding run
  run_from-Ends sr [] w d = inl w
  run_from-Ends sr (e ∷ events) w d = elim (due-cases (time_of e) sr.cache.requests) [
    | inr due ↦ inr (now_due sr e events w due)
    | inl fresh ↦
        let (ends, rest) = step-Ends sr e events w d fresh in
        run_on sr e events (step sr e) refl ends (λ sr' w'. run_from-Ends sr' events w' rest)
  ]

  -- From its initialisation, with interfaces and with routes that all leave by them, the router
  -- handles every sequence of packets of at least 38 bytes on its interfaces and of rounds of the
  -- timeout thread without undefined behaviour, unless it comes to a request that is to be given up
  -- after five tries; the interfaces and routes stay, and the queue of requests is well formed.
  pub run-Ends :
      (sr : Sr) (events : List Event)
      → sr.if_list ≡ is
      → sr.routing_table ≡ es
      → AreDelivered is events
      → Ends (WellFormed is es) (run (sr_init sr) events) ⊎ MustGiveUp (sr_init sr) events
  unfolding sr_init sr_arpcache_init
  run-Ends sr events i r d =
      run_from-Ends (sr_init sr) events (record { ifs = i; routes = r; queue = tt }) d
