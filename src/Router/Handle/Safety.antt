-- ===== src/Router/Handle/Safety.antt =====
-- Sending, ICMP errors and ARP replies on a well-formed router.
use mini_internet_computer_n.Base.{
  ℕ, ◌≤◌, refl, inl, inr, Option, some, List, [], ◌∷◌, Option-cases,
}
use mini_internet_computer_n.Router.Headers.{Bytes, Mac, EthernetHdr, IpHdr, ArpHdr}
use mini_internet_computer_n.Router.Headers.RoundTrip.{get_ethernet_total}
use mini_internet_computer_n.Router.State.{Name, SrIf, SrRt, SrPacket, ArpCache, Sr}
use mini_internet_computer_n.Router.ArpCache.{find_request, sr_arpcache_insert}
use mini_internet_computer_n.Router.ArpCache.Queue.{
  Resolves, PacketsOk, QueueOk, unlink-QueueOk, find-ReqOk,
}
use mini_internet_computer_n.Router.Send.{sr_send_packet, send_icmp_error_packet}
use mini_internet_computer_n.Router.Arp.Safe.{
  Ends, Ends-bind, Ends-mono, Still, send-Still, error-Ends,
}
use mini_internet_computer_n.Router.Arp.Sweep.{WellFormed}
use mini_internet_computer_n.Router.Handle.{
  answered, all_answered, answer_waiting, handle_arp_reply,
}

module _ (is : List SrIf) (es : List SrRt) where
  abbrev pub Ok : Option Sr → Type 0
  Ok = Ends (WellFormed is es)

  pub Still-WellFormed :
      (c : ArpCache) (sr : Sr) → QueueOk is c.requests → Still is es c sr → WellFormed is es sr
  Still-WellFormed c sr q w = record { ifs = w.ifs; routes = w.routes; queue = rw w.cache q }

  WellFormed-Still : (sr : Sr) → WellFormed is es sr → Still is es sr.cache sr
  WellFormed-Still sr w = record { ifs = w.ifs; routes = w.routes; cache = refl }

  pub send-WellFormed :
      (sr : Sr) (buf : Bytes) (name : Name)
      → WellFormed is es sr
      → WellFormed is es (sr_send_packet sr buf name)
  send-WellFormed sr buf name w =
      Still-WellFormed sr.cache (sr_send_packet sr buf name) w.queue
        (send-Still is es sr.cache sr buf name (WellFormed-Still sr w))

  pub error-WellFormed :
      (sr : Sr) (name : Name) (len dest : ℕ) (eth : EthernetHdr) (ip : IpHdr) (e : _)
      → 38 ≤ len
      → Resolves is name
      → WellFormed is es sr
      → Ok (send_icmp_error_packet sr name len dest eth ip e)
  error-WellFormed sr name len dest eth ip e l r w =
      Ends-mono (send_icmp_error_packet sr name len dest eth ip e) (Still is es sr.cache)
        (WellFormed is es)
        (error-Ends is es sr.cache sr name len dest eth ip e l r (WellFormed-Still sr w))
        (λ sr' w'. Still-WellFormed sr.cache sr' w.queue w')

  all_answered-Ends :
      (sha : Mac) (i : SrIf) (sr : Sr) (ps : List SrPacket)
      → PacketsOk is ps
      → WellFormed is es sr
      → Ok (all_answered sha (some i) sr ps)
  unfolding all_answered answered
  all_answered-Ends sha i sr [] ok w = w
  all_answered-Ends sha i sr (p ∷ ps) ok w =
      let (h, r, e, _) = get_ethernet_total p.buf ok.0 in
      let send : Ends (WellFormed is es) (answered sha i sr p) =
        rw (e, answered) (send-WellFormed sr _ i.name w) in
      Ends-bind (answered sha i sr p) (λ sr'. all_answered sha (some i) sr' ps) (WellFormed is es)
        (WellFormed is es) send (λ sr' w'. all_answered-Ends sha i sr' ps ok.2 w')

  -- An ARP reply: its request is unlinked, and the frames that waited go out.
  pub arp_reply-Ends :
      (now : ℕ) (sr : Sr) (arp : ArpHdr) (i : SrIf)
      → WellFormed is es sr
      → Ok (handle_arp_reply now sr arp (some i))
  unfolding handle_arp_reply sr_arpcache_insert answer_waiting
  arp_reply-Ends now sr arp i w =
      let unlinked = unlink-QueueOk is arp.ar_sip sr.cache.requests w.queue in
      elim (Option-cases (find_request arp.ar_sip sr.cache.requests)) [
        | inl n ↦
            rw (n, answer_waiting) (record { ifs = w.ifs; routes = w.routes; queue = unlinked })
        | inr r ↦
            rw (r.1, answer_waiting)
              (all_answered-Ends arp.ar_sha i _ r.0.packets
                (find-ReqOk is arp.ar_sip sr.cache.requests r.0 w.queue r.1).packets
                (record { ifs = w.ifs; routes = w.routes; queue = unlinked }))
      ]
