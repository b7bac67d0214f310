-- ===== src/Router/Handle/Total.antt =====
-- `sr_handlepacket` on a well-formed router.
use mini_internet_computer_n.Base.{
  ℕ, ◌≤◌, ◌≡◌, refl, ◌∙◌, ap, inl, inr, false, some, List, ◌∷◌, arith, ◌==◌, ltb, Bool-cases,
  Option-cases, length,
}
use mini_internet_computer_n.Checksum.{swap16}
use mini_internet_computer_n.Router.Headers.{Bytes, EthernetHdr, IpHdr, ArpHdr}
use mini_internet_computer_n.Router.Headers.RoundTrip.{
  get_ethernet_total, get_ip_total, get_arp_total,
}
use mini_internet_computer_n.Router.State.{Name, SrIf, SrRt, ArpCache, Sr}
use mini_internet_computer_n.Router.Interfaces.{sr_get_interface}
use mini_internet_computer_n.Router.Table.{lpm}
use mini_internet_computer_n.Router.Table.Verify.{RoutesOk, lpm-Resolves}
use mini_internet_computer_n.Router.ArpCache.{
  find_request, new_request, enqueue, ensure_request, sr_arpcache_queuereq, sr_arpcache_lookup,
  add_packet,
}
use mini_internet_computer_n.Router.ArpCache.Queue.{Resolves, QueueOk, find-ReqOk}
use mini_internet_computer_n.Router.ArpCache.Enqueue.{
  queued, old_request, find-queuereq, queuereq-QueueOk, find-ip,
}
use mini_internet_computer_n.Router.Send.{
  send_icmp_echo_packet, dst_net_unreachable, port_unreachable, time_exceeded, with_ip_sum,
  echo_frame,
}
use mini_internet_computer_n.Router.Arp.{arp_op_reply, arp_op_request, handle_arpreq}
use mini_internet_computer_n.Router.Arp.Safe.{Ends, Ends-mono, Still}
use mini_internet_computer_n.Router.Arp.Handled.{
  NoneDue, NotDue, find-NotDue, AfterRequest, handle_arpreq-Ends, Handled-QueueOk,
}
use mini_internet_computer_n.Router.Arp.Sweep.{WellFormed}
use mini_internet_computer_n.Router.Handle.{
  reply_frame, handle_arp_request, sr_handle_arp_packet_type, ip_packet_forwarding, icmp_valid,
  ip_valid, sr_ip_packet_reply, less_ttl, hop_frame, queue_for, send_next_hop,
  sr_ip_packet_next_hop, sr_handle_ip_packet_type, sr_handlepacket,
}
use mini_internet_computer_n.Router.Handle.Safety.{
  Ok, send-WellFormed, error-WellFormed, arp_reply-Ends, Still-WellFormed,
}

module _ (is : List SrIf) (es : List SrRt) (now : ℕ) (sr : Sr) (interface : Name)
    (here : Resolves is interface) (w : WellFormed is es sr) where
  found_here : (i : SrIf) × (sr_get_interface sr interface ≡ some i)
  unfolding sr_get_interface
  found_here = (here.0, rw w.ifs here.1)

  arp_request-Ends :
      (eth : EthernetHdr) (arp : ArpHdr) (len : ℕ) (i : SrIf)
      → Ok is es (handle_arp_request sr eth arp len (some i))
  unfolding handle_arp_request
  arp_request-Ends eth arp len i = elim (Bool-cases (arp.ar_tip == i.ip)) [
    | inl e ↦ rw e (send-WellFormed is es sr (reply_frame i len eth arp) i.name w)
    | inr e ↦ rw e w
  ]

  arp-Ends : (p : Bytes) → 42 ≤ length p → Ok is es (sr_handle_arp_packet_type now sr p interface)
  unfolding sr_handle_arp_packet_type
  arp-Ends p l =
      let (eth, r, e, m) = get_ethernet_total p (omega arith) in
      let (arp, r', e', m') = get_arp_total r (omega arith) in
      let (i, f) = found_here in
      rw (e, sr_handle_arp_packet_type)
        (rw (e', sr_handle_arp_packet_type)
          (rw f (elim (Bool-cases (swap16 arp.ar_op == arp_op_reply)) [
            | inl a ↦ rw a (arp_reply-Ends is es now sr arp i w)
            | inr a ↦ rw a (elim (Bool-cases (swap16 arp.ar_op == arp_op_request)) [
              | inl b ↦ rw b (arp_request-Ends eth arp (length p) i)
              | inr b ↦ rw b w
            ])
          ])))

  reply-Ends :
      (eth : EthernetHdr) (ip : IpHdr) (body : Bytes) (len dest : ℕ)
      → 38 ≤ len
      → Ok is es (sr_ip_packet_reply sr eth ip body len interface dest)
  unfolding sr_ip_packet_reply send_icmp_echo_packet
  reply-Ends eth ip body len dest l =
      let (i, f) = found_here in
      let long : ltb len 38 ≡ false = ground arith in
      elim (Bool-cases (ip.ip_p == 1)) [
        | inl a ↦
            rw (a, long)
              (elim (Bool-cases (icmp_valid body)) [
                | inl b ↦
                    rw (b, f, send_icmp_echo_packet)
                      (send-WellFormed is es sr (echo_frame i len dest eth ip body) interface w)
                | inr b ↦ rw b w
              ])
        | inr a ↦
            rw a (error-WellFormed is es sr interface len dest eth ip port_unreachable l here w)
      ]

  old_request-NotDue :
      (ip : ℕ) → NoneDue now sr.cache.requests → NotDue now (old_request ip sr.cache.requests)
  unfolding old_request new_request
  old_request-NotDue ip n = elim (Option-cases (find_request ip sr.cache.requests)) [
    | inl none_there ↦ rw (none_there, old_request) (inr (omega arith))
    | inr r ↦ rw (r.1, old_request) (find-NotDue now ip sr.cache.requests r.0 r.1 n)
  ]

  queue_for-Ends :
      (b : ℕ) (rest : Bytes) (rt : SrRt)
      → 14 ≤ length (b ∷ rest)
      → Resolves is rt.interface
      → NoneDue now sr.cache.requests
      → Ok is es (queue_for now sr (b ∷ rest) rt)
  unfolding queue_for sr_arpcache_queuereq
  queue_for-Ends b rest rt l r n =
      let rs = sr.cache.requests in
      let c : ArpCache = record sr.cache {
        requests = enqueue (b ∷ rest) rt.interface rt.gw (ensure_request rt.gw rs);
      } in
      let q : QueueOk is c.requests =
        queuereq-QueueOk is rt.gw b rest rt.interface rs l r w.queue in
      let req = add_packet (queued is rt.gw b rest rt.interface rs) (old_request rt.gw rs) in
      let found : find_request rt.gw c.requests ≡ some req =
        find-queuereq is rt.gw b rest rt.interface rs in
      let still : Still is es c (record sr { cache = c }) = record {
        ifs = w.ifs;
        routes = w.routes;
        cache = refl;
      } in
      rw (found, queue_for)
        (Ends-mono (handle_arpreq now (record sr { cache = c }) req) (AfterRequest is es now req c)
          (WellFormed is es)
          (handle_arpreq-Ends is es c now (record sr { cache = c }) req
            (find-ReqOk is rt.gw c.requests req q found) still (old_request-NotDue rt.gw n))
          (λ sr' (c', h, w').
            Still-WellFormed is es c' sr'
              (Handled-QueueOk is now req c c' q
                (ap (λ k. find_request k c.requests) (find-ip rt.gw c.requests req found) ∙ found)
                h)
              w'))

  next_hop-Ends :
      (eth : EthernetHdr) (ip : IpHdr) (body : Bytes) (len : ℕ)
      → 38 ≤ len
      → RoutesOk is es
      → NoneDue now sr.cache.requests
      → Ok is es (sr_ip_packet_next_hop now sr eth ip body len interface)
  unfolding sr_ip_packet_next_hop send_next_hop sr_get_interface
  next_hop-Ends eth ip body len l routes fresh = elim (Option-cases (lpm sr ip.ip_dst)) [
    | inl n ↦
        rw (n, sr_ip_packet_next_hop)
          (error-WellFormed is es sr interface len 0 eth ip dst_net_unreachable l here w)
    | inr rt ↦
        let resolves = lpm-Resolves is sr ip.ip_dst rt.0 (rw w.routes routes) rt.1 in
        rw (rt.1, sr_ip_packet_next_hop)
          (elim (Bool-cases (ltb 0 (less_ttl ip).ip_ttl)) [
            | inr z ↦
                rw z (
                  error-WellFormed is es sr interface len 0 eth (less_ttl ip) time_exceeded l here
                    w)
            | inl p ↦ rw p (elim (Option-cases (sr_arpcache_lookup sr.cache rt.0.gw)) [
              | inl miss ↦
                  rw (miss, send_next_hop) (queue_for-Ends _ _ rt.0 (omega arith) resolves fresh)
              | inr e ↦
                  rw (e.1, send_next_hop)
                    (rw (w.ifs, resolves.1, send_next_hop)
                      (send-WellFormed is es sr
                        (hop_frame e.0.mac resolves.0 eth (with_ip_sum (less_ttl ip)) body)
                        rt.0.interface w))
            ])
          ])
  ]

  ip-Ends :
      (p : Bytes)
      → 38 ≤ length p
      → RoutesOk is es
      → NoneDue now sr.cache.requests
      → Ok is es (sr_handle_ip_packet_type now sr p interface)
  unfolding sr_handle_ip_packet_type
  ip-Ends p l routes fresh =
      let (eth, r, e, m) = get_ethernet_total p (omega arith) in
      let (ip, body, e', m') = get_ip_total r (omega arith) in
      rw (e, sr_handle_ip_packet_type)
        (rw (e', sr_handle_ip_packet_type)
          (elim (Bool-cases (ip_valid ip)) [
            | inr bad ↦ rw bad w
            | inl good ↦ rw good (elim (Option-cases (ip_packet_forwarding sr ip)) [
              | inl n ↦
                  rw (n, sr_handle_ip_packet_type)
                    (next_hop-Ends eth ip body (length p) l routes fresh)
              | inr i ↦
                  rw (i.1, sr_handle_ip_packet_type) (reply-Ends eth ip body (length p) i.0.ip l)
            ])
          ]))

  -- On a well-formed router whose routes all leave by its interfaces, and that has no request to
  -- give up, a packet of at least 38 bytes on one of the interfaces is handled without undefined
  -- behaviour, whatever its bytes are: there is a resulting state, with the same interfaces and
  -- routes and a well-formed queue.
  pub handlepacket-Ends :
      (p : Bytes)
      → 38 ≤ length p
      → RoutesOk is es
      → NoneDue now sr.cache.requests
      → Ends (WellFormed is es) (sr_handlepacket now sr p interface)
  unfolding sr_handlepacket
  handlepacket-Ends p l routes fresh =
      let (eth, r, e, m) = get_ethernet_total p (omega arith) in
      let long : ltb (length p) 34 ≡ false = ground arith in
      rw (e, sr_handlepacket)
        (elim (Bool-cases (swap16 eth.ether_type == 0x0806)) [
          | inl a ↦ rw a (elim (Bool-cases (ltb (length p) 42)) [
            | inl s ↦ rw s w
            | inr s ↦ rw s (arp-Ends p (ground arith))
          ])
          | inr a ↦ rw a (elim (Bool-cases (swap16 eth.ether_type == 0x0800)) [
            | inl b ↦ rw (b, long) (ip-Ends p l routes fresh)
            | inr b ↦ rw b w
          ])
        ])
