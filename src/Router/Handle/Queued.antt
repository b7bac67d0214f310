-- ===== src/Router/Handle/Queued.antt =====
-- Packets in transit whose gateway is not in the cache.
use mini_internet_computer_n.Base.{
  ℕ, ◌^◌, ◌<◌, ◌+◌, ◌-◌, ◌%◌, ◌≤◌, ◌≡◌, refl, ◌∙◌, ap, true, none, some, List, [], ◌∷◌, arith, ltb,
  lt→ltb, leb, ==_refl, take,
}
use mini_internet_computer_n.Router.Headers.{
  Bytes, mac, EthernetHdr, IpHdr, ArpHdr, put_ethernet, put_ip, put_arp,
}
use mini_internet_computer_n.Router.State.{
  Name, copy_name, SrIf, SrRt, SrPacket, ArpReq, ArpCache, Sr,
}
use mini_internet_computer_n.Router.Interfaces.{find_interface, sr_get_interface}
use mini_internet_computer_n.Router.Interfaces.Laws.{find_interface-copy, find_interface_self}
use mini_internet_computer_n.Router.Table.{lpm}
use mini_internet_computer_n.Router.ArpCache.{
  find_request, change_request, new_request, add_packet, enqueue, ensure_request,
  sr_arpcache_lookup, sr_arpcache_queuereq,
}
use mini_internet_computer_n.Router.Send.{with_ip_sum}
use mini_internet_computer_n.Router.Arp.{
  request_ethernet, request_arp, request_frame, sending_interface, set_requests, count_try,
  send_arp_request, handle_arpreq,
}
use mini_internet_computer_n.Router.Handle.{
  ip_valid, find_ip, less_ttl, queue_for, send_next_hop, sr_ip_packet_next_hop, sr_handlepacket,
}
use mini_internet_computer_n.Router.Handle.Replies.{
  frame_parts, frame_parts-put, with_ip_sum-IsIpHdr, with_ip_sum-valid,
}
use mini_internet_computer_n.Router.Handle.Resolve.{arp_parts, arp_parts-put}
use mini_internet_computer_n.Router.Handle.Forward.{IsIpPacket, sent_from, handle_transit}

-- The request for a gateway after its first try.
abbrev first_request : ℕ → ℕ → Bytes → Name → ArpReq
first_request gw now buf iface = record {
  ip = gw;
  sent = now;
  times_sent = 1;
  packets = record { buf = buf; iface = copy_name iface } ∷ [];
}

-- The headers of an Ethernet broadcast from interface `i` that asks who has `ip`.
abbrev pub asking_headers : SrIf → ℕ → EthernetHdr × ArpHdr
asking_headers i ip = (
  record {
    ether_dhost = mac 0xff 0xff 0xff 0xff 0xff 0xff;
    ether_shost = i.addr;
    ether_type = 0x0608;
  },
  record {
    ar_hrd = 0x0100;
    ar_pro = 0x0008;
    ar_hln = 6;
    ar_pln = 4;
    ar_op = 0x0100;
    ar_sha = i.addr;
    ar_sip = i.ip;
    ar_tha = mac 0xff 0xff 0xff 0xff 0xff 0xff;
    ar_tip = ip;
  },
)

-- The router that has queued the frame `buf` and sent the frame `request` for the gateway.
abbrev pub asked_for : Sr → SrIf → SrRt → ℕ → Bytes → Bytes → Sr
asked_for sr i rt now request buf = record sr {
  cache = record sr.cache {
    requests = first_request rt.gw now buf rt.interface ∷ sr.cache.requests;
  };
  wire = (request, take 16 i.name) ∷ sr.wire;
}

change_head :
    (f : ArpReq → ArpReq) (r : ArpReq) (rs : List ArpReq)
    → change_request f r.ip (r ∷ rs) ≡ f r ∷ rs
unfolding change_request
change_head f r rs = rw (==_refl r.ip)

find_head : (r : ArpReq) (rs : List ArpReq) → find_request r.ip (r ∷ rs) ≡ some r
unfolding find_request
find_head r rs = rw (==_refl r.ip)

abbrev queued_request : ℕ → Bytes → Name → ArpReq
queued_request gw buf iface =
    add_packet (record { buf = buf; iface = copy_name iface }) (new_request gw)

request_sent :
    (now : ℕ) (sr : Sr) (gw : ℕ) (buf : Bytes) (iface : Name) (rs : List ArpReq) (i : SrIf)
    → sr_get_interface sr iface ≡ some i
    → sr.cache.requests ≡ queued_request gw buf iface ∷ rs
    → send_arp_request now sr (queued_request gw buf iface)
      ≡ some (record sr {
        cache = record sr.cache { requests = first_request gw now buf iface ∷ rs };
        wire = (request_frame i gw, take 16 i.name) ∷ sr.wire;
      })
unfolding send_arp_request sending_interface sr_get_interface request_frame
request_sent now sr gw buf iface rs i g q =
    let named : find_interface sr.if_list (copy_name iface) ≡ some i =
      find_interface-copy sr.if_list iface ∙ g in
    let self : find_interface sr.if_list i.name ≡ some i =
      find_interface_self sr.if_list iface i g in
    rw (named, send_arp_request)
      (rw (q, change_head (count_try now) (queued_request gw buf iface) rs)
        (ap some (
          sent_from (set_requests sr (first_request gw now buf iface ∷ rs)) i.name i
            (request_ethernet i) (put_arp (request_arp i gw) []) (unfold sr_get_interface in self)
            refl)))

queuereq_new :
    (c : ArpCache) (gw b : ℕ) (rest : Bytes) (iface : Name)
    → find_request gw c.requests ≡ none
    → sr_arpcache_queuereq c gw (b ∷ rest) iface
      ≡ record c { requests = queued_request gw (b ∷ rest) iface ∷ c.requests }
unfolding sr_arpcache_queuereq enqueue ensure_request
queuereq_new c gw b rest iface n =
    let p : SrPacket = record { buf = b ∷ rest; iface = copy_name iface } in
    rw (n, ensure_request) (rw (change_head (add_packet p) (new_request gw) c.requests) refl)

module _ (now : ℕ) where
  request_handled :
      (sr : Sr) (gw : ℕ) (buf : Bytes) (iface : Name)
      → 1 ≤ now
      → handle_arpreq now sr (queued_request gw buf iface)
        ≡ send_arp_request now sr (queued_request gw buf iface)
  unfolding handle_arpreq
  request_handled sr gw buf iface l = let due : leb 1 now ≡ true = ground arith in rw due

  frame_queued :
      (sr : Sr) (b : ℕ) (rest : Bytes) (rt : SrRt) (i : SrIf)
      → 1 ≤ now
      → find_request rt.gw sr.cache.requests ≡ none
      → sr_get_interface sr rt.interface ≡ some i
      → queue_for now sr (b ∷ rest) rt
        ≡ some (asked_for sr i rt now (request_frame i rt.gw) (b ∷ rest))
  unfolding queue_for
  frame_queued sr b rest rt i l n g =
      let req : ArpReq = queued_request rt.gw (b ∷ rest) rt.interface in
      let rs = sr.cache.requests in
      let sr' = record sr { cache = record sr.cache { requests = req ∷ rs } } in
      let made = queuereq_new sr.cache rt.gw b rest rt.interface n in
      rw (made, queue_for)
        (rw (find_head req rs, queue_for)
          (rw made (
            request_handled sr' rt.gw (b ∷ rest) rt.interface l
            ∙ request_sent now sr' rt.gw (b ∷ rest) rt.interface rs i (unfold sr_get_interface in g)
                refl)))

  module _ (sr : Sr) (interface : Name) {p : Bytes} {eth : EthernetHdr} {ip : IpHdr} {body : Bytes}
      (k : IsIpPacket p eth ip body) where
    frame_kept :
        {rt : SrRt} {i : SrIf}
        → 1 ≤ now
        → find_ip ip.ip_dst sr.if_list ≡ none
        → lpm sr ip.ip_dst ≡ some rt
        → sr_arpcache_lookup sr.cache rt.gw ≡ none
        → find_request rt.gw sr.cache.requests ≡ none
        → sr_get_interface sr rt.interface ≡ some i
        → 2 ≤ ip.ip_ttl
        → sr_handlepacket now sr p interface
          ≡ some (
              asked_for sr i rt now (request_frame i rt.gw) (
                put_ethernet eth
                  (put_ip (with_ip_sum (record ip { ip_ttl = ip.ip_ttl - 1 })) body)))
    unfolding sr_ip_packet_next_hop send_next_hop
    frame_kept {rt} {i} l n found miss new g t =
        let b : ltb 0 (less_ttl ip).ip_ttl ≡ true = lt→ltb _ _ (omega (arith, k.small)) in
        let low : (ip.ip_ttl + 255) % 256 ≡ ip.ip_ttl - 1 = omega (arith, k.small) in
        handle_transit now sr interface k n
        ∙ rw (found, sr_ip_packet_next_hop)
            (rw b (rw (miss, send_next_hop) (rw low (frame_queued sr _ _ rt i l new g))))

    -- A packet in transit with a ttl of at least 2, whose gateway is neither cached nor asked for,
    -- is not sent: it waits, with a ttl lower by one and a right checksum, in a new request for the
    -- gateway. One frame is sent by the interface of its route, to all: an ARP request for the
    -- gateway's address, from that interface's addresses.
    pub handle_queued :
        {rt : SrRt} {i : SrIf}
        → 1 ≤ now
        → find_ip ip.ip_dst sr.if_list ≡ none
        → lpm sr ip.ip_dst ≡ some rt
        → sr_arpcache_lookup sr.cache rt.gw ≡ none
        → find_request rt.gw sr.cache.requests ≡ none
        → sr_get_interface sr rt.interface ≡ some i
        → 2 ≤ ip.ip_ttl
        → rt.gw < 2 ^ 32
        → i.ip < 2 ^ 32
        → (f g : Bytes) × (sr_handlepacket now sr p interface ≡ some (asked_for sr i rt now f g))
          × (arp_parts f ≡ some (asking_headers i rt.gw))
          × (frame_parts g ≡ some (eth, with_ip_sum (record ip { ip_ttl = ip.ip_ttl - 1 }), body))
          × (ip_valid (with_ip_sum (record ip { ip_ttl = ip.ip_ttl - 1 })) ≡ true)
    unfolding request_frame
    handle_queued {rt} {i} l n found miss new g t gw_fits ip_fits =
        let low : IpHdr = record ip { ip_ttl = ip.ip_ttl - 1 } in
        (
          request_frame i rt.gw,
          put_ethernet eth (put_ip (with_ip_sum low) body),
          frame_kept l n found miss new g t,
          arp_parts-put (request_ethernet i) (request_arp i rt.gw) [] (omega arith) (record {
            hrd = omega arith;
            pro = omega arith;
            op = omega arith;
            sip = ip_fits;
            tip = gw_fits;
          }),
          frame_parts-put eth (with_ip_sum low) body (omega (arith, k.type))
              (with_ip_sum-IsIpHdr low (omega (arith, k.fits)) (omega (arith, k.small))),
          with_ip_sum-valid low,
        )
