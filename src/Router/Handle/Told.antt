-- ===== src/Router/Handle/Told.antt =====
-- ARP replies, and the frames that waited for them.
use mini_internet_computer_n.Base.{
  ℕ, ◌≡◌, refl, ◌∙◌, true, none, some, List, [], ◌∷◌, arith, ◌==◌, if◌then◌else◌, take,
}
use mini_internet_computer_n.Checksum.{swap16}
use mini_internet_computer_n.Router.Headers.{
  Bytes, Mac, EthernetHdr, ArpHdr, get_ethernet, put_ethernet,
}
use mini_internet_computer_n.Router.Headers.RoundTrip.{get_ethernet_total}
use mini_internet_computer_n.Router.State.{Name, SrIf, SrPacket, ArpReq, ArpCache, Sr}
use mini_internet_computer_n.Router.Interfaces.{sr_get_interface}
use mini_internet_computer_n.Router.Interfaces.Laws.{find_interface_self}
use mini_internet_computer_n.Router.ArpCache.{find_request, sr_arpcache_lookup, sr_arpcache_insert}
use mini_internet_computer_n.Router.ArpCache.Queue.{PacketsOk, QueueOk, find-ReqOk, find-unlink}
use mini_internet_computer_n.Router.ArpCache.Entries.{HasFree, Absent, lookup-insert}
use mini_internet_computer_n.Router.Handle.{
  answered, all_answered, answer_waiting, handle_arp_reply, sr_handle_arp_packet_type,
  sr_handlepacket,
}
use mini_internet_computer_n.Router.Handle.Forward.{sent_from}
use mini_internet_computer_n.Router.Handle.Resolve.{IsArpPacket, handle_arp}

-- The frame with both hardware addresses new: to `m`, from interface `i`.
redirected : Mac → SrIf → Bytes → Bytes
redirected m i buf = elim (get_ethernet buf) [
  | none ↦ buf
  | some (h, r) ↦ put_ethernet (record h { ether_dhost = m; ether_shost = i.addr }) r
]

-- The wire after all frames of the list have gone out by `i`, in the order of the list.
pub all_redirected : Mac → SrIf → List SrPacket → List (Bytes × Name) → List (Bytes × Name)
all_redirected m i [] wire = wire
all_redirected m i (p ∷ ps) wire =
    all_redirected m i ps ((redirected m i p.buf, take 16 i.name) ∷ wire)

all_answered-eq :
    (m : Mac) (i : SrIf) (is : List SrIf) (sr : Sr) (ps : List SrPacket)
    → sr_get_interface sr i.name ≡ some i
    → PacketsOk is ps
    → all_answered m (some i) sr ps ≡ some (record sr { wire = all_redirected m i ps sr.wire })
unfolding all_answered answered all_redirected redirected
all_answered-eq m i is sr [] g ok = refl
all_answered-eq m i is sr (p ∷ ps) g ok =
    let (h, r, e, _) = get_ethernet_total p.buf ok.0 in
    let hop : EthernetHdr = record h { ether_dhost = m; ether_shost = i.addr } in
    let wire = (put_ethernet hop r, take 16 i.name) ∷ sr.wire in
    let new : redirected m i p.buf ≡ put_ethernet hop r = rw (e, redirected) in
    rw (e, all_answered, new)
      (rw (sent_from sr i.name i hop r g refl)
        (all_answered-eq m i is (record sr { wire = wire }) ps (unfold sr_get_interface in g) ok.2))

module _ (now : ℕ) (sr : Sr) (interface : Name) {p : Bytes} {eth : EthernetHdr} {arp : ArpHdr}
    (k : IsArpPacket p eth arp) where
  reply_taken :
      (is : List SrIf) {i : SrIf} {req : ArpReq}
      → sr_get_interface sr interface ≡ some i
      → arp.ar_op ≡ 0x0200
      → find_request arp.ar_sip sr.cache.requests ≡ some req
      → PacketsOk is req.packets
      → sr_handlepacket now sr p interface
        ≡ some (record sr {
          cache = (sr_arpcache_insert sr.cache arp.ar_sha arp.ar_sip now).0;
          wire = all_redirected arp.ar_sha i req.packets sr.wire;
        })
  unfolding sr_handle_arp_packet_type handle_arp_reply sr_arpcache_insert answer_waiting
  reply_taken is {i} {req} g op found ok =
      let reply : (swap16 arp.ar_op == 2) ≡ true = ground arith in
      let named : sr_get_interface sr i.name ≡ some i =
        unfold sr_get_interface in find_interface_self sr.if_list interface i g in
      handle_arp now sr interface k
      ∙ rw (k.parse, sr_handle_arp_packet_type)
          (rw (k.parse_arp, sr_handle_arp_packet_type)
            (rw (g, reply)
              (rw (found, answer_waiting)
                (all_answered-eq arp.ar_sha i is _ req.packets (unfold sr_get_interface in named)
                  ok))))

  -- An ARP reply for an address that is waited for and not cached, with a free entry in the cache
  -- and a well-formed queue: its mapping is stored, the request for the address is unlinked, and
  -- lookups and requests of other addresses are as before. Every frame that waited is sent to the
  -- hardware address that the reply tells, by the interface that the reply came in by.
  pub handle_arp_told :
      (is : List SrIf) (other : ℕ) {i : SrIf} {req : ArpReq}
      → sr_get_interface sr interface ≡ some i
      → arp.ar_op ≡ 0x0200
      → find_request arp.ar_sip sr.cache.requests ≡ some req
      → QueueOk is sr.cache.requests
      → HasFree sr.cache.entries
      → Absent arp.ar_sip sr.cache.entries
      → (c : ArpCache) × (sr_handlepacket now sr p interface
          ≡ some (record sr { cache = c; wire = all_redirected arp.ar_sha i req.packets sr.wire }))
        × (sr_arpcache_lookup c other ≡ (
            if arp.ar_sip == other
            then some (record { mac = arp.ar_sha; ip = arp.ar_sip; added = now; valid = true })
            else sr_arpcache_lookup sr.cache other))
        × (find_request other c.requests
            ≡ (if arp.ar_sip == other then none else find_request other sr.cache.requests))
  unfolding sr_arpcache_insert
  handle_arp_told is other {i} {req} g op found ok free absent = (
    (sr_arpcache_insert sr.cache arp.ar_sha arp.ar_sip now).0,
    reply_taken is g op found (find-ReqOk is arp.ar_sip sr.cache.requests req ok found).packets,
    lookup-insert sr.cache arp.ar_sha arp.ar_sip now other free absent,
    find-unlink is arp.ar_sip other sr.cache.requests ok,
  )
