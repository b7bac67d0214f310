-- ===== src/Router/Handle/Resolve.antt =====
-- ARP requests for the router's address.
use mini_internet_computer_n.Base.{
  ℕ, ◌-◌, ◌≤◌, ◌<◌, ◌≡◌, refl, ◌∙◌, ap, true, false, Option, none, some, ◌∷◌, arith, ◌==◌, take,
  length, replicate, length-replicate,
}
use mini_internet_computer_n.Checksum.{swap16}
use mini_internet_computer_n.Router.Headers.{
  Bytes, EthernetHdr, ArpHdr, get_ethernet, get_arp, put_ethernet, put_arp,
}
use mini_internet_computer_n.Router.Headers.RoundTrip.{IsArpHdr}
use mini_internet_computer_n.Router.State.{Name, SrIf, Sr}
use mini_internet_computer_n.Router.Interfaces.{sr_get_interface}
use mini_internet_computer_n.Router.Interfaces.Laws.{find_interface_self}
use mini_internet_computer_n.Router.Handle.{
  reply_frame, handle_arp_request, sr_handle_arp_packet_type, sr_handlepacket,
}
use mini_internet_computer_n.Router.Handle.Forward.{sent_from}

-- A buffer that holds an ARP packet.
pub record IsArpPacket (p : Bytes) (eth : EthernetHdr) (arp : ArpHdr) : Type 0 where
  pub rest : Bytes
  pub padding : Bytes
  pub size : 42 ≤ length p
  pub parse : get_ethernet p ≡ some (eth, rest)
  pub parse_arp : get_arp rest ≡ some (arp, padding)
  pub type : eth.ether_type ≡ 0x0608
  pub fits : IsArpHdr arp

-- A frame as its receiver reads it: the Ethernet and the ARP header.
unfoldable pub arp_parts : Bytes → Option (EthernetHdr × ArpHdr)
arp_parts p = elim (get_ethernet p) [
  | none ↦ none
  | some (eth, r) ↦ elim (get_arp r) [ none ↦ none | some (arp, r') ↦ some (eth, arp) ]
]

pub arp_parts-put :
    (eth : EthernetHdr) (arp : ArpHdr) (r : Bytes)
    → eth.ether_type < 65536
    → IsArpHdr arp
    → arp_parts (put_ethernet eth (put_arp arp r)) ≡ some (eth, arp)
unfolding arp_parts
arp_parts-put eth arp r t f = ground arith

module _ (now : ℕ) (sr : Sr) (interface : Name) {p : Bytes} {eth : EthernetHdr} {arp : ArpHdr}
    (k : IsArpPacket p eth arp) where
  pub handle_arp : sr_handlepacket now sr p interface ≡ sr_handle_arp_packet_type now sr p interface
  unfolding sr_handlepacket
  handle_arp = ground arith

  -- A request for the address of the interface that it came in by is answered by one frame of the
  -- same length, which tells the sender the interface's hardware address.
  pub handle_arp_asked :
      {i : SrIf}
      → sr_get_interface sr interface ≡ some i
      → arp.ar_op ≡ 0x0100
      → arp.ar_tip ≡ i.ip
      → (f : Bytes) × (sr_handlepacket now sr p interface
          ≡ some (record sr { wire = (f, take 16 i.name) ∷ sr.wire }))
        × (length f ≡ length p)
        × (arp_parts f
            ≡ some (
              record { ether_dhost = eth.ether_shost; ether_shost = i.addr; ether_type = 0x0608 },
              record arp {
                ar_op = 0x0200;
                ar_sha = i.addr;
                ar_sip = i.ip;
                ar_tha = eth.ether_shost;
                ar_tip = arp.ar_sip;
              },
            ))
  unfolding sr_handle_arp_packet_type handle_arp_request reply_frame
  handle_arp_asked {i} g op mine =
      let not_reply : (swap16 arp.ar_op == 2) ≡ false = ground arith in
      let request : (swap16 arp.ar_op == 1) ≡ true = ground arith in
      let me : (arp.ar_tip == i.ip) ≡ true = ground arith in
      let named : sr_get_interface sr i.name ≡ some i =
        unfold sr_get_interface in find_interface_self sr.if_list interface i g in
      let back : EthernetHdr = record {
        ether_dhost = eth.ether_shost;
        ether_shost = i.addr;
        ether_type = 0x0608;
      } in
      let told : ArpHdr = record arp {
        ar_op = 0x0200;
        ar_sha = i.addr;
        ar_sip = i.ip;
        ar_tha = eth.ether_shost;
        ar_tip = arp.ar_sip;
      } in
      let fits : IsArpHdr told = record {
        hrd = k.fits.hrd;
        pro = k.fits.pro;
        op = omega arith;
        sip = rw mine at k.fits.tip;
        tip = k.fits.sip;
      } in
      (
        reply_frame i (length p) eth arp,
        handle_arp
            ∙ rw (k.parse, sr_handle_arp_packet_type)
                (rw (k.parse_arp, sr_handle_arp_packet_type)
                  (rw (g, not_reply, request)
                    (rw (me, handle_arp_request)
                      (ap some (
                        sent_from sr i.name i back (put_arp told (replicate (length p - 42) 0))
                          named refl))))),
        omega (arith, k.size, length-replicate {A = ℕ} (length p - 42) 0),
        arp_parts-put back told (replicate (length p - 42) 0) (omega arith) fits,
      )
