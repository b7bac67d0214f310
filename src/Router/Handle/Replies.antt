-- ===== src/Router/Handle/Replies.antt =====
-- The ICMP frames of `send_icmp_echo_packet` and `send_icmp_error_packet`, as their receiver reads
-- them.
use mini_internet_computer_n.Base.{
  ℕ, zero, suc, ◌+◌, ◌-◌, ◌^◌, ◌≤◌, ◌<◌, ◌≡◌, refl, true, Option, none, some, [], ◌∷◌, arith,
  ==_refl, get_or, drop, length, replicate, length-replicate, length-drop,
}
use mini_internet_computer_n.Checksum.{AreBytes, swap16, cksum}
use mini_internet_computer_n.Checksum.Closed.{
  word_sum, word_sum_bound, cksum_bounds, cksum-append_zeros,
}
use mini_internet_computer_n.Router.Headers.{
  Bytes, EthernetHdr, IpHdr, IcmpHdr, get_ethernet, get_ip, put_ethernet, put_ip, put_icmp,
}
use mini_internet_computer_n.Router.Headers.RoundTrip.{IsIpHdr}
use mini_internet_computer_n.Router.State.{SrIf}
use mini_internet_computer_n.Router.Send.{
  IcmpError, with_ip_sum, icmp_ethernet, icmp_ip_fields, icmp_ip, icmp_hdr, error_src, echo_frame,
  error_frame,
}
use mini_internet_computer_n.Router.Handle.{ip_valid, icmp_valid}

-- A frame as the receiver reads it: the Ethernet header, the IP header and the rest.
pub frame_parts : Bytes → Option (EthernetHdr × IpHdr × Bytes)
frame_parts p = elim (get_ethernet p) [
  | none ↦ none
  | some (eth, r) ↦ elim (get_ip r) [ none ↦ none | some (ip, body) ↦ some (eth, ip, body) ]
]

pub frame_parts-put :
    (eth : EthernetHdr) (ip : IpHdr) (body : Bytes)
    → eth.ether_type < 65536
    → IsIpHdr ip
    → frame_parts (put_ethernet eth (put_ip ip body)) ≡ some (eth, ip, body)
unfolding frame_parts
frame_parts-put eth ip body t v = ground arith

-- The bytes of a header are bytes, up to its type of service, ttl and protocol.
pub record AreSmall (h : IpHdr) : Type 0 where
  pub tos : h.ip_tos < 256
  pub ttl : h.ip_ttl < 256
  pub p : h.ip_p < 256

word_sum-put_ip : (h : IpHdr) → IsIpHdr h → AreSmall h → word_sum (put_ip h []) < 2 ^ 32
unfolding word_sum
word_sum-put_ip h v s = omega arith

-- The header that `with_ip_sum` completes fits its fields.
pub with_ip_sum-IsIpHdr : (h : IpHdr) → IsIpHdr h → AreSmall h → IsIpHdr (with_ip_sum h)
with_ip_sum-IsIpHdr h v s =
    let z : IpHdr = record h { ip_sum = 0 } in
    let b = cksum_bounds (put_ip z []) (word_sum-put_ip z (omega arith) (omega arith)) in
    omega arith

icmp_ip-IsIpHdr :
    (len src : ℕ) (h : IpHdr) → IsIpHdr h → AreSmall h → src < 2 ^ 32 → IsIpHdr (icmp_ip len src h)
icmp_ip-IsIpHdr len src h v s b =
    with_ip_sum-IsIpHdr (icmp_ip_fields len src h) (omega arith) (omega arith)

-- It passes the check of the next router.
pub with_ip_sum-valid : (h : IpHdr) → ip_valid (with_ip_sum h) ≡ true
with_ip_sum-valid h = ==_refl (cksum (put_ip (record h { ip_sum = 0 }) []))

swap16-lt : (v : ℕ) → swap16 v < 65536
swap16-lt v = omega arith

-- The message of a frame, ready to be compared with what the receiver computes.
pub record IsReply (len : ℕ) (send_if : SrIf) (eth : EthernetHdr) (to from kind code : ℕ)
    (f : Bytes) : Type 0 where
  pub size : length f ≡ len
  pub hdr : EthernetHdr
  pub ip : IpHdr
  pub body : Bytes
  pub parts : frame_parts f ≡ some (hdr, ip, body)
  pub dhost : hdr.ether_dhost ≡ eth.ether_shost
  pub shost : hdr.ether_shost ≡ send_if.addr
  pub ip_dst : ip.ip_dst ≡ to
  pub ip_src : ip.ip_src ≡ from
  pub ip_ttl : ip.ip_ttl ≡ 255
  pub ip_p : ip.ip_p ≡ 1
  pub ip_check : ip_valid ip ≡ true
  pub icmp_type : get_or body 0 0 ≡ kind
  pub icmp_code : get_or body 1 0 ≡ code
  pub icmp_check : icmp_valid body ≡ true

-- A message whose checksum is right for what follows it is accepted.
hdr_valid :
    (t c s : ℕ) (r : Bytes)
    → s < 65536
    → cksum (put_icmp (record { icmp_type = t; icmp_code = c; icmp_sum = 0 }) r) ≡ s
    → icmp_valid (put_icmp (record { icmp_type = t; icmp_code = c; icmp_sum = s }) r) ≡ true
unfolding icmp_valid
hdr_valid t c s r b e = ground arith

-- The checksum of the four bytes is that of the whole zero-padded message.
padded_valid :
    (t c n : ℕ) → t < 256 → c < 256 → icmp_valid (put_icmp (icmp_hdr t c []) (replicate n 0)) ≡ true
unfolding word_sum
padded_valid t c n bt bc =
    let h : IcmpHdr = record { icmp_type = t; icmp_code = c; icmp_sum = 0 } in
    let small : word_sum (put_icmp h []) < 2 ^ 32 = omega arith in
    hdr_valid t c (cksum (put_icmp h [])) (replicate n 0)
      (omega (arith, cksum_bounds (put_icmp h []) small))
      (cksum-append_zeros 2 n (put_icmp h []) refl small)

-- The error frame of at least 38 bytes goes back to the sender of the packet, and passes both of
-- its checks. Its source is the addressed interface for "port unreachable", and otherwise the
-- interface that sends it.
pub error_frame-IsReply :
    (send_if : SrIf) (len dest_if_ip : ℕ) (eth : EthernetHdr) (ip : IpHdr) (e : IcmpError)
    → 38 ≤ len
    → IsIpHdr ip
    → AreSmall ip
    → send_if.ip < 2 ^ 32
    → dest_if_ip < 2 ^ 32
    → e.error_type < 256
    → e.error_code < 256
    → IsReply len send_if eth ip.ip_src
        (error_src send_if dest_if_ip e)
        e.error_type
        e.error_code
        (error_frame send_if len dest_if_ip eth ip e)
unfolding error_frame
error_frame-IsReply send_if len dest_if_ip eth ip e l v s b d t c =
    let src : error_src send_if dest_if_ip e < 2 ^ 32 = ground arith in
    record {
      size = omega (arith, length-replicate {A = ℕ} (len - 38) 0);
      hdr = icmp_ethernet send_if eth;
      ip = icmp_ip len (error_src send_if dest_if_ip e) ip;
      body = put_icmp (icmp_hdr e.error_type e.error_code []) (replicate (len - 38) 0);
      parts = frame_parts-put _ _ _ (omega arith) (icmp_ip-IsIpHdr len _ ip v s src);
      dhost = refl;
      shost = refl;
      ip_dst = refl;
      ip_src = refl;
      ip_ttl = refl;
      ip_p = refl;
      ip_check = with_ip_sum-valid (icmp_ip_fields len (error_src send_if dest_if_ip e) ip);
      icmp_type = refl;
      icmp_code = refl;
      icmp_check = padded_valid e.error_type e.error_code (len - 38) t c;
    }

AreBytes-drop : (n : ℕ) (d : Bytes) → AreBytes d → AreBytes (drop n d)
AreBytes-drop zero d a = a
AreBytes-drop (suc n) [] a = tt
AreBytes-drop (suc n) (x ∷ d) a = AreBytes-drop n d a.1

echo_sum_small :
    (body : Bytes) → AreBytes body → length body ≤ 65535 → word_sum (0 ∷ 0 ∷ 0 ∷ 0 ∷ body) < 2 ^ 32
unfolding word_sum
echo_sum_small body a l = omega (arith, word_sum_bound body a)

-- The echo frame of a packet of at most 65535 bytes goes back to its sender from the address that
-- it was sent to, passes both checks, has the packet's length and returns its data.
pub echo_frame-IsReply :
    (send_if : SrIf) (len dest_if_ip : ℕ) (eth : EthernetHdr) (ip : IpHdr) (body : Bytes)
    → len ≡ 34 + length body
    → 4 ≤ length body
    → len ≤ 65535
    → AreBytes body
    → IsIpHdr ip
    → AreSmall ip
    → dest_if_ip < 2 ^ 32
    → IsReply len send_if eth ip.ip_src dest_if_ip 0 0
        (echo_frame send_if len dest_if_ip eth ip body)
      × (drop 38 (echo_frame send_if len dest_if_ip eth ip body) ≡ drop 4 body)
unfolding echo_frame
echo_frame-IsReply send_if len dest_if_ip eth ip body l four m a v s d =
    let rest = drop 4 body in
    let small =
      echo_sum_small rest (AreBytes-drop 4 body a) (omega (arith, length-drop {0} 4 body)) in
    (
      record {
        size = omega (arith, length-drop {0} 4 body);
        hdr = icmp_ethernet send_if eth;
        ip = icmp_ip len dest_if_ip ip;
        body = put_icmp (icmp_hdr 0 0 rest) rest;
        parts = frame_parts-put _ _ _ (omega arith) (icmp_ip-IsIpHdr len _ ip v s d);
        dhost = refl;
        shost = refl;
        ip_dst = refl;
        ip_src = refl;
        ip_ttl = refl;
        ip_p = refl;
        ip_check = with_ip_sum-valid (icmp_ip_fields len dest_if_ip ip);
        icmp_type = refl;
        icmp_code = refl;
        icmp_check =
            hdr_valid 0 0 (cksum (0 ∷ 0 ∷ 0 ∷ 0 ∷ rest)) rest
              (omega (arith, cksum_bounds (0 ∷ 0 ∷ 0 ∷ 0 ∷ rest) small)) refl;
      },
      refl,
    )
