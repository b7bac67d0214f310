-- ===== src/Ctcp/Datagram.antt =====
-- Segments of cTCP as TCP datagrams: `create_datagram` and `cksum_tcp` of lab3/ctcp_sys_internal.h,
-- `convert_to_datagram` and `convert_to_ctcp` of ctcp_sys_internal.c.
pub mod RoundTrip
use Prim.Native.Nat.{bit_or}
use mini_internet_computer_n.Base.{
  ℕ, ◌+◌, ◌-◌, ◌%◌, ◌^◌, Bool, List, [], ◌∷◌, ◌++◌, if◌then◌else◌, take, length,
}
use mini_internet_computer_n.Checksum.{cksum}
use mini_internet_computer_n.Ctcp.Segment.{
  CtcpSegment, ctcp_hdr_size, th_ack, big16, big32, little32, put_ctcp, segment_cksum,
}

-- The IP and the TCP header, and what follows them. A field that the code converts by `htonl` or
-- `htons` holds its value in host order; addresses and checksums are as they are stored.
pub record Datagram : Type 0 where
  pub tot_len : ℕ
  pub check : ℕ
  pub saddr : ℕ
  pub daddr : ℕ
  pub th_sport : ℕ
  pub th_dport : ℕ
  pub th_seq : ℕ
  pub th_ack_no : ℕ
  pub th_flags : ℕ
  pub th_win : ℕ
  pub th_sum : ℕ
  pub payload : List ℕ

-- The part of `struct conn` that the conversions read.
pub record Peer : Type 0 where
  pub ip_addr : ℕ
  pub port : ℕ
  pub init_seqno : ℕ
  pub their_init_seqno : ℕ

-- This host's address and port, and whether it talks to the web.
pub record Host : Type 0 where
  pub ip_addr : ℕ
  pub port : ℕ
  pub web : Bool

-- The bytes of the IP header, with the checksum field zero.
unfoldable pub put_ip_hdr : ℕ → ℕ → ℕ → List ℕ
put_ip_hdr tot_len saddr daddr =
    0x45
    ∷ 0
    ∷ big16 tot_len (big16 144 (0 ∷ 0 ∷ 64 ∷ 6 ∷ 0 ∷ 0 ∷ little32 saddr (little32 daddr [])))

-- A datagram for `len` bytes of TCP, whose bytes are still zero.
unfoldable pub create_datagram : ℕ → ℕ → ℕ → Datagram
create_datagram src_ip dst_ip len = record {
  tot_len = (20 + len) % 65536;
  check = cksum (put_ip_hdr ((20 + len) % 65536) src_ip dst_ip);
  saddr = src_ip;
  daddr = dst_ip;
  th_sport = 0;
  th_dport = 0;
  th_seq = 0;
  th_ack_no = 0;
  th_flags = 0;
  th_win = 0;
  th_sum = 0;
  payload = [];
}

-- The bytes of the TCP header, with the checksum field zero and the offset 5.
unfoldable pub put_tcp_hdr : Datagram → List ℕ → List ℕ
put_tcp_hdr d r = big16 d.th_sport (
    big16 d.th_dport (
      big32 d.th_seq
        (big32 d.th_ack_no (0x50 ∷ (d.th_flags % 256) ∷ big16 d.th_win (0 ∷ 0 ∷ 0 ∷ 0 ∷ r)))))

-- The checksum over the pseudoheader, the TCP header and `len` bytes of data, where `th_sum` is zero.
unfoldable pub cksum_tcp : Datagram → ℕ → ℕ
cksum_tcp d len = cksum (
    take ((len + 32) % 65536) (
      little32 d.saddr
        (little32 d.daddr (0 ∷ 6 ∷ big16 (20 + len) (put_tcp_hdr d (take len d.payload))))))

-- The datagram without its TCP checksum.
unfoldable pub filled : Host → Peer → CtcpSegment → ℕ → Datagram
filled host dst seg len =
    let data_len = (len + 65536 - ctcp_hdr_size) % 65536 in
    record (create_datagram host.ip_addr dst.ip_addr ((data_len + 20) % 65536)) {
      th_sport = host.port % 65536;
      th_dport = dst.port % 65536;
      th_seq = (seg.seqno + dst.init_seqno) % 2 ^ 32;
      th_ack_no = (seg.ackno + dst.their_init_seqno) % 2 ^ 32;
      th_flags = if host.web then bit_or (seg.flags % 256) th_ack else seg.flags % 256;
      th_win = seg.window;
      payload = take data_len seg.payload;
    }

-- The difference between the segment's checksum and the right one is added to the TCP checksum.
unfoldable pub convert_to_datagram : Host → Peer → CtcpSegment → ℕ → Datagram
convert_to_datagram host dst seg len =
    let d = filled host dst seg len in
    let correct_sum = segment_cksum seg [] len in
    record d {
      th_sum =
          (cksum_tcp d ((len + 65536 - ctcp_hdr_size) % 65536) + correct_sum + 65536 - seg.sum)
          % 65536;
    }

-- The segment without its checksum.
unfoldable pub extracted : Peer → Datagram → CtcpSegment
extracted src d =
    let data_len = (d.tot_len + 65536 - 40) % 65536 in
    record {
      seqno = (d.th_seq + 2 ^ 32 - src.their_init_seqno) % 2 ^ 32;
      ackno = (d.th_ack_no + 2 ^ 32 - src.init_seqno) % 2 ^ 32;
      len = (data_len + ctcp_hdr_size) % 65536;
      pad = 0;
      flags = d.th_flags;
      window = d.th_win;
      sum = 0;
      payload = take data_len d.payload;
    }

-- The same difference is added to the segment's checksum.
unfoldable pub convert_to_ctcp : Peer → Datagram → CtcpSegment
convert_to_ctcp src d =
    let seg = extracted src d in
    let correct_sum = cksum_tcp d ((d.tot_len + 65536 - 40) % 65536) in
    record seg { sum = (segment_cksum seg [] seg.len + correct_sum + 65536 - d.th_sum) % 65536 }
