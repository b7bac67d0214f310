-- ===== src/Ctcp/Datagram/RoundTrip.antt =====
-- A segment of cTCP comes out of its datagram as it went in.
use Prim.Native.Nat.{bit_or}
use mini_internet_computer_n.Base.{
  ℕ, ◌+◌, ◌-◌, ◌%◌, ◌^◌, ◌<◌, ◌≡◌, ap, sym, ◌∙◌, false, [], arith, take, take_all, length,
  if◌then◌else◌,
}
use mini_internet_computer_n.Ctcp.Segment.{CtcpSegment, segment_cksum}
use mini_internet_computer_n.Ctcp.Datagram.{
  Peer, Host, create_datagram, cksum_tcp, put_tcp_hdr, filled, convert_to_datagram, extracted,
  convert_to_ctcp,
}

-- The segment's fields fit their widths, its flags fit a byte, and its length is right.
pub record IsPlain (s : CtcpSegment) : Type 0 where
  pub seqno_fits : s.seqno < 2 ^ 32
  pub ackno_fits : s.ackno < 2 ^ 32
  pub no_pad : s.pad ≡ 0
  pub flags_fit : s.flags < 256
  pub sum_fits : s.sum < 65536
  pub counted : s.len ≡ 20 + length s.payload
  pub len_fits : s.len < 65516

module _ (host : Host) (dst src : Peer) (seg : CtcpSegment) (plain : IsPlain seg)
    (local_net : host.web ≡ false) (forth : src.their_init_seqno ≡ dst.init_seqno)
    (back : src.init_seqno ≡ dst.their_init_seqno) (init_fits : dst.init_seqno < 2 ^ 32)
    (their_fits : dst.their_init_seqno < 2 ^ 32) where
  extracted-filled : extracted src (filled host dst seg seg.len) ≡ record seg { sum = 0 }
  unfolding extracted filled create_datagram
  extracted-filled =
      let fits = plain.len_fits in
      let counted = plain.counted in
      let same_seqno : ((seg.seqno + dst.init_seqno) % 2 ^ 32 + 2 ^ 32 - src.their_init_seqno)
            % 2 ^ 32
          ≡ seg.seqno =
        let fit = plain.seqno_fits in omega arith in
      let same_ackno : ((seg.ackno + dst.their_init_seqno) % 2 ^ 32 + 2 ^ 32 - src.init_seqno)
            % 2 ^ 32
          ≡ seg.ackno =
        let fit = plain.ackno_fits in omega arith in
      let size : (seg.len + 65536 - 20) % 65536 ≡ length seg.payload = omega arith in
      let size' : ((20 + ((seg.len + 65536 - 20) % 65536 + 20) % 65536) % 65536 + 65536 - 40)
            % 65536
          ≡ length seg.payload =
        omega arith in
      let same_len : (((20 + ((seg.len + 65536 - 20) % 65536 + 20) % 65536) % 65536 + 65536 - 40)
                % 65536
              + 20)
            % 65536
          ≡ seg.len =
        omega arith in
      let same_flags : (if host.web then bit_or (seg.flags % 256) 16 else seg.flags % 256)
          ≡ seg.flags =
        ap (λ b. if b then bit_or (seg.flags % 256) 16 else seg.flags % 256) local_net
        ∙ (let fit = plain.flags_fit in omega arith) in
      let same_payload : take
            (((20 + ((seg.len + 65536 - 20) % 65536 + 20) % 65536) % 65536 + 65536 - 40) % 65536)
            (take ((seg.len + 65536 - 20) % 65536) seg.payload)
          ≡ seg.payload =
        ap (take _) (take_all ((seg.len + 65536 - 20) % 65536) seg.payload (omega arith))
        ∙ take_all _ seg.payload (omega arith) in
      λ i. record {
        seqno = same_seqno i;
        ackno = same_ackno i;
        len = same_len i;
        pad = sym plain.no_pad i;
        flags = same_flags i;
        window = seg.window;
        sum = 0;
        payload = same_payload i;
      }

  -- What the checksum comes to, for the segment `e` that is extracted.
  abbrev resum : CtcpSegment → ℕ
  resum e =
      let d = filled host dst seg seg.len in
      (segment_cksum e [] e.len
        + cksum_tcp d ((d.tot_len + 65536 - 40) % 65536)
        + 65536
        - (cksum_tcp d ((seg.len + 65536 - 20) % 65536)
            + segment_cksum seg [] seg.len
            + 65536
            - seg.sum)
          % 65536)
      % 65536

  data_len :
      ((filled host dst seg seg.len).tot_len + 65536 - 40) % 65536 ≡ (seg.len + 65536 - 20) % 65536
  unfolding filled create_datagram
  data_len = let fits = plain.len_fits in let counted = plain.counted in omega arith

  resum-eq : resum (record seg { sum = 0 }) ≡ seg.sum
  unfolding segment_cksum
  resum-eq =
      let fit = plain.sum_fits in
      let t = ap (cksum_tcp (filled host dst seg seg.len)) data_len in omega arith

  -- A segment whose fields fit their widths, with zero padding and a length field that counts its
  -- data, whatever its checksum is, that one host converts to a datagram and its peer converts back
  -- is the same segment, with the same checksum, if the host does not talk to the web and both hosts
  -- agree on the initial sequence numbers.
  pub convert_to_ctcp-datagram :
      convert_to_ctcp src (convert_to_datagram host dst seg seg.len) ≡ seg
  unfolding convert_to_ctcp convert_to_datagram extracted cksum_tcp put_tcp_hdr
  convert_to_ctcp-datagram =
      ap (λ (e : CtcpSegment). record e { sum = resum e }) extracted-filled
      ∙ ap (λ (n : ℕ). record seg { sum = n }) resum-eq
