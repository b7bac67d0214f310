-- ===== src/Ctcp/Segment.antt =====
-- `ctcp_segment_t` of lab3/ctcp_sys.h. A field that the code converts by `htonl` or `htons` holds its
-- value in host order; `flags` and `cksum` hold the word as it is stored.
use Prim.Native.Nat.{bit_or}
use mini_internet_computer_n.Base.{
  ℕ, ◌+◌, ◌/◌, ◌%◌, Bool, List, [], ◌∷◌, ◌++◌, ◌==◌, if◌then◌else◌, take, length,
}
use mini_internet_computer_n.Checksum.{cksum}

-- `pad` is the two bytes that the compiler puts in front of `flags`.
pub record CtcpSegment : Type 0 where
  pub seqno : ℕ
  pub ackno : ℕ
  pub len : ℕ
  pub pad : ℕ
  pub flags : ℕ
  pub window : ℕ
  pub sum : ℕ
  pub payload : List ℕ

-- `sizeof(ctcp_segment_t)`.
abbrev pub ctcp_hdr_size : ℕ
ctcp_hdr_size = 20

-- `TH_FIN` and `TH_ACK`, and the tests `flags & TH_FIN`, `flags & TH_ACK`.
abbrev pub th_fin : ℕ
th_fin = 1

abbrev pub th_ack : ℕ
th_ack = 16

abbrev pub has_fin : CtcpSegment → Bool
has_fin s = s.flags % 2 == 1

abbrev pub has_ack : CtcpSegment → Bool
has_ack s = s.flags / 16 % 2 == 1

abbrev pub big16 : ℕ → List ℕ → List ℕ
big16 v r = (v / 256 % 256) ∷ (v % 256) ∷ r

abbrev pub big32 : ℕ → List ℕ → List ℕ
big32 v r = (v / 16777216 % 256) ∷ (v / 65536 % 256) ∷ (v / 256 % 256) ∷ (v % 256) ∷ r

abbrev pub little16 : ℕ → List ℕ → List ℕ
little16 v r = (v % 256) ∷ (v / 256 % 256) ∷ r

abbrev pub little32 : ℕ → List ℕ → List ℕ
little32 v r = (v % 256) ∷ (v / 256 % 256) ∷ (v / 65536 % 256) ∷ (v / 16777216 % 256) ∷ r

-- The struct's bytes, followed by `r`.
abbrev pub put_ctcp : CtcpSegment → List ℕ → List ℕ
put_ctcp s r = big32 s.seqno (
    big32 s.ackno
      (big16 s.len (little16 s.pad (little32 s.flags (big16 s.window (little16 s.sum r))))))

-- `strlen`: the bytes before the first zero.
unfoldable pub strlen : List ℕ → ℕ
strlen [] = 0
strlen (b ∷ d) = let rest = strlen d in if b == 0 then 0 else rest + 1

-- `cksum(segment, n)` with the checksum field zero. The length is a `uint16_t`; `beyond` is the
-- memory behind the segment's data.
unfoldable pub segment_cksum : CtcpSegment → List ℕ → ℕ → ℕ
segment_cksum s beyond n =
    cksum (take (n % 65536) (put_ctcp (record s { sum = 0 }) (s.payload ++ beyond)))

-- `sizeof(ctcp_segment_t) + strlen(segment->payload)`: where the data holds no zero, `strlen` reads on
-- behind it.
unfoldable pub received_cksum : CtcpSegment → List ℕ → ℕ
received_cksum s beyond = segment_cksum s beyond (ctcp_hdr_size + strlen (s.payload ++ beyond))

-- The segment that `ctcp_prep_data_segment` fills out.
unfoldable pub data_segment : ℕ → ℕ → ℕ → List ℕ → CtcpSegment
data_segment seqno ackno recv_window payload =
    let s : CtcpSegment = record {
      seqno = seqno;
      ackno = ackno;
      len = (ctcp_hdr_size + length payload) % 65536;
      pad = 0;
      flags = th_ack;
      window = recv_window;
      sum = 0;
      payload = payload;
    } in
    record s { sum = segment_cksum s [] (ctcp_hdr_size + length payload) }

-- The segment of `ctcp_send_non_data_segment`, a local variable: `junk` and `pad` are what its
-- memory holds in `flags` and in the padding.
unfoldable pub bare_segment : ℕ → ℕ → ℕ → ℕ → ℕ → ℕ → CtcpSegment
bare_segment junk pad seqno ackno recv_window flags =
    let s : CtcpSegment = record {
      seqno = seqno;
      ackno = ackno;
      len = ctcp_hdr_size;
      pad = pad;
      flags = bit_or junk flags;
      window = recv_window;
      sum = 0;
      payload = [];
    } in
    record s { sum = segment_cksum s [] ctcp_hdr_size }
