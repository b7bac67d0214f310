-- ===== src/Ctcp/Unreliable/Processes.antt =====
-- How many processes go on after a segment is sent, and what they send.
use mini_internet_computer_n.Base.{
  ℕ, ◌+◌, ◌≡◌, Bool, true, not, ◌&&◌, none, some, List, [], ◌∷◌, ◌++◌, arith, if◌then◌else◌,
}
use mini_internet_computer_n.Ctcp.Segment.{CtcpSegment}
use mini_internet_computer_n.Ctcp.Datagram.{Peer, Host, convert_to_datagram}
use mini_internet_computer_n.Ctcp.Unreliable.{
  Options, Chances, Fate, strikes, returned, corrupts, transmitted, delays, maybe_delayed, original,
  copy, duplicates, maybe_duplicated, drops, conn_send,
}

-- How many processes go on, and how many segments are given to the socket.
abbrev pub going : List Fate → ℕ
going [] = 0
going (f ∷ fs) = elim f.returns [ none ↦ 0 | some r ↦ 1 ] + going fs

abbrev pub sendings : List Fate → ℕ
sendings [] = 0
sendings (f ∷ fs) = elim f.sent [ none ↦ 0 | some r ↦ 1 ] + sendings fs

module _ (opts : Options) (ch : Chances) (host : Host) (conn : Peer) (seg : CtcpSegment)
    (len : ℕ) where
  original_counts :
      (did : Bool)
      → (going (maybe_delayed opts ch host conn seg len did original) ≡ 1)
        × (sendings (maybe_delayed opts ch host conn seg len did original) ≡ 1)
  unfolding maybe_delayed transmitted
  original_counts did = ground arith

  copy_counts :
      (did : Bool)
      → (going (maybe_delayed opts ch host conn seg len did copy)
          ≡ (if delays opts ch host conn seg len did copy then 1 else 0))
        × (sendings (maybe_delayed opts ch host conn seg len did copy) ≡ 1)
  unfolding maybe_delayed transmitted
  copy_counts did = ground arith

  going-append : (fs gs : List Fate) → going (fs ++ gs) ≡ going fs + going gs
  going-append [] gs = omega arith
  going-append (f ∷ fs) gs = omega (arith, going-append fs gs)

  sendings-append : (fs gs : List Fate) → sendings (fs ++ gs) ≡ sendings fs + sendings gs
  sendings-append [] gs = omega arith
  sendings-append (f ∷ fs) gs = omega (arith, sendings-append fs gs)

  abbrev splits : Bool → Bool
  splits did = not (drops opts ch host conn seg len did) && duplicates opts ch host conn seg len did

  -- Of the processes of a call one goes on, but two where the segment is duplicated and its duplicate
  -- is delayed. A segment that is dropped is sent by none, one that is duplicated by two, any other
  -- by one.
  pub conn_send_counts :
      (did : Bool)
      → (going (conn_send opts ch host conn seg len did)
          ≡ (if splits did && delays opts ch host conn seg len true copy then 2 else 1))
        × (sendings (conn_send opts ch host conn seg len did)
            ≡ (if drops opts ch host conn seg len did then 0 else if splits did then 2 else 1))
  unfolding conn_send maybe_duplicated
  conn_send_counts did = ground (
    arith,
    original_counts did,
    original_counts true,
    copy_counts true,
    going-append (maybe_delayed opts ch host conn seg len true copy)
        (maybe_delayed opts ch host conn seg len true original),
    sendings-append (maybe_delayed opts ch host conn seg len true copy)
        (maybe_delayed opts ch host conn seg len true original),
  )

  -- Without options.
  conn_send_reliable :
      (did : Bool)
      → opts.opt_drop ≡ 0
      → opts.opt_duplicate ≡ 0
      → opts.opt_delay ≡ 0
      → opts.opt_corrupt ≡ 0
      → conn_send opts ch host conn seg len did
        ≡ record {
          sent = some (convert_to_datagram host conn seg len);
          returns = some (returned (ch.sendto original));
          tester_did = did;
        }
          ∷ []
  unfolding conn_send maybe_duplicated maybe_delayed transmitted drops duplicates delays corrupts
      strikes
  conn_send_reliable did a b c d = ground arith
