-- ===== src/Ctcp/MainLoop/Routing.antt =====
-- A packet reaches the connection that it is for, and no other.
use mathlib.Core.List.{map}
use mini_internet_computer_n.Base.{
  ℕ, ◌+◌, ◌%◌, ◌≡◌, refl, ap, ◌∙◌, Bool, true, false, some, List, [], ◌∷◌, ◌++◌, take, length,
}
use mini_internet_computer_n.Ctcp.Segment.{CtcpSegment}
use mini_internet_computer_n.Ctcp.State.{Run, ok, exited, fault, ◌>>=◌}
use mini_internet_computer_n.Ctcp.Receive.{Platform}
use mini_internet_computer_n.Ctcp.Datagram.{Datagram, Host, convert_to_ctcp}
use mini_internet_computer_n.Ctcp.Connect.{
  has_syn, has_rst, packet, taken, belongs, find_conn, established, recv_filter,
}
use mini_internet_computer_n.Ctcp.Connect.Filter.{recv_found}
use mini_internet_computer_n.Ctcp.MainLoop.{
  overreads, Entry, Library, Poll, cut, in_memory, first_ack, on_first, receive_on, segment_for,
  handle_filtered, handle_packet,
}

-- None of the connections takes the packet for its own.
abbrev pub NoneTakes : Bool → Datagram → List Entry → Type 0
NoneTakes unix_socket d [] = Unit
NoneTakes unix_socket d (e ∷ es) =
    (belongs unix_socket d e.remote ≡ false) × NoneTakes unix_socket d es

-- What `recv` leaves of a packet.
abbrev pub kept_of : Datagram → Datagram
kept_of d = record d { payload = take 1440 d.payload }

map_twice {ℓ κ ν} :
    {A : Type ℓ} {B : Type κ} {C : Type ν} (g : A → B) (h : B → C) (m : Run A)
    → ((m >>= λ a. ok (g a)) >>= λ b. ok (h b)) ≡ (m >>= λ a. ok (h (g a)))
map_twice g h (ok a) = refl
map_twice g h exited = refl
map_twice g h fault = refl

module _ (unix_socket : Bool) (d : Datagram) (e : Entry) (post : List Entry)
    (own : belongs unix_socket d e.remote ≡ true) where
  find_conn-skip :
      (pre : List Entry)
      → NoneTakes unix_socket d pre
      → find_conn unix_socket d (map (λ (e : Entry). e.remote) (pre ++ e ∷ post)) ≡ some e.remote
  unfolding find_conn
  find_conn-skip [] n = rw own
  find_conn-skip (x ∷ pre) n = rw n.0 (find_conn-skip pre n.1)

  on_first-skip :
      (f : Entry → Run Entry) (pre : List Entry)
      → NoneTakes unix_socket d pre
      → on_first (λ (x : Entry). belongs unix_socket d x.remote) f (pre ++ e ∷ post)
        ≡ (f e >>= λ e'. ok (pre ++ e' ∷ post))
  unfolding on_first
  on_first-skip f [] n = rw own
  on_first-skip f (x ∷ pre) n = rw n.0 (
      ap (λ (r : Run (List Entry)). r >>= λ es. ok (x ∷ es)) (on_first-skip f pre n.1)
      ∙ map_twice (λ e'. pre ++ e' ∷ post) (λ es. x ∷ es) (f e))

module _ (pf : Platform) (host : Host) (unix_socket run_program : Bool) (poll : Poll) (now : ℕ)
    (d : Datagram) (here : d.th_dport ≡ host.port % 65536) (no_reset : has_rst d.th_flags ≡ false)
    (no_syn : has_syn d ≡ false) (lib : Library) (e : Entry) (pre post : List Entry)
    (listed : lib.connections ≡ pre ++ e ∷ post) (others : NoneTakes unix_socket (kept_of d) pre)
    (own : belongs unix_socket (kept_of d) e.remote ≡ true) where
  -- The segment in the packet.
  abbrev segment : CtcpSegment
  segment = convert_to_ctcp e.remote.peer (in_memory poll (kept_of d))

  packet_found :
      handle_packet pf host unix_socket run_program poll now lib (some (packet d))
      ≡ segment_for pf host unix_socket run_program poll (kept_of d) e.remote lib
  unfolding handle_packet cut handle_filtered
  packet_found =
      let found : recv_filter host unix_socket (map (λ (e : Entry). e.remote) lib.connections)
            (packet (kept_of d))
          ≡ taken (kept_of d) (some e.remote) =
        recv_found host unix_socket (kept_of d) here no_reset _ no_syn
        ∙ ap
            (λ es.
              established (kept_of d)
                (find_conn unix_socket (kept_of d) (map (λ (e : Entry). e.remote) es)))
            listed
        ∙ (unfold established in
            rw (find_conn-skip unix_socket (kept_of d) e post own pre others)) in
      ap (handle_filtered pf host unix_socket run_program poll now lib) found

  pub packet_overreads :
      overreads (kept_of d) ≡ true
      → handle_packet pf host unix_socket run_program poll now lib (some (packet d)) ≡ fault
  unfolding segment_for
  packet_overreads long = packet_found ∙ rw long refl

  pub packet_routed :
      overreads (kept_of d) ≡ false
      → first_ack lib.new_connection (kept_of d) segment ≡ false
      → handle_packet pf host unix_socket run_program poll now lib (some (packet d)) ≡ (
          receive_on pf host unix_socket run_program poll segment
            (20 + length (take 1440 d.payload))
            e
          >>= λ e'. ok (record lib { connections = pre ++ e' ∷ post }))
  unfolding segment_for
  packet_routed short later =
      let f =
        receive_on pf host unix_socket run_program poll segment
          (20 + length (take 1440 d.payload)) in
      packet_found
      ∙ rw (short, later)
          (ap
              (λ es.
                on_first (λ (x : Entry). belongs unix_socket (kept_of d) x.remote) f es >>= λ es'.
                ok (record lib { connections = es' }))
              listed
            ∙ ap (λ (r : Run (List Entry)). r >>= λ es'. ok (record lib { connections = es' }))
                (on_first-skip unix_socket (kept_of d) e post own f pre others)
            ∙ map_twice (λ e'. pre ++ e' ∷ post) (λ es'. record lib { connections = es' }) (f e))
