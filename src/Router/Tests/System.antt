-- ===== src/Router/Tests/System.antt =====
-- The handler and a whole run on arbitrary packets.
use mini_internet_computer_n.Base.{◌⊎◌, refl, List, [], ◌∷◌, arith}
use mini_internet_computer_n.Router.Headers.{Bytes, load32}
use mini_internet_computer_n.Router.State.{same_name}
use mini_internet_computer_n.Router.Interfaces.{find_interface}
use mini_internet_computer_n.Router.Table.Verify.{RoutesOk}
use mini_internet_computer_n.Router.Arp.Safe.{Ends}
use mini_internet_computer_n.Router.Arp.Sweep.{WellFormed}
use mini_internet_computer_n.Router.Handle.{sr_handlepacket}
use mini_internet_computer_n.Router.Handle.Total.{handlepacket-Ends}
use mini_internet_computer_n.Router.System.{
  Event, arrival, tick, sr_init, run, MustGiveUp, run-Ends,
}
use mini_internet_computer_n.Router.Samples.{
  eth0, eth1, eth1_name, two_interfaces, two_routes, router, ip_packet, eight_bytes, as_frame,
}

-- For 172.16.0.1, which only the default route matches, and whose gateway is not cached.
abbrev far_frame : Bytes
far_frame = as_frame (ip_packet 64 17 58572 (load32 172 16 0 1)) eight_bytes

two_routes-RoutesOk : RoutesOk two_interfaces two_routes
unfolding find_interface same_name
two_routes-RoutesOk = ((eth1, refl), ((eth0, refl), tt))

handlepacket-Ends_example :
    Ends (WellFormed two_interfaces two_routes) (sr_handlepacket 100 router far_frame eth1_name)
unfolding find_interface same_name
handlepacket-Ends_example =
    handlepacket-Ends two_interfaces two_routes 100 router eth1_name (eth1, refl)
      (record { ifs = refl; routes = refl; queue = tt }) far_frame (omega arith) two_routes-RoutesOk
      tt

-- A frame, five rounds of the timeout thread, and the frame again.
abbrev some_events : List Event
some_events =
    arrival 100 eth1_name far_frame
    ∷ tick 101
    ∷ tick 102
    ∷ tick 103
    ∷ tick 104
    ∷ tick 105
    ∷ arrival 106 eth1_name far_frame
    ∷ []

run-Ends_example :
    Ends (WellFormed two_interfaces two_routes) (run (sr_init router) some_events)
    ⊎ MustGiveUp two_interfaces two_routes two_routes-RoutesOk (sr_init router) some_events
unfolding find_interface same_name
run-Ends_example =
    run-Ends two_interfaces two_routes two_routes-RoutesOk router some_events refl refl
      (omega arith, (eth1, refl), (omega arith, (eth1, refl), tt))
