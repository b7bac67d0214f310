-- ===== src/Router/Tests/Table.antt =====
-- The routing table of `router`.
use mini_internet_computer_n.Base.{◌≤◌, ◌≡◌, refl, inl, true, some, arith}
use mini_internet_computer_n.Router.Headers.{load32}
use mini_internet_computer_n.Router.State.{SrRt}
use mini_internet_computer_n.Router.Table.{lpm, lpm_step, matches}
use mini_internet_computer_n.Router.Table.Longest.{In, AllWithin, lpm_longest, lpm_complete}
use mini_internet_computer_n.Router.Table.Prefix.{netmask, lpm_longest_prefix}
use mini_internet_computer_n.Router.Samples.{route_10_1, route_default, two_routes, router}

lpm_longest_example :
    In route_10_1 two_routes
    × (matches (load32 10 1 2 3) route_10_1 ≡ true)
    × AllWithin (load32 10 1 2 3) route_10_1.mask two_routes
unfolding lpm lpm_step matches
lpm_longest_example = lpm_longest router (load32 10 1 2 3) route_10_1 refl

lpm_complete_example :
    (e : SrRt) × (lpm router (load32 10 1 2 3) ≡ some e) × (route_default.mask ≤ e.mask)
unfolding matches
lpm_complete_example = lpm_complete router (load32 10 1 2 3) route_default (inl refl) refl

lpm_longest_prefix_example : 0 ≤ 16
unfolding lpm lpm_step matches netmask
lpm_longest_prefix_example =
    lpm_longest_prefix router (load32 10 1 2 3) route_10_1 route_default 16 0 refl (inl refl) refl
      refl refl (omega arith)
