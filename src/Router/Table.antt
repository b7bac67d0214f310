-- ===== src/Router/Table.antt =====
-- The routing table: lab1/router/sr_rt.c, `lpm` of sr_router.c and `sr_verify_routing_table` of
-- sr_main.c. Addresses and masks are `s_addr` words, in network byte order.
pub mod Longest
pub mod Load
pub mod Prefix
pub mod Verify
use Prim.Native.Nat.{bit_and}
use mini_internet_computer_n.Base.{
  ℕ, zero, suc, ◌+◌, Bool, true, false, ◌||◌, ◌&&◌, Option, none, some, List, [], ◌∷◌, ◌++◌, ltb,
  ◌==◌, if◌then◌else◌,
}
use mini_internet_computer_n.Router.State.{Name, copy_name, SrIf, SrRt, Sr}
use mini_internet_computer_n.Router.Interfaces.{find_interface}

unfoldable pub sr_destory_rt : Sr → Sr
sr_destory_rt sr = record sr { routing_table = [] }

unfoldable pub sr_add_rt_entry : Sr → ℕ → ℕ → ℕ → Name → Sr
sr_add_rt_entry sr dest gw mask if_name =
    let entry : SrRt = record {
      dest = dest;
      gw = gw;
      mask = mask;
      interface = copy_name if_name;
    } in
    record sr { routing_table = sr.routing_table ++ (entry ∷ []) }

-- The test of `lpm`.
unfoldable pub matches : ℕ → SrRt → Bool
matches ip e = bit_and e.dest e.mask == bit_and e.mask ip

-- `result == NULL || entry->mask > result->mask`.
unfoldable pub better : SrRt → Option SrRt → Bool
better e none = true
better e (some r) = ltb r.mask e.mask

-- One round of the loop.
unfoldable pub lpm_step : ℕ → Option SrRt → SrRt → Option SrRt
unfolding matches better
lpm_step ip result e = if matches ip e then if better e result then some e else result else result

unfoldable pub lpm_loop : ℕ → Option SrRt → List SrRt → Option SrRt
lpm_loop ip result [] = result
lpm_loop ip result (e ∷ es) = lpm_loop ip (lpm_step ip result e) es

unfoldable pub lpm : Sr → ℕ → Option SrRt
unfolding lpm_loop
lpm sr ip = lpm_loop ip none sr.routing_table

-- The entries whose interface is not on the list are counted.
unfoldable pub count_missing : List SrIf → List SrRt → ℕ
unfolding find_interface
count_missing is [] = 0
count_missing is (e ∷ es) =
    elim (find_interface is e.interface) [ none ↦ 1 | some i ↦ 0 ] + count_missing is es

-- `return 999` where a list is empty.
unfoldable pub verify_lists : List SrIf → List SrRt → ℕ
unfolding count_missing
verify_lists [] es = 999
verify_lists (i ∷ is) [] = 999
verify_lists (i ∷ is) (e ∷ es) = count_missing (i ∷ is) (e ∷ es)

unfoldable pub sr_verify_routing_table : Sr → ℕ
unfolding verify_lists
sr_verify_routing_table sr = verify_lists sr.if_list sr.routing_table
