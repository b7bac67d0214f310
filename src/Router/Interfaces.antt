-- ===== src/Router/Interfaces.antt =====
-- The interface list: lab1/router/sr_if.c, and how `sr_handle_hwinfo` of sr_vns_comm.c fills it.
pub mod Laws
use mini_internet_computer_n.Base.{ℕ, Bool, Option, none, some, List, [], ◌∷◌, ◌++◌, if◌then◌else◌}
use mini_internet_computer_n.Router.Headers.{Mac}
use mini_internet_computer_n.Router.State.{Name, same_name, copy_name, SrIf, Sr}

-- The walk of `sr_get_interface`; `none` is the null pointer.
unfoldable pub find_interface : List SrIf → Name → Option SrIf
find_interface [] name = none
find_interface (i ∷ is) name = if same_name 32 i.name name then some i else find_interface is name

unfoldable pub sr_get_interface : Sr → Name → Option SrIf
unfolding find_interface
sr_get_interface sr name = find_interface sr.if_list name

unfoldable pub sr_destroy_interface : Sr → Sr
sr_destroy_interface sr = record sr { if_list = [] }

-- `raw` is what `malloc` returns: the new node's address and ip are not set.
sr_add_interface : SrIf → Sr → Name → Sr
sr_add_interface raw sr name = record sr {
  if_list = sr.if_list ++ (record raw { name = copy_name name } ∷ []);
}

-- A change of the last node of the list; `none` is the failing `assert(sr->if_list)`.
unfoldable pub on_last : (SrIf → SrIf) → List SrIf → Option (List SrIf)
on_last f [] = none
on_last f (i ∷ []) = some (f i ∷ [])
on_last f (i ∷ j ∷ is) = elim (on_last f (j ∷ is)) [ none ↦ none | some r ↦ some (i ∷ r) ]

abbrev with_if_list : Sr → Option (List SrIf) → Option Sr
with_if_list sr none = none
with_if_list sr (some is) = some (record sr { if_list = is })

sr_set_ether_addr : Sr → Mac → Option Sr
sr_set_ether_addr sr addr = with_if_list sr (on_last (λ i. record i { addr = addr }) sr.if_list)

sr_set_ether_ip : Sr → ℕ → Option Sr
sr_set_ether_ip sr ip_nbo = with_if_list sr (on_last (λ i. record i { ip = ip_nbo }) sr.if_list)

-- An entry of the server's VNSHWINFO message, by its key. The keys HWFIXEDIP, HWSPEED, HWSUBNET and
-- HWMASK change nothing, and neither does an unknown one.
pub data HwEntry : Type 0 where
  hw_interface : Name → HwEntry
  hw_ether : Mac → HwEntry
  hw_ethip : ℕ → HwEntry
  hw_other : HwEntry

unfoldable pub hw_entry : SrIf → Sr → HwEntry → Option Sr
unfolding sr_add_interface sr_set_ether_addr sr_set_ether_ip
hw_entry raw sr (hw_interface name) = some (sr_add_interface raw sr name)
hw_entry raw sr (hw_ether addr) = sr_set_ether_addr sr addr
hw_entry raw sr (hw_ethip ip) = sr_set_ether_ip sr ip
hw_entry raw sr hw_other = some sr

unfoldable pub sr_handle_hwinfo : SrIf → Sr → List HwEntry → Option Sr
sr_handle_hwinfo raw sr [] = some sr
sr_handle_hwinfo raw sr (e ∷ es) = elim (hw_entry raw sr e) [
  | none ↦ none
  | some sr' ↦ sr_handle_hwinfo raw sr' es
]
