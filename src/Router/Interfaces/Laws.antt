-- ===== src/Router/Interfaces/Laws.antt =====
-- What looking up an interface finds, and how the list is filled from the server's hardware
-- information: add a name, then set the last node's address and ip.
use mathlib.Core.List.{append_assoc, append-nil}
use mini_internet_computer_n.Base.{
  ℕ, zero, suc, ◌≡◌, refl, ◌∙◌, true, false, none, some, List, [], ◌∷◌, ◌++◌, arith, if◌then◌else◌,
  take,
}
use mini_internet_computer_n.Router.Headers.{Mac}
use mini_internet_computer_n.Router.State.{Name, same_name, copy_name, SrIf, Sr}
use mini_internet_computer_n.Router.Interfaces.{
  find_interface, on_last, HwEntry, hw_interface, hw_ether, hw_ethip, hw_entry, sr_handle_hwinfo,
}

pub same_name_refl : (n : ℕ) (a : Name) → same_name n a a ≡ true
unfolding same_name
same_name_refl zero a = refl
same_name_refl (suc n) [] = refl
same_name_refl (suc n) (x ∷ a) = ground (arith, same_name_refl n a)

-- The stored copy of a name compares as the name does.
same_name-take : (n : ℕ) (a b : Name) → same_name n (take n a) b ≡ same_name n a b
unfolding same_name
same_name-take zero a b = refl
same_name-take (suc n) [] b = refl
same_name-take (suc n) (x ∷ a) [] = refl
same_name-take (suc n) (x ∷ a) (y ∷ b) = ground (arith, same_name-take n a b)

find_interface-append :
    (is : List SrIf) (i : SrIf) (name : Name)
    → find_interface is name ≡ none
    → find_interface (is ++ (i ∷ [])) name ≡ (if same_name 32 i.name name then some i else none)
unfolding find_interface
find_interface-append [] i name h = refl
find_interface-append (j ∷ is) i name h = ground (arith, find_interface-append is i name)

find_interface-append_other :
    (is : List SrIf) (i : SrIf) (name : Name)
    → same_name 32 i.name name ≡ false
    → find_interface (is ++ (i ∷ [])) name ≡ find_interface is name
unfolding find_interface
find_interface-append_other [] i name h = rw h
find_interface-append_other (j ∷ is) i name h =
    ground (arith, find_interface-append_other is i name h)

on_last-append :
    (f : SrIf → SrIf) (is : List SrIf) (i : SrIf)
    → on_last f (is ++ (i ∷ [])) ≡ some (is ++ (f i ∷ []))
unfolding on_last
on_last-append f [] i = refl
on_last-append f (j ∷ []) i = refl
on_last-append f (j ∷ k ∷ is) i = rw (on_last-append f (k ∷ is) i)

-- What the server says of an interface: its name, its hardware address and its ip.
abbrev described : SrIf → List HwEntry → List HwEntry
described i es = hw_interface i.name ∷ hw_ether i.addr ∷ hw_ethip i.ip ∷ es

abbrev describe : List SrIf → List HwEntry
describe [] = []
describe (i ∷ is) = described i (describe is)

abbrev stored : List SrIf → List SrIf
stored [] = []
stored (i ∷ is) = record i { name = copy_name i.name } ∷ stored is

-- The router with `is` at the end of its interface list.
abbrev with_last : Sr → List SrIf → Sr
with_last sr is = record sr { if_list = sr.if_list ++ is }

hw_ether-last :
    (raw : SrIf) (sr : Sr) (i : SrIf) (addr : Mac)
    → hw_entry raw (with_last sr (i ∷ [])) (hw_ether addr)
      ≡ some (with_last sr (record i { addr = addr } ∷ []))
unfolding hw_entry
hw_ether-last raw sr i addr = rw on_last-append

hw_ethip-last :
    (raw : SrIf) (sr : Sr) (i : SrIf) (ip : ℕ)
    → hw_entry raw (with_last sr (i ∷ [])) (hw_ethip ip)
      ≡ some (with_last sr (record i { ip = ip } ∷ []))
unfolding hw_entry
hw_ethip-last raw sr i ip = rw on_last-append

hw_interface-named :
    (raw : SrIf) (sr : Sr) (name : Name)
    → hw_entry raw sr (hw_interface name)
      ≡ some (with_last sr (record raw { name = copy_name name } ∷ []))
unfolding hw_entry
hw_interface-named raw sr name = refl

hw_step :
    (raw : SrIf) (sr : Sr) {sr' : Sr} (e : HwEntry) (es : List HwEntry)
    → hw_entry raw sr e ≡ some sr'
    → sr_handle_hwinfo raw sr (e ∷ es) ≡ sr_handle_hwinfo raw sr' es
unfolding sr_handle_hwinfo
hw_step raw sr e es h = rw (h, sr_handle_hwinfo)

-- One described interface is appended with its address and ip.
hwinfo_one :
    (raw : SrIf) (sr : Sr) (i : SrIf) (es : List HwEntry)
    → sr_handle_hwinfo raw sr (described i es)
      ≡ sr_handle_hwinfo raw (with_last sr (record i { name = copy_name i.name } ∷ [])) es
hwinfo_one raw sr i es =
    let named = record raw { name = copy_name i.name } in
    hw_step raw sr (hw_interface i.name) _ (hw_interface-named raw sr i.name)
    ∙ (hw_step raw _ (hw_ether i.addr) _ (hw_ether-last raw sr named i.addr)
        ∙ hw_step raw _ (hw_ethip i.ip) _
            (hw_ethip-last raw sr (record named { addr = i.addr }) i.ip))

-- The interfaces that the server describes stand at the end of the list, in its order, and nothing
-- else of the router changes.
hwinfo_describes :
    (raw : SrIf) (sr : Sr) (is : List SrIf)
    → sr_handle_hwinfo raw sr (describe is) ≡ some (with_last sr (stored is))
hwinfo_describes raw sr [] = unfold sr_handle_hwinfo in rw append-nil
hwinfo_describes raw sr (i ∷ is) =
    hwinfo_one raw sr i (describe is)
    ∙ (hwinfo_describes raw (with_last sr (record i { name = copy_name i.name } ∷ [])) is
        ∙ rw append_assoc)

same_name-take_right : (n : ℕ) (a b : Name) → same_name n a (take n b) ≡ same_name n a b
unfolding same_name
same_name-take_right zero a b = refl
same_name-take_right (suc n) [] [] = refl
same_name-take_right (suc n) [] (y ∷ b) = refl
same_name-take_right (suc n) (x ∷ a) [] = refl
same_name-take_right (suc n) (x ∷ a) (y ∷ b) = ground (arith, same_name-take_right n a b)

-- The stored copy of a name finds the same interface.
pub find_interface-copy :
    (is : List SrIf) (name : Name) → find_interface is (copy_name name) ≡ find_interface is name
unfolding find_interface
find_interface-copy [] name = refl
find_interface-copy (i ∷ is) name =
    ground (arith, same_name-take_right 32 i.name name, find_interface-copy is name)

same_name-congr :
    (n : ℕ) (a b c : Name) → same_name n b c ≡ true → same_name n a b ≡ same_name n a c
unfolding same_name
same_name-congr zero a b c h = refl
same_name-congr (suc n) [] [] [] h = refl
same_name-congr (suc n) [] [] (z ∷ c) h = cc
same_name-congr (suc n) [] (y ∷ b) [] h = cc
same_name-congr (suc n) [] (y ∷ b) (z ∷ c) h = refl
same_name-congr (suc n) (x ∷ a) [] [] h = refl
same_name-congr (suc n) (x ∷ a) [] (z ∷ c) h = cc
same_name-congr (suc n) (x ∷ a) (y ∷ b) [] h = cc
same_name-congr (suc n) (x ∷ a) (y ∷ b) (z ∷ c) h = ground (arith, same_name-congr n a b c)

find_interface-congr :
    (is : List SrIf) (b c : Name)
    → same_name 32 b c ≡ true
    → find_interface is b ≡ find_interface is c
unfolding find_interface
find_interface-congr [] b c h = refl
find_interface-congr (i ∷ is) b c h =
    ground (arith, same_name-congr 32 i.name b c h, find_interface-congr is b c h)

find_interface-hit :
    (is : List SrIf) (name : Name) (i : SrIf)
    → find_interface is name ≡ some i
    → same_name 32 i.name name ≡ true
unfolding find_interface
find_interface-hit [] name i h = cc
find_interface-hit (j ∷ is) name i h = ground (arith, find_interface-hit is name i)

-- An interface that is found is found by its own name too.
pub find_interface_self :
    (is : List SrIf) (name : Name) (i : SrIf)
    → find_interface is name ≡ some i
    → find_interface is i.name ≡ some i
find_interface_self is name i h =
    find_interface-congr is i.name name (find_interface-hit is name i h) ∙ h
