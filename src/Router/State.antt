-- ===== src/Router/State.antt =====
-- The router's state: `struct sr_instance` of lab1/router/sr_router.h and the structs that it
-- holds, from sr_if.h, sr_rt.h and sr_arpcache.h.
use mini_internet_computer_n.Base.{ℕ, zero, suc, Bool, true, false, ◌&&◌, List, [], ◌∷◌, ◌==◌, take}
use mini_internet_computer_n.Router.Headers.{Bytes, Mac}

-- A C string, its characters up to the terminating zero.
abbrev pub Name : Type 0
Name = List ℕ

-- `strncmp(a, b, n) == 0`.
unfoldable pub same_name : ℕ → Name → Name → Bool
same_name zero a b = true
same_name (suc n) [] [] = true
same_name (suc n) [] (y ∷ b) = false
same_name (suc n) (x ∷ a) [] = false
same_name (suc n) (x ∷ a) (y ∷ b) = x == y && same_name n a b

-- `strncpy(to, name, sr_IFACE_NAMELEN)`: what a later `strncmp` of that length reads.
abbrev pub copy_name : Name → Name
copy_name name = take 32 name

-- `memcmp(a, b, ETHER_ADDR_LEN) == 0`.
abbrev pub same_mac : Mac → Mac → Bool
same_mac a b =
    a.m0 == b.m0
    && (a.m1 == b.m1 && (a.m2 == b.m2 && (a.m3 == b.m3 && (a.m4 == b.m4 && a.m5 == b.m5))))

pub record SrIf : Type 0 where
  pub name : Name
  pub addr : Mac
  pub ip : ℕ

pub record SrRt : Type 0 where
  pub dest : ℕ
  pub gw : ℕ
  pub mask : ℕ
  pub interface : Name

-- `len` is the length of `buf`.
pub record SrPacket : Type 0 where
  pub buf : Bytes
  pub iface : Name

pub record ArpEntry : Type 0 where
  pub mac : Mac
  pub ip : ℕ
  pub added : ℕ
  pub valid : Bool

pub record ArpReq : Type 0 where
  pub ip : ℕ
  pub sent : ℕ
  pub times_sent : ℕ
  pub packets : List SrPacket

pub record ArpCache : Type 0 where
  pub entries : List ArpEntry
  pub requests : List ArpReq

-- `wire` lists what was written to the server's socket: each frame with its interface, the latest
-- first.
pub record Sr : Type 0 where
  pub if_list : List SrIf
  pub routing_table : List SrRt
  pub cache : ArpCache
  pub wire : List (Bytes × Name)
