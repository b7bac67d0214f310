-- ===== src/Router/ArpCache.antt =====
-- The ARP cache and its request queue: lab1/router/sr_arpcache.c. Each function runs under the
-- cache's lock, so it is one step. The queue holds at most one request for an address, so its ip
-- names a request.
pub mod Entries
pub mod Expire
pub mod Queue
pub mod Enqueue
use mini_internet_computer_n.Base.{
  ℕ, suc, ◌+◌, Bool, true, false, not, ◌&&◌, Option, none, some, List, [], ◌∷◌, ◌==◌, ltb,
  replicate, if◌then◌else◌,
}
use mini_internet_computer_n.Router.Headers.{Bytes, Mac, mac}
use mini_internet_computer_n.Router.State.{Name, copy_name, SrPacket, ArpEntry, ArpReq, ArpCache}

-- The bound of the `entries` array, and the age in seconds beyond which an entry is dropped.
abbrev sr_arpcache_sz : ℕ
sr_arpcache_sz = 100

abbrev pub sr_arpcache_to : ℕ
sr_arpcache_to = 15

abbrev zero_entry : ArpEntry
zero_entry = record { mac = mac 0 0 0 0 0 0; ip = 0; added = 0; valid = false }

-- `memset` of the entries, and an empty queue.
unfoldable pub sr_arpcache_init : ArpCache
sr_arpcache_init = record { entries = replicate sr_arpcache_sz zero_entry; requests = [] }

abbrev pub holds : ℕ → ArpEntry → Bool
holds ip e = e.valid && e.ip == ip

-- The loop does not stop at a hit, so the last valid entry for the address is taken.
unfoldable pub lookup_entries : ℕ → Option ArpEntry → List ArpEntry → Option ArpEntry
lookup_entries ip entry [] = entry
lookup_entries ip entry (e ∷ es) = lookup_entries ip (if holds ip e then some e else entry) es

unfoldable pub sr_arpcache_lookup : ArpCache → ℕ → Option ArpEntry
unfolding lookup_entries
sr_arpcache_lookup cache ip = lookup_entries ip none cache.entries

-- The first request of the queue for an address.
unfoldable pub find_request : ℕ → List ArpReq → Option ArpReq
find_request ip [] = none
find_request ip (r ∷ rs) = if r.ip == ip then some r else find_request ip rs

-- The queue with that request unlinked.
unfoldable pub unlink_request : ℕ → List ArpReq → List ArpReq
unlink_request ip [] = []
unlink_request ip (r ∷ rs) = if r.ip == ip then rs else r ∷ unlink_request ip rs

-- The queue with that request changed in place.
unfoldable pub change_request : (ArpReq → ArpReq) → ℕ → List ArpReq → List ArpReq
change_request f ip [] = []
change_request f ip (r ∷ rs) = if r.ip == ip then f r ∷ rs else r ∷ change_request f ip rs

-- What `calloc` gives for a new request.
abbrev pub new_request : ℕ → ArpReq
new_request ip = record { ip = ip; sent = 0; times_sent = 0; packets = [] }

-- The copy of the frame is put in front of the request's packets.
abbrev pub add_packet : SrPacket → ArpReq → ArpReq
add_packet p r = record r { packets = p ∷ r.packets }

-- `if (packet && packet_len && iface)`: an empty frame is not queued.
unfoldable pub enqueue : Bytes → Name → ℕ → List ArpReq → List ArpReq
unfolding change_request
enqueue [] iface ip rs = rs
enqueue (b ∷ packet) iface ip rs =
    change_request (add_packet (record { buf = b ∷ packet; iface = copy_name iface })) ip rs

-- The queue holds a request for the address: one is put in front if there was none.
unfoldable pub ensure_request : ℕ → List ArpReq → List ArpReq
unfolding find_request
ensure_request ip rs = elim (find_request ip rs) [ none ↦ new_request ip ∷ rs | some r ↦ rs ]

-- The request that is returned is the queue's request for `ip`.
unfoldable pub sr_arpcache_queuereq : ArpCache → ℕ → Bytes → Name → ArpCache
unfolding enqueue ensure_request
sr_arpcache_queuereq cache ip packet iface = record cache {
  requests = enqueue packet iface ip (ensure_request ip cache.requests);
}

-- The first entry that is not valid is taken; if all are, the mapping is not stored.
unfoldable pub fill_entries : Mac → ℕ → ℕ → List ArpEntry → List ArpEntry
fill_entries m ip now [] = []
fill_entries m ip now (e ∷ es) =
    if e.valid
    then e ∷ fill_entries m ip now es
    else record { mac = m; ip = ip; added = now; valid = true } ∷ es

-- The request for the address is unlinked and returned.
unfoldable pub sr_arpcache_insert : ArpCache → Mac → ℕ → ℕ → ArpCache × Option ArpReq
unfolding find_request unlink_request fill_entries
sr_arpcache_insert cache m ip now = (
  record {
    entries = fill_entries m ip now cache.entries;
    requests = unlink_request ip cache.requests;
  },
  find_request ip cache.requests,
)

-- For a request of the queue. Freeing what `sr_arpcache_insert` unlinked leaves the queue alone.
unfoldable pub sr_arpreq_destroy : ArpCache → ℕ → ArpCache
unfolding unlink_request
sr_arpreq_destroy cache ip = record cache { requests = unlink_request ip cache.requests }

-- `difftime(curtime, added) > SR_ARPCACHE_TO`.
unfoldable pub age : ℕ → ArpEntry → ArpEntry
age now e = if e.valid && ltb (e.added + sr_arpcache_to) now then record e { valid = false } else e

-- The loop of `sr_arpcache_timeout` over the entries.
unfoldable pub expire : ℕ → List ArpEntry → List ArpEntry
expire now [] = []
expire now (e ∷ es) = age now e ∷ expire now es
