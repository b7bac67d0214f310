-- ===== src/Router/ArpCache/Entries.antt =====
-- The cache as a map from addresses to hardware addresses.
use mini_internet_computer_n.Base.{
  ℕ, ◌≡◌, refl, ◌≢◌, inl, inr, ◌⊎◌, true, false, Option, none, some, List, [], ◌∷◌, arith, ◌==◌,
  if◌then◌else◌, Bool-cases, ap,
}
use mini_internet_computer_n.Router.Headers.{Mac}
use mini_internet_computer_n.Router.State.{ArpEntry, ArpCache}
use mini_internet_computer_n.Router.ArpCache.{
  holds, lookup_entries, sr_arpcache_lookup, fill_entries, sr_arpcache_insert,
}

-- A free entry.
abbrev pub HasFree : List ArpEntry → Type 0
HasFree [] = ⊥
HasFree (e ∷ es) = (e.valid ≡ false) ⊎ HasFree es

-- No valid entry for the address.
abbrev pub Absent : ℕ → List ArpEntry → Type 0
Absent ip [] = Unit
Absent ip (e ∷ es) = (holds ip e ≡ false) × Absent ip es

abbrev cached : Mac → ℕ → ℕ → ArpEntry
cached m ip now = record { mac = m; ip = ip; added = now; valid = true }

lookup_entries-Absent :
    (ip : ℕ) (entry : Option ArpEntry) (es : List ArpEntry)
    → Absent ip es
    → lookup_entries ip entry es ≡ entry
unfolding lookup_entries
lookup_entries-Absent ip entry [] a = refl
lookup_entries-Absent ip entry (e ∷ es) a = rw a.0 (lookup_entries-Absent ip entry es a.1)

lookup-fill_self :
    (m : Mac) (ip now : ℕ) (entry : Option ArpEntry) (es : List ArpEntry)
    → HasFree es
    → Absent ip es
    → lookup_entries ip entry (fill_entries m ip now es) ≡ some (cached m ip now)
unfolding lookup_entries fill_entries
lookup-fill_self m ip now entry [] f a = absurd f
lookup-fill_self m ip now entry (e ∷ es) f a = ground (
  arith,
  lookup-fill_self m ip now entry es,
  lookup_entries-Absent ip (some (cached m ip now)) es,
)

lookup-fill_other :
    (m : Mac) (ip now other : ℕ) (entry : Option ArpEntry) (es : List ArpEntry)
    → ip ≢ other
    → lookup_entries other entry (fill_entries m ip now es) ≡ lookup_entries other entry es
unfolding lookup_entries fill_entries
lookup-fill_other m ip now other entry [] ne = refl
lookup-fill_other m ip now other entry (e ∷ es) ne =
    ground (
      arith,
      lookup-fill_other m ip now other (some e) es,
      lookup-fill_other m ip now other entry es,
    )

-- A mapping for an address that is not cached is found afterwards, if an entry is free; the
-- lookup of any other address is as before.
pub lookup-insert :
    (c : ArpCache) (m : Mac) (ip now other : ℕ)
    → HasFree c.entries
    → Absent ip c.entries
    → sr_arpcache_lookup (sr_arpcache_insert c m ip now).0 other
      ≡ (if ip == other then some (cached m ip now) else sr_arpcache_lookup c other)
unfolding sr_arpcache_lookup sr_arpcache_insert
lookup-insert c m ip now other f a = elim (Bool-cases (ip == other)) [
  | inl e ↦
      rw e (
        let p : ip ≡ other = ground arith in
        rw (← p) (lookup-fill_self m ip now none c.entries f a))
  | inr e ↦ rw e (lookup-fill_other m ip now other none c.entries (ground arith))
]

-- A valid entry for the address.
abbrev Held : ℕ → List ArpEntry → Type 0
Held ip [] = ⊥
Held ip (e ∷ es) = (holds ip e ≡ true) ⊎ Held ip es

-- A valid entry for the address behind the first free entry.
abbrev HeldBehind : ℕ → List ArpEntry → Type 0
HeldBehind ip [] = ⊥
HeldBehind ip (e ∷ es) = ((e.valid ≡ true) × HeldBehind ip es) ⊎ ((e.valid ≡ false) × Held ip es)

lookup_entries-Held :
    (ip : ℕ) (a b : Option ArpEntry) (es : List ArpEntry)
    → Held ip es
    → lookup_entries ip a es ≡ lookup_entries ip b es
unfolding lookup_entries
lookup_entries-Held ip a b [] h = absurd h
lookup_entries-Held ip a b (e ∷ es) (inl p) = rw p
lookup_entries-Held ip a b (e ∷ es) (inr h) =
    lookup_entries-Held ip (if holds ip e then some e else a) (if holds ip e then some e else b) es
      h

lookup-fill_stale :
    (m : Mac) (ip now : ℕ) (entry : Option ArpEntry) (es : List ArpEntry)
    → HeldBehind ip es
    → lookup_entries ip entry (fill_entries m ip now es) ≡ lookup_entries ip entry es
unfolding lookup_entries fill_entries
lookup-fill_stale m ip now entry [] h = absurd h
lookup-fill_stale m ip now entry (e ∷ es) (inl h) =
    ground (arith, lookup-fill_stale m ip now (if holds ip e then some e else entry) es)
lookup-fill_stale m ip now entry (e ∷ es) (inr h) =
    ground (arith, lookup_entries-Held ip (some (cached m ip now)) entry es)

-- A reply that gives a new hardware address is not seen by a lookup while an older entry for the
-- address stands behind the first free one: the lookup's answer does not change.
lookup-insert_stale :
    (c : ArpCache) (m : Mac) (ip now : ℕ)
    → HeldBehind ip c.entries
    → sr_arpcache_lookup (sr_arpcache_insert c m ip now).0 ip ≡ sr_arpcache_lookup c ip
unfolding sr_arpcache_lookup sr_arpcache_insert
lookup-insert_stale c m ip now h = lookup-fill_stale m ip now none c.entries h

abbrev AllValid : List ArpEntry → Type 0
AllValid [] = Unit
AllValid (e ∷ es) = (e.valid ≡ true) × AllValid es

fill_entries_full :
    (m : Mac) (ip now : ℕ) (es : List ArpEntry) → AllValid es → fill_entries m ip now es ≡ es
unfolding fill_entries
fill_entries_full m ip now [] h = refl
fill_entries_full m ip now (e ∷ es) h =
    simp h.0 (ap (λ r. e ∷ r) (fill_entries_full m ip now es h.1))

-- With every entry in use an insertion changes no entry: the mapping is not stored, and no lookup
-- changes.
lookup-insert_full :
    (c : ArpCache) (m : Mac) (ip now other : ℕ)
    → AllValid c.entries
    → sr_arpcache_lookup (sr_arpcache_insert c m ip now).0 other ≡ sr_arpcache_lookup c other
unfolding sr_arpcache_lookup sr_arpcache_insert
lookup-insert_full c m ip now other h =
    ap (lookup_entries other none) (fill_entries_full m ip now c.entries h)
