-- ===== src/Router/ArpCache/Expire.antt =====
-- What the timeout thread's expiry leaves in the cache.
use mini_internet_computer_n.Base.{
  ℕ, ◌+◌, ◌≤◌, ◌≡◌, inl, inr, ◌⊎◌, true, false, Option, none, some, List, [], ◌∷◌, arith, ltb,
  if◌then◌else◌, Bool-cases,
}
use mini_internet_computer_n.Router.State.{ArpEntry, ArpCache}
use mini_internet_computer_n.Router.ArpCache.{
  sr_arpcache_to, holds, lookup_entries, sr_arpcache_lookup, age, expire,
}

-- An entry of at most `sr_arpcache_to` seconds at time `now`.
abbrev IsYoung : ℕ → ArpEntry → Type 0
IsYoung now e = now ≤ e.added + sr_arpcache_to

age_hit :
    (ip now : ℕ) (x : ArpEntry) → holds ip (age now x) ≡ true → (age now x ≡ x) × IsYoung now x
unfolding age
age_hit ip now x h = elim (Bool-cases x.valid) [
  | inl v ↦ elim (Bool-cases (ltb (x.added + sr_arpcache_to) now)) [
    | inl o ↦ absurd (ground arith)
    | inr o ↦ (rw (v, o), ground arith)
  ]
  | inr v ↦ absurd (ground arith)
]

age_young : (now : ℕ) (x : ArpEntry) → IsYoung now x → age now x ≡ x
unfolding age
age_young now x y = ground arith

age_miss : (ip now : ℕ) (x : ArpEntry) → holds ip x ≡ false → holds ip (age now x) ≡ false
unfolding age
age_miss ip now x h = ground arith

expired-IsYoung :
    (ip now : ℕ) (entry : Option ArpEntry) (es : List ArpEntry) (e : ArpEntry)
    → lookup_entries ip entry (expire now es) ≡ some e
    → (entry ≡ some e) ⊎ IsYoung now e
unfolding lookup_entries expire
expired-IsYoung ip now entry [] e h = inl h
expired-IsYoung ip now entry (x ∷ es) e h =
    elim (expired-IsYoung ip now (if holds ip (age now x) then some (age now x) else entry) es e
      h) [
        | inr y ↦ inr y
        | inl p ↦ elim (Bool-cases (holds ip (age now x))) [
          | inl q ↦
              let (same, young) = age_hit ip now x q in
              let p' : some (age now x) ≡ some e = rw q at p in
              inr (let p'' : some x ≡ some e = rw same at p' in ground arith)
          | inr q ↦ inl (rw q at p)
        ]
      ]

expired_keeps :
    (ip now : ℕ) (a b : Option ArpEntry) (es : List ArpEntry) (e : ArpEntry)
    → IsYoung now e
    → lookup_entries ip a es ≡ some e
    → (a ≡ some e → b ≡ some e)
    → lookup_entries ip b (expire now es) ≡ some e
unfolding lookup_entries expire
expired_keeps ip now a b [] e y h k = k h
expired_keeps ip now a b (x ∷ es) e y h k =
    expired_keeps ip now (if holds ip x then some x else a)
      (if holds ip (age now x) then some (age now x) else b) es e y h
      (round (Bool-cases (holds ip x)))
  where
    round :
        (holds ip x ≡ true) ⊎ (holds ip x ≡ false)
        → (if holds ip x then some x else a) ≡ some e
        → (if holds ip (age now x) then some (age now x) else b) ≡ some e
    round (inl q) p =
        let p' : some x ≡ some e = rw q at p in
        let same : age now x ≡ x = age_young now x (ground arith) in rw (same, q) p'
    round (inr q) p = let p' : a ≡ some e = rw q at p in rw (age_miss ip now x q) (k p')

-- After a sweep at time `now` a lookup finds only entries of at most 15 seconds.
lookup-expire-IsYoung :
    (c : ArpCache) (ip now : ℕ) (e : ArpEntry)
    → sr_arpcache_lookup (record c { entries = expire now c.entries }) ip ≡ some e
    → IsYoung now e
unfolding sr_arpcache_lookup
lookup-expire-IsYoung c ip now e h = elim (expired-IsYoung ip now none c.entries e h) [
  | inl p ↦ cc
  | inr y ↦ y
]

-- A sweep at time `now` does not change a lookup that finds an entry of at most 15 seconds.
lookup-expire_kept :
    (c : ArpCache) (ip now : ℕ) (e : ArpEntry)
    → IsYoung now e
    → sr_arpcache_lookup c ip ≡ some e
    → sr_arpcache_lookup (record c { entries = expire now c.entries }) ip ≡ some e
unfolding sr_arpcache_lookup
lookup-expire_kept c ip now e y h = expired_keeps ip now none none c.entries e y h (λ p. p)
