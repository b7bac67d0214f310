-- ===== src/Router/Table/Longest.antt =====
-- What `lpm` returns, among the entries of the table that match.
use mini_internet_computer_n.Base.{
  ℕ, ◌≤◌, ◌≡◌, refl, inl, inr, ◌⊎◌, true, false, Option, none, some, List, [], ◌∷◌, arith,
  Bool-cases,
}
use mini_internet_computer_n.Router.State.{SrRt, Sr}
use mini_internet_computer_n.Router.Table.{matches, better, lpm_step, lpm_loop, lpm}

abbrev pub In : SrRt → List SrRt → Type 0
In e [] = ⊥
In e (x ∷ xs) = (e ≡ x) ⊎ In e xs

abbrev All : (SrRt → Type 0) → List SrRt → Type 0
All P [] = Unit
All P (x ∷ xs) = P x × All P xs

-- Every entry of the list that matches has a mask of at most `m`.
abbrev AtMost : ℕ → ℕ → List SrRt → Type 0
AtMost ip m = All (λ e. matches ip e ≡ true → e.mask ≤ m)

abbrev Kept : ℕ → Option SrRt → Type 0
Kept m none = Unit
Kept m (some r) = r.mask ≤ m

-- What one round keeps: a bound of the new result bounds the old one and the entry.
lpm_step-Kept :
    (ip m : ℕ) (result : Option SrRt) (x : SrRt)
    → Kept m (lpm_step ip result x)
    → Kept m result × (matches ip x ≡ true → x.mask ≤ m)
unfolding lpm_step better
lpm_step-Kept ip m none x k = ground arith
lpm_step-Kept ip m (some r) x k = ground arith

lpm_step-from :
    (ip : ℕ) (result : Option SrRt) (x e : SrRt)
    → lpm_step ip result x ≡ some e
    → (result ≡ some e) ⊎ ((e ≡ x) × (matches ip e ≡ true))
unfolding lpm_step better
lpm_step-from ip none x e h = ground arith
lpm_step-from ip (some r) x e h = ground arith

lpm_loop-from :
    (ip : ℕ) (result : Option SrRt) (es : List SrRt) (e : SrRt)
    → lpm_loop ip result es ≡ some e
    → (result ≡ some e) ⊎ (In e es × (matches ip e ≡ true))
lpm_loop-from ip result [] e h = inl (unfold lpm_loop in h)
lpm_loop-from ip result (x ∷ es) e h =
    elim (lpm_loop-from ip (lpm_step ip result x) es e (unfold lpm_loop in h)) [
      | inl p ↦ ground (arith, lpm_step-from ip result x e p)
      | inr p ↦ inr (inr p.0, p.1)
    ]

lpm_loop-bound :
    (ip : ℕ) (result : Option SrRt) (es : List SrRt) (e : SrRt)
    → lpm_loop ip result es ≡ some e
    → Kept e.mask result × AtMost ip e.mask es
lpm_loop-bound ip none [] e h = (tt, tt)
lpm_loop-bound ip (some r) [] e h =
    let same : some r ≡ some e = unfold lpm_loop in h in (ground arith, tt)
lpm_loop-bound ip result (x ∷ es) e h =
    let rest = lpm_loop-bound ip (lpm_step ip result x) es e (unfold lpm_loop in h) in
    let now = lpm_step-Kept ip e.mask result x rest.0 in (now.0, (now.1, rest.1))

pub lpm-AtMost :
    (sr : Sr) (ip : ℕ) (e : SrRt)
    → lpm sr ip ≡ some e
    → In e sr.routing_table × (matches ip e ≡ true) × AtMost ip e.mask sr.routing_table
lpm-AtMost sr ip e h = elim (lpm_loop-from ip none sr.routing_table e (unfold lpm in h)) [
  | inl p ↦ cc
  | inr p ↦ (p.0, p.1, (lpm_loop-bound ip none sr.routing_table e (unfold lpm in h)).1)
]

lpm_step-some : (ip : ℕ) (r x : SrRt) → (r' : SrRt) × (lpm_step ip (some r) x ≡ some r')
unfolding lpm_step
lpm_step-some ip r x = elim (Bool-cases (matches ip x)) [
  | inl m ↦ elim (Bool-cases (better x (some r))) [
    | inl b ↦ (x, rw (m, b))
    | inr b ↦ (r, rw (m, b))
  ]
  | inr m ↦ (r, rw m)
]

lpm_loop-some :
    (ip : ℕ) (r : SrRt) (es : List SrRt) → (e : SrRt) × (lpm_loop ip (some r) es ≡ some e)
unfolding lpm_loop
lpm_loop-some ip r [] = (r, refl)
lpm_loop-some ip r (x ∷ es) =
    let (r', p) = lpm_step-some ip r x in let (e, q) = lpm_loop-some ip r' es in (e, rw p q)

lpm_step_match :
    (ip : ℕ) (result : Option SrRt) (x : SrRt)
    → matches ip x ≡ true
    → (r' : SrRt) × (lpm_step ip result x ≡ some r')
unfolding lpm_step better
lpm_step_match ip none x h = (x, rw h)
lpm_step_match ip (some r) x h = lpm_step-some ip r x

lpm_loop_found :
    (ip : ℕ) (result : Option SrRt) (es : List SrRt) (f : SrRt)
    → In f es
    → matches ip f ≡ true
    → (e : SrRt) × (lpm_loop ip result es ≡ some e)
unfolding lpm_loop
lpm_loop_found ip result [] f i m = absurd i
lpm_loop_found ip result (x ∷ es) f (inl p) m =
    let (r', q) = lpm_step_match ip result x (rw p at m) in
    let (e, u) = lpm_loop-some ip r' es in (e, rw q u)
lpm_loop_found ip result (x ∷ es) f (inr i) m = lpm_loop_found ip (lpm_step ip result x) es f i m

In-AtMost :
    (ip m : ℕ) (es : List SrRt) (f : SrRt)
    → In f es
    → matches ip f ≡ true
    → AtMost ip m es
    → f.mask ≤ m
In-AtMost ip m [] f i h a = absurd i
In-AtMost ip m (x ∷ es) f (inl p) h a = rw p (a.0 (rw p at h))
In-AtMost ip m (x ∷ es) f (inr i) h a = In-AtMost ip m es f i h a.1

pub lpm_bound :
    (sr : Sr) (ip : ℕ) (e f : SrRt)
    → lpm sr ip ≡ some e
    → In f sr.routing_table
    → matches ip f ≡ true
    → f.mask ≤ e.mask
lpm_bound sr ip e f h i m = In-AtMost ip e.mask sr.routing_table f i m (lpm-AtMost sr ip e h).2

-- Each entry of the list does not match, or has a mask of at most `m`.
abbrev pub AllWithin : ℕ → ℕ → List SrRt → Type 0
AllWithin ip m = All (λ e. (matches ip e ≡ false) ⊎ (e.mask ≤ m))

AtMost-AllWithin : (ip m : ℕ) (es : List SrRt) → AtMost ip m es → AllWithin ip m es
AtMost-AllWithin ip m [] a = tt
AtMost-AllWithin ip m (x ∷ es) a =
    let rest = AtMost-AllWithin ip m es a.1 in
    elim (Bool-cases (matches ip x)) [ inl y ↦ (inr (a.0 y), rest) | inr n ↦ (inl n, rest) ]

-- An entry that `lpm` returns stands in the table and matches, and each entry of the table does not
-- match or has no greater mask.
pub lpm_longest :
    (sr : Sr) (ip : ℕ) (e : SrRt)
    → lpm sr ip ≡ some e
    → In e sr.routing_table × (matches ip e ≡ true) × AllWithin ip e.mask sr.routing_table
lpm_longest sr ip e h =
    let found = lpm-AtMost sr ip e h in
    (found.0, found.1, AtMost-AllWithin ip e.mask sr.routing_table found.2)

-- Where an entry of the table matches, `lpm` finds one whose mask is no smaller.
pub lpm_complete :
    (sr : Sr) (ip : ℕ) (f : SrRt)
    → In f sr.routing_table
    → matches ip f ≡ true
    → (e : SrRt) × (lpm sr ip ≡ some e) × (f.mask ≤ e.mask)
lpm_complete sr ip f i m =
    let (e, p) = lpm_loop_found ip none sr.routing_table f i m in
    let found : lpm sr ip ≡ some e = unfold lpm in p in (e, found, lpm_bound sr ip e f found i m)
