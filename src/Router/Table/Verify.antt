-- ===== src/Router/Table/Verify.antt =====
-- What `sr_verify_routing_table` checks.
use mathlib.Core.Logic.{◌↔◌}
use mini_internet_computer_n.Base.{
  ℕ, ◌+◌, ◌≡◌, refl, inl, inr, some, List, [], ◌∷◌, arith, Option-cases,
}
use mini_internet_computer_n.Router.State.{SrIf, SrRt, Sr}
use mini_internet_computer_n.Router.Interfaces.{find_interface}
use mini_internet_computer_n.Router.ArpCache.Queue.{Resolves}
use mini_internet_computer_n.Router.Table.{
  lpm, count_missing, verify_lists, sr_verify_routing_table,
}
use mini_internet_computer_n.Router.Table.Longest.{In, lpm-AtMost}

-- Every route leaves by an interface of the list.
abbrev pub RoutesOk : List SrIf → List SrRt → Type 0
RoutesOk is [] = Unit
RoutesOk is (e ∷ es) = Resolves is e.interface × RoutesOk is es

count-RoutesOk : (is : List SrIf) (es : List SrRt) → count_missing is es ≡ 0 → RoutesOk is es
unfolding count_missing
count-RoutesOk is [] h = tt
count-RoutesOk is (e ∷ es) h = elim (Option-cases (find_interface is e.interface)) [
  | inl n ↦ absurd (let bad : 1 + count_missing is es ≡ 0 = rw n at h in omega arith)
  | inr i ↦
      (i, count-RoutesOk is es (let k : 0 + count_missing is es ≡ 0 = rw i.1 at h in omega arith))
]

RoutesOk-count : (is : List SrIf) (es : List SrRt) → RoutesOk is es → count_missing is es ≡ 0
unfolding count_missing
RoutesOk-count is [] ok = refl
RoutesOk-count is (e ∷ es) ok =
    rw (ok.0.1, count_missing) (omega (arith, RoutesOk-count is es ok.1))

-- Where neither list is empty the check returns 0 exactly when every route has its interface.
verify_iff :
    (i : SrIf) (is : List SrIf) (e : SrRt) (es : List SrRt) (sr : Sr)
    → sr.if_list ≡ i ∷ is
    → sr.routing_table ≡ e ∷ es
    → (sr_verify_routing_table sr ≡ 0) ↔ RoutesOk (i ∷ is) (e ∷ es)
unfolding sr_verify_routing_table verify_lists
verify_iff i is e es sr p q = (
  λ h. count-RoutesOk (i ∷ is) (e ∷ es) (rw (p, q, sr_verify_routing_table) at h),
  λ ok. rw (p, q, sr_verify_routing_table) (RoutesOk-count (i ∷ is) (e ∷ es) ok),
)

In-Resolves :
    (is : List SrIf) (es : List SrRt) (e : SrRt)
    → RoutesOk is es
    → In e es
    → Resolves is e.interface
In-Resolves is [] e ok i = absurd i
In-Resolves is (x ∷ es) e ok (inl p) = rw p ok.0
In-Resolves is (x ∷ es) e ok (inr i) = In-Resolves is es e ok.1 i

-- A route that `lpm` returns has its interface.
pub lpm-Resolves :
    (is : List SrIf) (sr : Sr) (ip : ℕ) (e : SrRt)
    → RoutesOk is sr.routing_table
    → lpm sr ip ≡ some e
    → Resolves is e.interface
lpm-Resolves is sr ip e ok found = In-Resolves is sr.routing_table e ok (lpm-AtMost sr ip e found).0

verified-RoutesOk : (is : List SrIf) (es : List SrRt) → verify_lists is es ≡ 0 → RoutesOk is es
unfolding verify_lists
verified-RoutesOk [] es h = absurd (omega arith)
verified-RoutesOk (i ∷ is) [] h = tt
verified-RoutesOk (i ∷ is) (e ∷ es) h = count-RoutesOk (i ∷ is) (e ∷ es) h

-- A table that the check accepts has an interface for every route.
pub verify-RoutesOk :
    (sr : Sr) → sr_verify_routing_table sr ≡ 0 → RoutesOk sr.if_list sr.routing_table
unfolding sr_verify_routing_table
verify-RoutesOk sr h = verified-RoutesOk sr.if_list sr.routing_table h
