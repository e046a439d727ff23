-- ===== src/Capability/Bounds.antt =====
-- What the intersection of terms and the bounding principals promise.
use xyzzy.Prelude.{
  List, Option, String, arith, contains, contains-keep, contains-set_eq, inter, none, ok, some, str,
  subset, subset_of_contains, sym, true, ◌&&◌, ◌↔◌, ◌∙◌, ◌≡◌,
}
use xyzzy.Capability.{
  CapabilityTerms, RunAuthorization, UnboundedTerms, capabilities, effective, policy_capabilities,
  spend_under,
}

-- `contains` over a filter, at both of its parts.
contains-inter :
    (c : String) (xs ys : List String)
    → contains str c (inter str xs ys) ≡ (contains str c xs && contains str c ys)
contains-inter c xs ys = contains-keep str c (λ a. contains str a ys) xs

-- A capability is effective exactly when every one of the five terms grants it.
pub effective_iff :
    (t : CapabilityTerms) (c : String)
    → (contains str c (effective t) ≡ true) ↔ (
        (contains str c t.user ≡ true)
        × (contains str c t.agent ≡ true)
        × (contains str c t.skill ≡ true)
        × (contains str c t.channel ≡ true)
        × (contains str c t.workspace ≡ true))
unfolding effective
effective_iff t c =
    let ua = inter str t.user t.agent in
    let uas = inter str ua t.skill in
    let e₁ = contains-inter c t.user t.agent in
    let e₂ = contains-inter c ua t.skill in
    let e₃ = contains-inter c uas t.channel in
    let e₄ = contains-inter c (inter str uas t.channel) t.workspace in
    (λ h. ground arith, λ h. ground arith)

-- A policy, set or not, never grants a word outside the vocabulary.
pub policy_within_vocabulary :
    (allowed : Option (List String)) (c : String)
    → contains str c (policy_capabilities allowed) ≡ true
    → contains str c capabilities ≡ true
unfolding policy_capabilities
policy_within_vocabulary none c h = h
policy_within_vocabulary (some allowed) c h = ground (arith, contains-inter c allowed capabilities)

-- Capabilities that were read for one set of principals are spent under a run's authorization
-- exactly when that set is the run's own; what is spent is then what was read.
pub spend_under_iff :
    (t : UnboundedTerms) (authorization : RunAuthorization) (terms : CapabilityTerms)
    → (spend_under t authorization ≡ ok terms) ↔ (
        (terms ≡ t.terms)
        × ((p : String)
            → contains str p authorization.bounding.principals
              ≡ contains str p t.read_for.principals))
unfolding spend_under
spend_under_iff t authorization terms =
    let xs = authorization.bounding.principals in
    let ys = t.read_for.principals in
    (
      λ h. (ground arith, λ p. contains-set_eq str p xs ys (ground arith)),
      λ h.
          let forth : subset str xs ys ≡ true =
            subset_of_contains str xs ys (λ p m. sym (h.1 p) ∙ m) in
          let back : subset str ys xs ≡ true = subset_of_contains str ys xs (λ p m. h.1 p ∙ m) in
          ground arith,
    )
