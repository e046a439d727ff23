-- ===== src/Delegation/Chain.antt =====
-- The bound on a chain of delegations and the negotiation of output modes.
use xyzzy.Prelude.{
  List, String, [], arith, contains, contains-append, contains-keep, false, length, length-append,
  null, ok, refl, str, suc, ℕ, ◌&&◌, ◌++◌, ◌||◌, ◌↔◌, ◌∷◌, ◌≡◌, ◌≤◌,
}
use xyzzy.Delegation.{max_delegation_depth, negotiate_output_modes, require_delegable}

-- No agent stands twice in a chain.
abbrev pub Distinct : List String → Type 0
Distinct [] = Unit
Distinct (a ∷ xs) = (contains str a xs ≡ false) × Distinct xs

Distinct-snoc :
    (xs : List String) (a : String)
    → Distinct xs
    → contains str a xs ≡ false
    → Distinct (xs ++ a ∷ [])
unfolding contains
Distinct-snoc [] a d h = (refl, tt)
Distinct-snoc (b ∷ bs) a d h =
    (ground (arith, contains-append str b bs (a ∷ [])), Distinct-snoc bs a d.1 (ground arith))

-- A delegation is permitted exactly when the target is new to the chain and the chain is within
-- the bound; the new depth is the chain's length.
pub require_delegable_iff :
    (ancestry : List String) (target : String) (max_depth depth : ℕ)
    → (require_delegable ancestry target max_depth ≡ ok depth) ↔ (
        (contains str target ancestry ≡ false)
        × (length ancestry ≤ max_depth)
        × (depth ≡ length ancestry))
unfolding require_delegable
require_delegable_iff ancestry target max_depth depth = (λ h. ground arith, λ h. ground arith)

-- A chain as the service builds it: each delegator is appended once its own task was permitted.
pub data IsChain : List String → Type 0 where
  root : IsChain []
  hop :
      (ancestry : List String) (target : String) (depth : ℕ)
      → IsChain ancestry
      → require_delegable ancestry target max_delegation_depth ≡ ok depth
      → IsChain (ancestry ++ target ∷ [])

-- A chain built by permitted delegations names no agent twice and has at most five agents.
pub IsChain-bounded :
    {chain : List String}
    → IsChain chain
    → Distinct chain × (length chain ≤ suc max_delegation_depth)
IsChain-bounded root = (tt, omega arith)
IsChain-bounded (hop ancestry target depth c p) =
    let (fresh, short, _) =
      (require_delegable_iff ancestry target max_delegation_depth depth).0 p in
    (
      Distinct-snoc ancestry target (IsChain-bounded c).0 fresh,
      omega (arith, length-append {0} ancestry (target ∷ [])),
    )

-- Where the negotiation agrees, the modes that are agreed are exactly those that the agent produces
-- and the caller wants; a caller that named no modes wants them all.
pub agreed_iff :
    (requested supported agreed : List String) (mode : String)
    → negotiate_output_modes requested supported ≡ ok agreed
    → contains str mode agreed
      ≡ (contains str mode supported && (null requested || contains str mode requested))
unfolding negotiate_output_modes
agreed_iff requested supported agreed mode h =
    ground (arith, contains-keep str mode (λ a. contains str a supported) requested)
