-- ===== src/Capability/Gateway.antt =====
-- The tool gateway (`allowed_tools`, `decide`, `under_posture`).
use xyzzy.Prelude.{
  Bool, List, Option, String, [], arith, contains, false, lookup, none, refl, some, str, true, ◌∷◌,
  ◌≡◌,
}
use xyzzy.Capability.{
  Posture, ToolSpec, allowed_tools, decide, decide_spec, names_within, strict, tools, under_posture,
}

-- Each name stands once in the registry.
abbrev Keyed : List (String × ToolSpec) → Type 0
Keyed [] = Unit {0}
Keyed ((name, _) ∷ rest) = (lookup str name rest ≡ none) × Keyed rest

-- Whether the registry grants a tool, by its entry.
abbrev granted_by : List String → Option ToolSpec → Bool
granted_by granted none = false
granted_by granted (some spec) = contains str spec.spec_capability granted

names_within-none :
    (name : String) (granted : List String) (specs : List (String × ToolSpec))
    → lookup str name specs ≡ none
    → contains str name (names_within granted specs) ≡ false
unfolding contains lookup
names_within-none name granted [] h = refl
names_within-none name granted ((n, s) ∷ rest) h =
    ground (arith, names_within-none name granted rest)

names_within-lookup :
    (name : String) (granted : List String) (specs : List (String × ToolSpec))
    → Keyed specs
    → contains str name (names_within granted specs) ≡ granted_by granted (lookup str name specs)
unfolding contains lookup
names_within-lookup name granted [] k = refl
names_within-lookup name granted ((n, s) ∷ rest) k =
    ground (arith, names_within-lookup name granted rest, names_within-none name granted rest)

-- The list of tools shown to a model and the gate on a call agree: a call is allowed exactly when
-- the tool is listed. The posture of a run never changes that; it only adds an approval, which an
-- allowed call always needs under the strict posture, and no refused call needs one.
pub gateway_agrees :
    (name : String) (granted : List String) (posture : Posture)
    → (let plain = decide name granted in
        let d = under_posture plain posture in
        (d.allowed ≡ contains str name (allowed_tools granted))
        × (plain.requires_approval ≡ true → d.requires_approval ≡ true)
        × (posture ≡ strict → d.allowed ≡ true → d.requires_approval ≡ true)
        × (d.requires_approval ≡ true → d.allowed ≡ true))
unfolding decide allowed_tools decide_spec under_posture
gateway_agrees name granted posture =
    rw (names_within-lookup name granted tools (refl, (refl, (refl, (refl, tt)))))
      (by_entry (lookup str name tools) posture)
  where
    by_entry :
        (entry : Option ToolSpec) (posture : Posture)
        → (let plain = decide_spec name entry granted in
            let d = under_posture plain posture in
            (d.allowed ≡ granted_by granted entry)
            × (plain.requires_approval ≡ true → d.requires_approval ≡ true)
            × (posture ≡ strict → d.allowed ≡ true → d.requires_approval ≡ true)
            × (d.requires_approval ≡ true → d.allowed ≡ true))
    by_entry entry posture =
        (ground arith, λ h. ground arith, λ e h. ground arith, λ h. ground arith)
