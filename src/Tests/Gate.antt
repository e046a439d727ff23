-- ===== src/Tests/Gate.antt =====
-- The capability bound's theorems on one room.
use xyzzy.Prelude.{String, [], contains, ok, refl, some, str, true, ◌↔◌, ◌∷◌, ◌≡◌}
use xyzzy.Capability.{
  CapabilityTerms, RunAuthorization, UnboundedTerms, allowed_tools, capabilities, decide, effective,
  policy_capabilities, spend_under, strict, under_posture,
}
use xyzzy.Capability.Bounds.{effective_iff, policy_within_vocabulary, spend_under_iff}
use xyzzy.Capability.Gateway.{gateway_agrees}

abbrev some_terms : CapabilityTerms
some_terms = record {
  user = "writing" ∷ "coding" ∷ [];
  agent = "coding" ∷ [];
  skill = "coding" ∷ "writing" ∷ [];
  channel = "coding" ∷ [];
  workspace = "coding" ∷ [];
}

effective_iff_example : (contains str "coding" (effective some_terms) ≡ true) ↔ (
    (contains str "coding" some_terms.user ≡ true)
    × (contains str "coding" some_terms.agent ≡ true)
    × (contains str "coding" some_terms.skill ≡ true)
    × (contains str "coding" some_terms.channel ≡ true)
    × (contains str "coding" some_terms.workspace ≡ true))
effective_iff_example = effective_iff some_terms "coding"

policy_within_vocabulary_example : contains str "coding" capabilities ≡ true
policy_within_vocabulary_example =
    policy_within_vocabulary (some ("coding" ∷ "magic" ∷ [])) "coding"
      (unfold policy_capabilities contains str in refl)

abbrev read_terms : UnboundedTerms
read_terms = record { read_for = record { principals = "u1" ∷ "u2" ∷ [] }; terms = some_terms }

abbrev run_of_two : RunAuthorization
run_of_two = record {
  run_id = "x1";
  agent_id = "a";
  room_id = "r1";
  bounding = record { principals = "u2" ∷ "u1" ∷ "u2" ∷ [] };
  required_capability = "coding";
}

spend_under_iff_example : (spend_under read_terms run_of_two ≡ ok some_terms) ↔ (
    (some_terms ≡ some_terms)
    × ((p : String) → contains str p ("u2" ∷ "u1" ∷ "u2" ∷ []) ≡ contains str p ("u1" ∷ "u2" ∷ [])))
spend_under_iff_example = spend_under_iff read_terms run_of_two some_terms

gateway_agrees_example :
    (let plain = decide "message.react" ("writing" ∷ []) in
      let d = under_posture plain strict in
      (d.allowed ≡ contains str "message.react" (allowed_tools ("writing" ∷ [])))
      × (plain.requires_approval ≡ true → d.requires_approval ≡ true)
      × (strict ≡ strict → d.allowed ≡ true → d.requires_approval ≡ true)
      × (d.requires_approval ≡ true → d.allowed ≡ true))
gateway_agrees_example = gateway_agrees "message.react" ("writing" ∷ []) strict
