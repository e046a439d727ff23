-- ===== src/Capability.antt =====
-- The five-way capability bound and the tool gateway (src/multiplayer/security/capabilities.py).
-- A `frozenset` is a list that is read through `contains` alone; `sorted(…)`, which fixes the
-- order in which a set is listed, is left out.
pub mod Bounds
pub mod Gateway
use Prim.Native.String
use xyzzy.Prelude.{
  Bool, List, Option, Result, String, [], contains, diff, err, false, if◌then◌else◌, inter, ite,
  lookup, none, not, null, ok, set_eq, some, str, true, ◌++◌, ◌||◌, ◌∷◌,
}
use text.Mathlib.Text.{starts_with}

abbrev pub capabilities : List String
capabilities =
    "analysis" ∷ "coding" ∷ "decision_making" ∷ "planning" ∷ "research" ∷ "retrieval" ∷ "review"
    ∷ "security" ∷ "synthesis" ∷ "testing" ∷ "writing" ∷ []

abbrev pub mutating_capabilities : List String
mutating_capabilities = "coding" ∷ "testing" ∷ "writing" ∷ []

unfoldable pub role_capabilities : String → Option (List String)
role_capabilities role = ite (str role "admin") (some capabilities) (
    ite (str role "editor") (some capabilities) (
      ite (str role "member") (some capabilities)
        (ite (str role "viewer") (some (diff str capabilities mutating_capabilities)) none)))

-- `room_role or ""`
abbrev pub or_empty : Option String → String
or_empty none = ""
or_empty (some s) = s

abbrev pub or_nothing : Option (List String) → List String
or_nothing none = []
or_nothing (some xs) = xs

unfoldable pub user_capabilities : Option String → List String
unfolding role_capabilities
user_capabilities room_role = or_nothing (role_capabilities (or_empty room_role))

unfoldable pub policy_capabilities : Option (List String) → List String
policy_capabilities none = capabilities
policy_capabilities (some allowed) = inter str allowed capabilities

abbrev pub unknown_principal : String
unknown_principal = ""

abbrev pub agent_principal_prefix : String
agent_principal_prefix = "agent:"

unfoldable pub agent_principal : String → String
agent_principal agent_id = String.◌++◌ agent_principal_prefix agent_id

pub data BoundError : Type 0 where
  value_error : BoundError

-- `BoundingPrincipals`: an empty set is refused.
pub record BoundingPrincipals : Type 0 where
  pub principals : List String

unfoldable pub bounding_principals : List String → Result BoundError BoundingPrincipals
bounding_principals principals =
    if null principals then err value_error else ok (record { principals = principals })

-- `BoundingPrincipals.read_from`
unfoldable pub read_from : List String → Result BoundError BoundingPrincipals
unfolding bounding_principals
read_from principals =
    bounding_principals (if null principals then unknown_principal ∷ [] else principals)

unfoldable pub also_bounded_by :
    BoundingPrincipals → List String → Result BoundError BoundingPrincipals
unfolding bounding_principals
also_bounded_by b principals = bounding_principals (b.principals ++ principals)

pub record CapabilityTerms : Type 0 where
  pub user : List String
  pub agent : List String
  pub skill : List String
  pub channel : List String
  pub workspace : List String

unfoldable pub effective : CapabilityTerms → List String
effective t =
    inter str (inter str (inter str (inter str t.user t.agent) t.skill) t.channel) t.workspace

pub record RunAuthorization : Type 0 where
  pub run_id : String
  pub agent_id : String
  pub room_id : String
  pub bounding : BoundingPrincipals
  pub required_capability : String

pub record UnboundedTerms : Type 0 where
  pub read_for : BoundingPrincipals
  pub terms : CapabilityTerms

unfoldable pub spend_under : UnboundedTerms → RunAuthorization → Result BoundError CapabilityTerms
spend_under t authorization =
    if not (set_eq str authorization.bounding.principals t.read_for.principals)
    then err value_error
    else ok t.terms

unfoldable pub lendable : UnboundedTerms → List String
unfolding effective
lendable t = effective t.terms

unfoldable pub may_address : String → String → List String → String → Bool
may_address mode owner_user_id allowlist user_id = ite (str user_id "") false (
    ite (str mode "ANYONE") true (
      ite (str mode "OWNER_ONLY") (ite (str user_id owner_user_id) true false) (
        ite (str mode "ALLOWLIST")
          (ite (str user_id owner_user_id) true (contains str user_id allowlist)) false)))

pub record ToolSpec : Type 0 where
  pub spec_name : String
  pub spec_capability : String
  pub spec_approval : Bool

abbrev pub tool : String → String → Bool → String × ToolSpec
tool name capability approval =
    (name, record { spec_name = name; spec_capability = capability; spec_approval = approval })

abbrev pub tools : List (String × ToolSpec)
tools =
    tool "channel.read_context" "retrieval" false
    ∷ tool "message.react" "writing" false
    ∷ tool "task.create" "writing" true
    ∷ tool "artifact.write" "writing" true
    ∷ []

abbrev pub names_within : List String → List (String × ToolSpec) → List String
names_within granted [] = []
names_within granted ((name, spec) ∷ rest) =
    if contains str spec.spec_capability granted
    then name ∷ names_within granted rest
    else names_within granted rest

unfoldable pub allowed_tools : List String → List String
unfolding contains str
allowed_tools granted = names_within granted tools

pub data DecisionReason : Type 0 where
  unknown_tool outside_effective_set approval_required allowed_reason strict_pause : DecisionReason

pub record GatewayDecision : Type 0 where
  pub tool_name : String
  pub allowed : Bool
  pub requires_approval : Bool
  pub decided_capability : Option String
  pub reason : DecisionReason

unfoldable pub decide_spec : String → Option ToolSpec → List String → GatewayDecision
decide_spec name none granted = record {
  tool_name = name;
  allowed = false;
  requires_approval = false;
  decided_capability = none;
  reason = unknown_tool;
}
decide_spec name (some spec) granted =
    if not (contains str spec.spec_capability granted)
    then record {
      tool_name = name;
      allowed = false;
      requires_approval = false;
      decided_capability = some spec.spec_capability;
      reason = outside_effective_set;
    }
    else record {
      tool_name = name;
      allowed = true;
      requires_approval = spec.spec_approval;
      decided_capability = some spec.spec_capability;
      reason = if spec.spec_approval then approval_required else allowed_reason;
    }

unfoldable pub decide : String → List String → GatewayDecision
unfolding decide_spec lookup
decide name granted = decide_spec name (lookup str name tools) granted

pub data Posture : Type 0 where
  guarded strict : Posture

unfoldable pub under_posture : GatewayDecision → Posture → GatewayDecision
under_posture decision guarded = decision
under_posture decision strict =
    if not decision.allowed || decision.requires_approval
    then decision
    else record decision { requires_approval = true; reason = strict_pause }
