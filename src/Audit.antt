-- ===== src/Audit.antt =====
-- The tamper-evident hash chain over a room's events: the hashes and the shapes that the verifier
-- reads (src/multiplayer/security/audit.py). `digest` stands for SHA-256 over the JSON text of a
-- list of fields (`hashlib`, `json.dumps`), and `loads` for `json.loads`, `none` where it raises.
pub mod Verify
pub mod Rooms
pub mod Linked
pub mod Commitment
pub mod Pass
pub mod Prefix
pub mod Tamper
use xyzzy.Json.{Items, Json, field_names, get}
use xyzzy.Prelude.{
  Bool, List, Option, String, [], contains, false, if◌then◌else◌, ite, none, not, set_eq, some, str,
  subset, true, ℕ, ◌∷◌,
}

-- A member of the list that is hashed.
pub data Field : Type 0 where
  text_field : String → Field
  number_field : ℕ → Field

abbrev pub genesis_hash : String
genesis_hash = ""

-- A row of `room_events`. The last two columns may be NULL.
pub record EventRow : Type 0 where
  pub event_id : String
  pub sequence : ℕ
  pub event_type : String
  pub payload : String
  pub actor_id : String
  pub actor_type : String
  pub timestamp : String
  pub schema_version : ℕ
  pub prev_hash : Option String
  pub event_hash : Option String

-- The columns of a row of `event_redactions` that the verifier reads.
pub record RedactionRow : Type 0 where
  pub redaction_id : String
  pub redacted_event_id : String
  pub original_event_hash : String
  pub header_hash : String

pub record RedactionAnnouncement : Type 0 where
  pub announced_id : String
  pub announced_header_hash : String
  pub announced_original_hash : String

-- The members of the list that `event_chain_hash` hashes.
unfoldable pub chain_material : String → String → EventRow → List Field
chain_material prev_hash room_id row =
    text_field prev_hash
    ∷ text_field row.event_id
    ∷ text_field room_id
    ∷ number_field row.sequence
    ∷ text_field row.event_type
    ∷ text_field row.payload
    ∷ text_field row.actor_id
    ∷ text_field row.actor_type
    ∷ text_field row.timestamp
    ∷ number_field row.schema_version
    ∷ []

-- The members of the list that `header_snapshot_hash` hashes.
unfoldable pub header_material : EventRow → String → List Field
header_material row prev_hash =
    text_field row.event_type
    ∷ text_field row.actor_id
    ∷ text_field row.actor_type
    ∷ text_field row.timestamp
    ∷ number_field row.schema_version
    ∷ number_field row.sequence
    ∷ text_field prev_hash
    ∷ []

-- `redaction_id if isinstance(redaction_id, str) and redaction_id else None`
unfoldable pub nonempty_text : Json → Option String
nonempty_text (Json.text t) = ite (str t "") none (some t)
nonempty_text _ = none

abbrev pub is_true : Json → Bool
is_true (Json.bool true) = true
is_true _ = false

abbrev pub marker_keys : List String
marker_keys = "redacted" ∷ "redaction_id" ∷ []

unfoldable pub marker_of_json : Json → Option String
unfolding nonempty_text field_names get subset contains str
marker_of_json (Json.object fs) =
    if not (set_eq str (field_names fs) marker_keys)
    then none
    else if not (is_true (get "redacted" fs))
    then none
    else nonempty_text (get "redaction_id" fs)
marker_of_json _ = none

-- One entry of `redactions`, where its three members are texts and the id is not empty.
unfoldable pub announcement_of : Json → Option RedactionAnnouncement
unfolding nonempty_text get str
announcement_of (Json.object fs) = elim (nonempty_text (get "redaction_id" fs)) [
  | none ↦ none
  | some id ↦ elim (get "header_hash" fs) [
    | Json.text h ↦ elim (get "original_event_hash" fs) [
      | Json.text o ↦
          some
            (record { announced_id = id; announced_header_hash = h; announced_original_hash = o })
      | _ ↦ none
    ]
    | _ ↦ none
  ]
]
announcement_of _ = none

unfoldable pub announcements : Items → List RedactionAnnouncement
announcements Items.nil = []
announcements (Items.cons j js) = elim (announcement_of j) [
  | none ↦ announcements js
  | some a ↦ a ∷ announcements js
]

abbrev pub items_of : Json → Items
items_of (Json.array js) = js
items_of _ = Items.nil

unfoldable pub announced_in : Json → List RedactionAnnouncement
unfolding announcements announcement_of get str
announced_in (Json.object fs) = announcements (items_of (get "redactions" fs))
announced_in _ = []

module _ (digest : List Field → String) where
  unfoldable pub event_chain_hash : String → String → EventRow → String
  unfolding chain_material
  event_chain_hash prev_hash room_id row = digest (chain_material prev_hash room_id row)

  unfoldable pub header_snapshot_hash : EventRow → String → String
  unfolding header_material
  header_snapshot_hash row prev_hash = digest (header_material row prev_hash)

module _ (loads : String → Option Json) where
  unfoldable pub redaction_marker : String → Option String
  redaction_marker payload_json = elim (loads payload_json) [
    | none ↦ none
    | some j ↦ marker_of_json j
  ]

  unfoldable pub announced_redactions : String → String → List RedactionAnnouncement
  announced_redactions event_type payload_json =
      ite (str event_type "event.redacted")
        (elim (loads payload_json) [ none ↦ [] | some j ↦ announced_in j ]) []
