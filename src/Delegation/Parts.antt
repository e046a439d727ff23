-- ===== src/Delegation/Parts.antt =====
-- The typed pieces of a task's message (`Part`, `AgentTaskMessage`). A JSON object whose values are
-- texts is an association list.
use xyzzy.Prelude.{
  List, Result, String, [], err, ite, lookup, none, ok, refl, some, str, ℕ, ◌>>=◌, ◌∷◌, ◌≡◌,
}

pub data PartKind : Type 0 where
  text raw url : PartKind

unfoldable pub kind_value : PartKind → String
kind_value text = "text"
kind_value raw = "raw"
kind_value url = "url"

pub data PartError : Type 0 where
  key_error value_error : PartError

-- `PartKind(value)`
unfoldable pub part_kind : String → Result PartError PartKind
part_kind value =
    ite (str value "text") (ok text)
      (ite (str value "raw") (ok raw) (ite (str value "url") (ok url) (err value_error)))

pub record Part : Type 0 where
  pub kind : PartKind
  pub content : String
  pub media_type : String

unfoldable pub as_dict : Part → List (String × String)
unfolding kind_value
as_dict p = ("kind", kind_value p.kind) ∷ ("content", p.content) ∷ ("media_type", p.media_type) ∷ []

-- `raw[key]`
get_item : String → List (String × String) → Result PartError String
unfolding lookup
get_item key d = elim (lookup str key d) [ none ↦ err key_error | some v ↦ ok v ]

-- `raw.get(key, default)`
get_default : String → String → List (String × String) → String
unfolding lookup
get_default key default d = elim (lookup str key d) [ none ↦ default | some v ↦ v ]

unfoldable pub from_dict : List (String × String) → Result PartError Part
unfolding get_item get_default part_kind str
from_dict d = do
  k ← get_item "kind" d
  kind ← part_kind k
  content ← get_item "content" d
  ok (record {
    kind = kind;
    content = content;
    media_type = get_default "media_type" "text/plain" d;
  })

pub data TaskMessageRole : Type 0 where
  asker delegate : TaskMessageRole

pub record AgentTaskMessage : Type 0 where
  pub message_id : String
  pub task_id : String
  pub sequence : ℕ
  pub role : TaskMessageRole
  pub parts : List Part
  pub created_at : ℕ

-- Any stored part reads back as itself.
pub from_dict-as_dict : (p : Part) → from_dict (as_dict p) ≡ ok p
unfolding from_dict as_dict
from_dict-as_dict p = by_kind p.kind p.content p.media_type
  where
    by_kind :
        (k : PartKind) (c m : String)
        → from_dict (as_dict (record { kind = k; content = c; media_type = m }))
          ≡ ok (record { kind = k; content = c; media_type = m })
    by_kind text c m = refl
    by_kind raw c m = refl
    by_kind url c m = refl
