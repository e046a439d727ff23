-- ===== src/Hub/Fanout.antt =====
-- The cross-process transport: the replay of what other processes published, and the delay between
-- attempts to reconnect (src/multiplayer/realtime/fanout.py). `loads` stands for `json.loads`, with
-- an answer for an object alone; Redis itself is not modelled.
use xyzzy.Json.{Fields, Json, get}
use xyzzy.Prelude.{
  Bool, Option, String, [], false, if◌then◌else◌, ite, min, none, some, str, suc, true, zero, ℕ,
  ◌*◌, ◌==◌, ◌∷◌,
}
use xyzzy.Hub.{FanoutMessage, RealtimeHub, revoke, room_event, send}
use xyzzy.Hub.Delivery.{
  broadcast_to_room, get_user_rooms, revoke_room_access, room_subscriber_count, send_to_user,
}

-- A text that is there and not empty. An id that is no text names no subscription, so that taking it
-- as missing leaves the same hub.
unfoldable pub named : Json → Option String
named (Json.text t) = ite (str t "") none (some t)
named _ = none

-- A value that is there.
unfoldable pub present : Json → Option Json
present Json.null = none
present j = some j

unfoldable pub same_text : Json → String → Bool
same_text (Json.text t) s = ite (str t s) true false
same_text _ s = false

unfoldable pub replay_event : RealtimeHub → Option String → Option Json → RealtimeHub
replay_event hub (some room_id) (some e) =
    if room_subscriber_count hub room_id == 0 then hub else (broadcast_to_room hub room_id e).0
replay_event hub _ _ = hub

unfoldable pub replay_revocation : RealtimeHub → Option String → Option String → RealtimeHub
replay_revocation hub (some user_id) (some room_id) =
    (revoke_room_access hub user_id room_id false).0
replay_revocation hub _ _ = hub

unfoldable pub replay_send : RealtimeHub → Option String → Option Json → RealtimeHub
replay_send hub (some user_id) (some e) = elim (get_user_rooms hub user_id) [
  | [] ↦ hub
  | _ ∷ _ ↦ (send_to_user hub user_id e false).0
]
replay_send hub _ _ = hub

unfoldable pub replay : RealtimeHub → Fields → RealtimeHub
unfolding same_text replay_event replay_revocation replay_send
replay hub message =
    let kind = get "kind" message in
    if same_text kind "room_event"
    then replay_event hub (named (get "room_id" message)) (present (get "event" message))
    else if same_text kind "revoke"
    then replay_revocation hub (named (get "user_id" message)) (named (get "room_id" message))
    else if same_text kind "send_to_user"
    then replay_send hub (named (get "user_id" message)) (present (get "event" message))
    else hub

-- `raw` is `none` for a message without data.
unfoldable pub handle_message :
    (String → Option Json) → String → RealtimeHub → Option String → RealtimeHub
unfolding replay
handle_message loads origin hub none = hub
handle_message loads origin hub (some raw) = elim (loads raw) [
  | none ↦ hub
  | some parsed ↦ elim parsed [
    | Json.object message ↦
        if same_text (get "origin" message) origin then hub else replay hub message
    | _ ↦ hub
  ]
]

-- `{**message, "origin": self.origin}`, of a message that the hub hands over.
unfoldable pub wire : String → FanoutMessage → Fields
wire origin (room_event room_id e) = Fields.field "kind" (Json.text "room_event") (
    Fields.field "room_id" (Json.text room_id)
      (Fields.field "event" e (Fields.field "origin" (Json.text origin) Fields.end)))
wire origin (revoke room_id user_id) = Fields.field "kind" (Json.text "revoke") (
    Fields.field "room_id" (Json.text room_id) (
      Fields.field "user_id" (Json.text user_id)
        (Fields.field "origin" (Json.text origin) Fields.end)))
wire origin (send user_id e) = Fields.field "kind" (Json.text "send_to_user") (
    Fields.field "user_id" (Json.text user_id)
      (Fields.field "event" e (Fields.field "origin" (Json.text origin) Fields.end)))

-- The bounds of the delay, in half seconds.
abbrev pub min_backoff : ℕ
min_backoff = 1

abbrev pub max_backoff : ℕ
max_backoff = 60

-- `delay = min(_MAX_BACKOFF_SECONDS, delay * 2)`
unfoldable pub next_delay : ℕ → ℕ
next_delay delay = min max_backoff (delay * 2)

-- The delay's bound after a number of attempts in a row that brought no message.
unfoldable pub delay_after : ℕ → ℕ
unfolding next_delay
delay_after zero = min_backoff
delay_after (suc n) = next_delay (delay_after n)
