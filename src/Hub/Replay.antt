-- ===== src/Hub/Replay.antt =====
-- What the replay of another process's message comes to.
use xyzzy.Json.{Json, get}
use xyzzy.Prelude.{
  List, Option, String, [], arith, false, ite, length, refl, some, str, ◌∷◌, ◌≡◌, ◌≢◌,
}
use xyzzy.Hub.{
  FanoutMessage, Message, RealtimeHub, RealtimeSubscription, event, ids_in, revoke, room_event,
  send,
}
use xyzzy.Hub.Delivery.{
  broadcast_to_room, deliver_all, get_user_rooms, publish_if, revoke_room_access,
  room_subscriber_count, send_each, send_to_user, snapshot, user_rooms,
}
use xyzzy.Hub.Fanout.{
  handle_message, named, present, replay, replay_event, replay_revocation, replay_send, same_text,
  wire,
}

-- The operation that a message stands for, done locally.
abbrev pub remote : RealtimeHub → FanoutMessage → RealtimeHub
remote hub (room_event room_id e) = (broadcast_to_room hub room_id e).0
remote hub (revoke room_id user_id) = (revoke_room_access hub user_id room_id false).0
remote hub (send user_id e) = (send_to_user hub user_id e false).0

-- Ids that are not empty, and an event that is not null.
abbrev pub Sound : FanoutMessage → Type 0
Sound (room_event room_id e) = (room_id ≢ "") × (present e ≡ some e)
Sound (revoke room_id user_id) = (room_id ≢ "") × (user_id ≢ "")
Sound (send user_id e) = (user_id ≢ "") × (present e ≡ some e)

-- With no subscriber to a room, a broadcast to it changes nothing.
broadcast-nobody :
    (hub : RealtimeHub) (room_id : String) (e : Json)
    → room_subscriber_count hub room_id ≡ 0
    → (broadcast_to_room hub room_id e).0 ≡ hub
unfolding broadcast_to_room room_subscriber_count snapshot deliver_all
broadcast-nobody hub room_id e h = by_ids (ids_in hub.room_subscriptions room_id) h
  where
    by_ids :
        (ids : List String)
        → length ids ≡ 0
        → (deliver_all hub (event e) (snapshot hub.subscriptions ids)).0 ≡ hub
    by_ids [] q = refl
    by_ids (_ ∷ _) q = absurd (omega arith)

-- With no subscription of a user, a message to them changes nothing.
send_each-nobody :
    (hub : RealtimeHub) (user_id : String) (m : Message)
    (subs : List (String × RealtimeSubscription))
    → user_rooms user_id subs ≡ []
    → (send_each hub user_id m subs).0 ≡ hub
unfolding send_each user_rooms
send_each-nobody hub user_id m [] h = refl
send_each-nobody hub user_id m ((id, sub) ∷ rest) h =
    ground (arith, send_each-nobody hub user_id m rest)

named-text : (t : String) → t ≢ "" → named (Json.text t) ≡ some t
unfolding named
named-text t ne = ground arith

replay_event_lem :
    (hub : RealtimeHub) (room_id : String) (e : Json)
    → replay_event hub (some room_id) (some e) ≡ (broadcast_to_room hub room_id e).0
unfolding replay_event
replay_event_lem hub room_id e = ground (arith, broadcast-nobody hub room_id e)

replay_send_lem :
    (hub : RealtimeHub) (user_id : String) (e : Json)
    → replay_send hub (some user_id) (some e) ≡ (send_to_user hub user_id e false).0
unfolding replay_send send_to_user get_user_rooms publish_if
replay_send_lem hub user_id e =
    ground (arith, send_each-nobody hub user_id (event e) hub.subscriptions)

replay-wire :
    (hub : RealtimeHub) (origin : String) (m : FanoutMessage)
    → Sound m
    → replay hub (wire origin m) ≡ remote hub m
unfolding replay wire get same_text str replay_revocation
replay-wire hub origin (room_event room_id e) s =
    rw (named-text room_id s.0, s.1) (replay_event_lem hub room_id e)
replay-wire hub origin (revoke room_id user_id) s =
    rw (named-text room_id s.0, named-text user_id s.1) refl
replay-wire hub origin (send user_id e) s =
    rw (named-text user_id s.0, s.1) (replay_send_lem hub user_id e)

wire-origin :
    (origin : String) (m : FanoutMessage) → get "origin" (wire origin m) ≡ Json.text origin
unfolding wire get str
wire-origin origin (room_event _ _) = refl
wire-origin origin (revoke _ _) = refl
wire-origin origin (send _ _) = refl

-- A message that a process publishes, once it parses as what was sent, does at every process with
-- another origin what the operation itself does there without publishing, the shortcuts for rooms
-- and users without subscribers included, and changes nothing at a process with the same origin.
pub handle_message-wire :
    (loads : String → Option Json) (raw : String) (origin other : String) (m : FanoutMessage)
    (hub : RealtimeHub)
    → loads raw ≡ some (Json.object (wire origin m))
    → Sound m
    → handle_message loads other hub (some raw) ≡ ite (str origin other) hub (remote hub m)
unfolding handle_message same_text
handle_message-wire loads raw origin other m hub parsed s =
    let from = wire-origin origin m in let done = replay-wire hub origin m s in ground arith
