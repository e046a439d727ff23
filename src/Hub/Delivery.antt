-- ===== src/Hub/Delivery.antt =====
-- The hub's deliveries: broadcasts, messages to a user, and the revocation of a room's access
-- (src/multiplayer/realtime/hub.py).
use xyzzy.Json.{Json}
use xyzzy.Events.{RoomEvent}
use xyzzy.Prelude.{
  Bool, List, String, [], false, if◌then◌else◌, ite, length, lookup, none, not, remove, some, str,
  true, ℕ, ◌&&◌, ◌++◌, ◌||◌, ◌∷◌,
}
use xyzzy.Hub.{
  FanoutMessage, Message, RealtimeHub, RealtimeSubscription, access_revoked, discard_id, event,
  handle_queue_overflow, ids_in, is_full, put_nowait, revoke, room_event, room_event_payload, send,
}

-- One delivery, and whether the queue took it.
unfoldable pub deliver : RealtimeHub → RealtimeSubscription → Message → RealtimeHub × Bool
unfolding is_full handle_queue_overflow
deliver hub sub m =
    if not (is_full hub.queues sub.queue)
    then elim (put_nowait hub.queues sub.queue m) [
      | some queues ↦ (record hub { queues = queues }, true)
      | none ↦ (handle_queue_overflow hub sub, false)
    ]
    else (handle_queue_overflow hub sub, false)

-- The snapshot of a room's subscriptions.
unfoldable pub snapshot :
    List (String × RealtimeSubscription) → List String → List RealtimeSubscription
snapshot subscriptions [] = []
snapshot subscriptions (id ∷ ids) = elim (lookup str id subscriptions) [
  | none ↦ snapshot subscriptions ids
  | some sub ↦ sub ∷ snapshot subscriptions ids
]

unfoldable pub deliver_all :
    RealtimeHub → Message → List RealtimeSubscription → RealtimeHub × List String
deliver_all hub m [] = (hub, [])
deliver_all hub m (sub ∷ subs) =
    let (hub₁, taken) = deliver hub sub m in
    let (hub₂, delivered) = deliver_all hub₁ m subs in
    (hub₂, if taken then sub.subscription_id ∷ delivered else delivered)

unfoldable pub broadcast_to_room : RealtimeHub → String → Json → RealtimeHub × List String
unfolding snapshot
broadcast_to_room hub room_id e =
    deliver_all hub (event e) (snapshot hub.subscriptions (ids_in hub.room_subscriptions room_id))

-- `if publish and self._fanout is not None`
unfoldable pub publish_if : Bool → FanoutMessage → RealtimeHub → RealtimeHub
publish_if publish m hub =
    if publish && hub.has_fanout then record hub { published = hub.published ++ m ∷ [] } else hub

unfoldable pub broadcast_room_event : RealtimeHub → RoomEvent → Bool → RealtimeHub × List String
unfolding publish_if
broadcast_room_event hub e publish =
    let payload = room_event_payload e in
    let (hub₁, delivered) = broadcast_to_room hub e.event_room payload in
    (publish_if publish (room_event e.event_room payload) hub₁, delivered)

unfoldable pub send_each :
    RealtimeHub → String → Message → List (String × RealtimeSubscription) → RealtimeHub × Bool
send_each hub user_id m [] = (hub, false)
send_each hub user_id m ((_, sub) ∷ rest) =
    let skipped = send_each hub user_id m rest in
    let (hub₁, taken) = deliver hub sub m in
    let (hub₂, later) = send_each hub₁ user_id m rest in
    ite (str sub.user_id user_id) (hub₂, taken || later) skipped

unfoldable pub send_to_user : RealtimeHub → String → Json → Bool → RealtimeHub × Bool
unfolding publish_if
send_to_user hub user_id e publish =
    let (hub₁, delivered) = send_each hub user_id (event e) hub.subscriptions in
    (publish_if publish (send user_id e) hub₁, delivered)

-- The subscriptions of a user to a room.
unfoldable pub matching :
    String → String → List (String × RealtimeSubscription) → List RealtimeSubscription
matching user_id room_id [] = []
matching user_id room_id ((_, sub) ∷ rest) =
    let later = matching user_id room_id rest in
    ite (str sub.user_id user_id) (ite (str sub.room_id room_id) (sub ∷ later) later) later

unfoldable pub drop_subscription : String → RealtimeHub → RealtimeSubscription → RealtimeHub
drop_subscription room_id hub sub = record hub {
  subscriptions = remove str sub.subscription_id hub.subscriptions;
  room_subscriptions = discard_id hub.room_subscriptions room_id sub.subscription_id;
}

unfoldable pub drop_all : String → RealtimeHub → List RealtimeSubscription → RealtimeHub
drop_all room_id hub [] = hub
drop_all room_id hub (sub ∷ subs) = drop_all room_id (drop_subscription room_id hub sub) subs

unfoldable pub tell_revoked : String → RealtimeHub → RealtimeSubscription → RealtimeHub
tell_revoked room_id hub sub = elim (put_nowait hub.queues sub.queue (access_revoked room_id)) [
  | some queues ↦ record hub { queues = queues }
  | none ↦ handle_queue_overflow hub sub
]

unfoldable pub tell_all : String → RealtimeHub → List RealtimeSubscription → RealtimeHub
tell_all room_id hub [] = hub
tell_all room_id hub (sub ∷ subs) = tell_all room_id (tell_revoked room_id hub sub) subs

unfoldable pub revoke_room_access : RealtimeHub → String → String → Bool → RealtimeHub × ℕ
unfolding publish_if
revoke_room_access hub user_id room_id publish =
    let revoked = matching user_id room_id hub.subscriptions in
    let hub₁ = tell_all room_id (drop_all room_id hub revoked) revoked in
    (publish_if publish (revoke room_id user_id) hub₁, length revoked)

unfoldable pub room_subscriber_count : RealtimeHub → String → ℕ
room_subscriber_count hub room_id = length (ids_in hub.room_subscriptions room_id)

unfoldable pub subscriber_count : RealtimeHub → ℕ
subscriber_count hub = length hub.subscriptions

-- The rooms of a user's subscriptions.
unfoldable pub user_rooms : String → List (String × RealtimeSubscription) → List String
user_rooms user_id [] = []
user_rooms user_id ((_, sub) ∷ rest) =
    let later = user_rooms user_id rest in ite (str sub.user_id user_id) (sub.room_id ∷ later) later

unfoldable pub get_user_rooms : RealtimeHub → String → List String
get_user_rooms hub user_id = user_rooms user_id hub.subscriptions

-- The keys of a user's subscriptions to a room.
unfoldable pub matching_ids : String → String → List (String × RealtimeSubscription) → List String
matching_ids user_id room_id [] = []
matching_ids user_id room_id ((id, sub) ∷ rest) =
    let later = matching_ids user_id room_id rest in
    ite (str sub.user_id user_id) (ite (str sub.room_id room_id) (id ∷ later) later) later

unfoldable pub get_subscriptions_for_user_room : RealtimeHub → String → String → List String
get_subscriptions_for_user_room hub user_id room_id = matching_ids user_id room_id hub.subscriptions
