-- ===== src/Hub/Reach.antt =====
-- The states that the hub reaches by its operations, in any order.
use xyzzy.Json.{Fields, Json, get}
use xyzzy.Events.{RoomEvent}
use xyzzy.Prelude.{
  Bool, List, Option, String, [], arith, contains, false, if◌then◌else◌, lookup, none, some, str,
  true, ℕ, ◌==◌, ◌∷◌, ◌≡◌,
}
use xyzzy.Hub.{RealtimeHub, ids_in, new_hub, queue_of, subscribe, unsubscribe}
use xyzzy.Hub.Delivery.{
  broadcast_room_event, broadcast_to_room, get_user_rooms, revoke_room_access,
  room_subscriber_count, send_to_user,
}
use xyzzy.Hub.Fanout.{replay, replay_event, replay_revocation, replay_send, same_text}
use xyzzy.Hub.Consistency.{
  IsConsistent, broadcast-IsConsistent, broadcast_room_event-IsConsistent,
  revoke_room_access-IsConsistent, send_to_user-IsConsistent, subscribe-IsConsistent,
  unsubscribe-IsConsistent,
}

-- One operation of the hub. A new subscription's id is one that the hub does not hold.
infix 40 ◌⇒◌ ◌⇒*◌
pub data ◌⇒◌ (hub : RealtimeHub) : RealtimeHub → Type 0 where
  subscribed :
      (room_id user_id : String) (queue : Option String) (new_id new_queue : String)
      → lookup str new_id hub.subscriptions ≡ none
      → hub ⇒ (subscribe hub room_id user_id queue new_id new_queue).0
  unsubscribed : (id : String) → hub ⇒ unsubscribe hub id
  broadcast : (e : RoomEvent) (publish : Bool) → hub ⇒ (broadcast_room_event hub e publish).0
  sent :
      (user_id : String) (e : Json) (publish : Bool) → hub ⇒ (send_to_user hub user_id e publish).0
  revoked :
      (user_id room_id : String) (publish : Bool)
      → hub ⇒ (revoke_room_access hub user_id room_id publish).0
  replayed : (message : Fields) → hub ⇒ replay hub message

pub data ◌⇒*◌ (hub : RealtimeHub) : RealtimeHub → Type 0 where
  start : hub ⇒* hub
  then_by : {hub₁ hub₂ : RealtimeHub} → hub ⇒* hub₁ → hub₁ ⇒ hub₂ → hub ⇒* hub₂

replay_event-IsConsistent :
    (hub : RealtimeHub) (room : Option String) (e : Option Json)
    → IsConsistent hub
    → IsConsistent (replay_event hub room e)
unfolding replay_event
replay_event-IsConsistent hub none e v = v
replay_event-IsConsistent hub (some room_id) none v = v
replay_event-IsConsistent hub (some room_id) (some e) v =
    by_test (room_subscriber_count hub room_id == 0)
  where
    by_test : (b : Bool) → IsConsistent (if b then hub else (broadcast_to_room hub room_id e).0)
    by_test true = v
    by_test false = broadcast-IsConsistent hub room_id e v

replay_revocation-IsConsistent :
    (hub : RealtimeHub) (user room : Option String)
    → IsConsistent hub
    → IsConsistent (replay_revocation hub user room)
unfolding replay_revocation
replay_revocation-IsConsistent hub none room v = v
replay_revocation-IsConsistent hub (some user_id) none v = v
replay_revocation-IsConsistent hub (some user_id) (some room_id) v =
    revoke_room_access-IsConsistent hub user_id room_id false v

replay_send-IsConsistent :
    (hub : RealtimeHub) (user : Option String) (e : Option Json)
    → IsConsistent hub
    → IsConsistent (replay_send hub user e)
unfolding replay_send
replay_send-IsConsistent hub none e v = v
replay_send-IsConsistent hub (some user_id) none v = v
replay_send-IsConsistent hub (some user_id) (some e) v = by_rooms (get_user_rooms hub user_id)
  where
    by_rooms :
        (rooms : List String)
        → IsConsistent (elim rooms as (λ _. RealtimeHub) [
          | [] ↦ hub
          | _ ∷ _ ↦ (send_to_user hub user_id e false).0
        ])
    by_rooms [] = v
    by_rooms (_ ∷ _) = send_to_user-IsConsistent hub user_id e false v

choose :
    (b : Bool) (x y : RealtimeHub)
    → IsConsistent x
    → IsConsistent y
    → IsConsistent (if b then x else y)
choose true x y p q = p
choose false x y p q = q

replay-IsConsistent :
    (hub : RealtimeHub) (message : Fields) → IsConsistent hub → IsConsistent (replay hub message)
unfolding replay
replay-IsConsistent hub message v =
    let kind = get "kind" message in
    choose (same_text kind "room_event") _ _ (replay_event-IsConsistent hub _ _ v) (
      choose (same_text kind "revoke") _ _ (replay_revocation-IsConsistent hub _ _ v)
        (choose (same_text kind "send_to_user") _ _ (replay_send-IsConsistent hub _ _ v) v))

step-IsConsistent : {hub hub' : RealtimeHub} → hub ⇒ hub' → IsConsistent hub → IsConsistent hub'
step-IsConsistent (subscribed room_id user_id queue new_id new_queue fresh) v =
    subscribe-IsConsistent _ room_id user_id queue new_id new_queue fresh v
step-IsConsistent (unsubscribed id) v = unsubscribe-IsConsistent _ id v
step-IsConsistent (broadcast e publish) v = broadcast_room_event-IsConsistent _ e publish v
step-IsConsistent (sent user_id e publish) v = send_to_user-IsConsistent _ user_id e publish v
step-IsConsistent (revoked user_id room_id publish) v =
    revoke_room_access-IsConsistent _ user_id room_id publish v
step-IsConsistent (replayed message) v = replay-IsConsistent _ message v

new_hub-IsConsistent : (f : Bool) (n : Option ℕ) → IsConsistent (new_hub f n)
unfolding new_hub queue_of ids_in lookup contains
new_hub-IsConsistent f n = record {
  bounded = λ q. omega arith;
  indexed = record { keyed = tt; listed_ids = λ id sub h. cc; backed = λ r id m. cc };
}

run-IsConsistent : {hub hub' : RealtimeHub} → IsConsistent hub → hub ⇒* hub' → IsConsistent hub'
run-IsConsistent v start = v
run-IsConsistent v (then_by r s) = step-IsConsistent s (run-IsConsistent v r)

-- In every state that a new hub reaches by subscriptions under new ids, their ends, broadcasts,
-- messages to users, revocations and replays of other processes' messages, in any order, no queue
-- holds more than 256 entries, and the subscriptions by id and the ids by room are the same ones.
pub reachable-IsConsistent :
    (has_fanout : Bool) (overflow_metric : Option ℕ) {hub : RealtimeHub}
    → new_hub has_fanout overflow_metric ⇒* hub
    → IsConsistent hub
reachable-IsConsistent has_fanout overflow_metric r =
    run-IsConsistent (new_hub-IsConsistent has_fanout overflow_metric) r
