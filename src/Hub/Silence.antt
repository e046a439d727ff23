-- ===== src/Hub/Silence.antt =====
-- What the replay of other processes' messages hands to the transport, and the delay of reconnects.
use xyzzy.Json.{Fields, Json, get}
use xyzzy.Prelude.{
  Bool, List, Option, String, [], arith, false, if◌then◌else◌, inl, inr, min, none, refl, some, suc,
  true, zero, ℕ, ◌^◌, ◌∙◌, ◌∷◌, ◌≡◌,
}
use xyzzy.Hub.{Message, RealtimeHub, RealtimeSubscription, event, handle_queue_overflow, ids_in}
use xyzzy.Hub.Delivery.{
  broadcast_to_room, deliver, deliver_all, drop_all, drop_subscription, matching, publish_if,
  revoke_room_access, send_each, send_to_user, snapshot, tell_all, tell_revoked,
}
use xyzzy.Hub.Fanout.{
  delay_after, handle_message, max_backoff, named, next_delay, present, replay, replay_event,
  replay_revocation, replay_send, same_text,
}
use xyzzy.Hub.Queues.{deliver_cases}

deliver-published :
    (hub : RealtimeHub) (sub : RealtimeSubscription) (m : Message)
    → (deliver hub sub m).0.published ≡ hub.published
unfolding handle_queue_overflow
deliver-published hub sub m = elim (deliver_cases hub sub m) [
  | inl (queues, took, e) ↦ rw e refl
  | inr (took, e) ↦ rw e refl
]

deliver_all-published :
    (hub : RealtimeHub) (m : Message) (subs : List RealtimeSubscription)
    → (deliver_all hub m subs).0.published ≡ hub.published
unfolding deliver_all
deliver_all-published hub m [] = refl
deliver_all-published hub m (sub ∷ subs) =
    deliver_all-published (deliver hub sub m).0 m subs ∙ deliver-published hub sub m

send_each-published :
    (hub : RealtimeHub) (user_id : String) (m : Message)
    (subs : List (String × RealtimeSubscription))
    → (send_each hub user_id m subs).0.published ≡ hub.published
unfolding send_each
send_each-published hub user_id m [] = refl
send_each-published hub user_id m ((id, sub) ∷ rest) = ground (
  arith,
  send_each-published hub user_id m rest,
  deliver-published hub sub m,
  send_each-published (deliver hub sub m).0 user_id m rest,
)

drop_all-published :
    (room_id : String) (hub : RealtimeHub) (subs : List RealtimeSubscription)
    → (drop_all room_id hub subs).published ≡ hub.published
unfolding drop_all drop_subscription
drop_all-published room_id hub [] = refl
drop_all-published room_id hub (sub ∷ subs) =
    drop_all-published room_id (drop_subscription room_id hub sub) subs

tell_all-published :
    (room_id : String) (hub : RealtimeHub) (subs : List RealtimeSubscription)
    → (tell_all room_id hub subs).published ≡ hub.published
unfolding tell_all tell_revoked handle_queue_overflow
tell_all-published room_id hub [] = refl
tell_all-published room_id hub (sub ∷ subs) =
    let told : (tell_revoked room_id hub sub).published ≡ hub.published = ground arith in
    tell_all-published room_id (tell_revoked room_id hub sub) subs ∙ told

replay_event-published :
    (hub : RealtimeHub) (room : Option String) (e : Option Json)
    → (replay_event hub room e).published ≡ hub.published
unfolding replay_event broadcast_to_room
replay_event-published hub none e = refl
replay_event-published hub (some room_id) none = refl
replay_event-published hub (some room_id) (some e) =
    let kept =
      deliver_all-published hub (event e)
        (snapshot hub.subscriptions (ids_in hub.room_subscriptions room_id)) in
    ground arith

replay_revocation-published :
    (hub : RealtimeHub) (user room : Option String)
    → (replay_revocation hub user room).published ≡ hub.published
unfolding replay_revocation revoke_room_access publish_if
replay_revocation-published hub none room = refl
replay_revocation-published hub (some user_id) none = refl
replay_revocation-published hub (some user_id) (some room_id) =
    let subs = matching user_id room_id hub.subscriptions in
    tell_all-published room_id (drop_all room_id hub subs) subs
    ∙ drop_all-published room_id hub subs

replay_send-published :
    (hub : RealtimeHub) (user : Option String) (e : Option Json)
    → (replay_send hub user e).published ≡ hub.published
unfolding replay_send send_to_user publish_if
replay_send-published hub none e = refl
replay_send-published hub (some user_id) none = refl
replay_send-published hub (some user_id) (some e) =
    let kept = send_each-published hub user_id (event e) hub.subscriptions in ground arith

replay-published :
    (hub : RealtimeHub) (message : Fields) → (replay hub message).published ≡ hub.published
unfolding replay
replay-published hub message =
    let room = named (get "room_id" message) in
    let user = named (get "user_id" message) in
    let e = present (get "event" message) in
    ground (
      arith,
      replay_event-published hub room e,
      replay_revocation-published hub user room,
      replay_send-published hub user e,
    )

-- Whatever arrives from other processes, the hub hands nothing to its transport in answer.
pub handle_message-published :
    (loads : String → Option Json) (origin : String) (hub : RealtimeHub) (raw : Option String)
    → (handle_message loads origin hub raw).published ≡ hub.published
unfolding handle_message
handle_message-published loads origin hub none = refl
handle_message-published loads origin hub (some raw) = by_json (loads raw)
  where
    by_fields :
        (message : Fields) (b : Bool)
        → (if b then hub else replay hub message).published ≡ hub.published
    by_fields message true = refl
    by_fields message false = replay-published hub message

    by_json :
        (o : Option Json)
        → (elim o as (λ _. RealtimeHub) [
          | none ↦ hub
          | some parsed ↦ elim parsed as (λ _. RealtimeHub) [
            | Json.object message ↦
                if same_text (get "origin" message) origin then hub else replay hub message
            | _ ↦ hub
          ]
        ]).published
          ≡ hub.published
    by_json none = refl
    by_json (some (Json.object message)) =
        by_fields message (same_text (get "origin" message) origin)
    by_json (some _) = refl

-- After n attempts in a row that brought no message, the bound of the wait before the next one is
-- two to the n half seconds, and never more than thirty seconds.
pub delay_after_lem : (n : ℕ) → delay_after n ≡ min max_backoff (2 ^ n)
unfolding delay_after next_delay
delay_after_lem zero = refl
delay_after_lem (suc n) = ground (arith, delay_after_lem n)
