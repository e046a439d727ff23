-- ===== src/Hub/Consistency.antt =====
-- The operations of the hub and its invariant: the size of the queues and the two views of the
-- subscriptions.
use xyzzy.Hub.Revocation.{revoke_room_access-IsIndexed}
use xyzzy.Json.{Json}
use xyzzy.Events.{RoomEvent}
use xyzzy.Prelude.{
  Bool, List, Option, String, [], arith, false, if◌then◌else◌, inl, inr, insert, ite, lookup, none,
  refl, remove, some, str, subst, sym, true, ◌&&◌, ◌++◌, ◌||◌, ◌∷◌, ◌≡◌,
}
use xyzzy.Hub.{
  FanoutMessage, Message, RealtimeHub, RealtimeSubscription, access_revoked, discard_id, event,
  handle_queue_overflow, ids_in, put_nowait, revoke, room_event_payload, subscribe, unsubscribe,
}
use xyzzy.Hub.Delivery.{
  broadcast_room_event, broadcast_to_room, deliver, deliver_all, drop_all, drop_subscription,
  matching, publish_if, revoke_room_access, send_each, send_to_user, snapshot, tell_all,
  tell_revoked,
}
use xyzzy.Hub.Queues.{
  IsBounded, deliver_cases, force_resync-IsBounded, insert-IsBounded, put_nowait-IsBounded,
}
use xyzzy.Hub.Index.{IsIndexed, added-IsIndexed, dropped-IsIndexed, mark_warned-IsIndexed}

-- No queue is over its size, and the two views of the subscriptions agree.
pub record IsConsistent (hub : RealtimeHub) : Type 0 where
  pub bounded : IsBounded hub.queues
  pub indexed : IsIndexed hub.subscriptions hub.room_subscriptions

deliver-IsConsistent :
    (hub : RealtimeHub) (sub : RealtimeSubscription) (m : Message)
    → IsConsistent hub
    → IsConsistent (deliver hub sub m).0
unfolding handle_queue_overflow
deliver-IsConsistent hub sub m v = elim (deliver_cases hub sub m) [
  | inl (queues, took, e) ↦ rw e (record {
    bounded = put_nowait-IsBounded hub.queues sub.queue m v.bounded took;
    indexed = v.indexed;
  })
  | inr (took, e) ↦ rw e (record {
    bounded = force_resync-IsBounded hub.queues sub.queue v.bounded;
    indexed =
        mark_warned-IsIndexed hub.subscriptions hub.room_subscriptions sub.subscription_id
          v.indexed;
  })
]

deliver_all-IsConsistent :
    (hub : RealtimeHub) (m : Message) (subs : List RealtimeSubscription)
    → IsConsistent hub
    → IsConsistent (deliver_all hub m subs).0
unfolding deliver_all
deliver_all-IsConsistent hub m [] v = v
deliver_all-IsConsistent hub m (sub ∷ subs) v =
    deliver_all-IsConsistent (deliver hub sub m).0 m subs (deliver-IsConsistent hub sub m v)

send_each-IsConsistent :
    (hub : RealtimeHub) (user_id : String) (m : Message)
    (subs : List (String × RealtimeSubscription))
    → IsConsistent hub
    → IsConsistent (send_each hub user_id m subs).0
unfolding send_each
send_each-IsConsistent hub user_id m [] v = v
send_each-IsConsistent hub user_id m ((id, sub) ∷ rest) v =
    by_test (str sub.user_id user_id) (send_each-IsConsistent hub user_id m rest v) (
      send_each-IsConsistent (deliver hub sub m).0 user_id m rest
        (deliver-IsConsistent hub sub m v))
  where
    by_test :
        (d : Dec (sub.user_id ≡ user_id))
        → IsConsistent (send_each hub user_id m rest).0
        → IsConsistent (send_each (deliver hub sub m).0 user_id m rest).0
        → IsConsistent
            (ite d
              (
                (send_each (deliver hub sub m).0 user_id m rest).0,
                (deliver hub sub m).1 || (send_each (deliver hub sub m).0 user_id m rest).1,
              )
              (send_each hub user_id m rest)).0
    by_test (yes e) skipped taken = taken
    by_test (no ne) skipped taken = skipped

publish_if-IsConsistent :
    (publish : Bool) (m : FanoutMessage) (hub : RealtimeHub)
    → IsConsistent hub
    → IsConsistent (publish_if publish m hub)
unfolding publish_if
publish_if-IsConsistent publish m hub v = by_test (publish && hub.has_fanout)
  where
    by_test :
        (b : Bool)
        → IsConsistent (if b then record hub { published = hub.published ++ m ∷ [] } else hub)
    by_test true = record { bounded = v.bounded; indexed = v.indexed }
    by_test false = v

drop_all-queues :
    (room_id : String) (hub : RealtimeHub) (subs : List RealtimeSubscription)
    → (drop_all room_id hub subs).queues ≡ hub.queues
unfolding drop_all drop_subscription
drop_all-queues room_id hub [] = refl
drop_all-queues room_id hub (sub ∷ subs) =
    drop_all-queues room_id (drop_subscription room_id hub sub) subs

tell_revoked-IsBounded :
    (room_id : String) (hub : RealtimeHub) (sub : RealtimeSubscription)
    → IsBounded hub.queues
    → IsBounded (tell_revoked room_id hub sub).queues
unfolding tell_revoked handle_queue_overflow
tell_revoked-IsBounded room_id hub sub b =
    by_put (put_nowait hub.queues sub.queue (access_revoked room_id)) refl
  where
    by_put :
        (o : Option (List (String × List Message)))
        → put_nowait hub.queues sub.queue (access_revoked room_id) ≡ o
        → IsBounded
            (elim o as (λ _. RealtimeHub) [
              | some queues ↦ record hub { queues = queues }
              | none ↦ handle_queue_overflow hub sub
            ]).queues
    by_put (some queues) e = put_nowait-IsBounded hub.queues sub.queue (access_revoked room_id) b e
    by_put none e = force_resync-IsBounded hub.queues sub.queue b

tell_all-IsBounded :
    (room_id : String) (hub : RealtimeHub) (subs : List RealtimeSubscription)
    → IsBounded hub.queues
    → IsBounded (tell_all room_id hub subs).queues
unfolding tell_all
tell_all-IsBounded room_id hub [] b = b
tell_all-IsBounded room_id hub (sub ∷ subs) b =
    tell_all-IsBounded room_id (tell_revoked room_id hub sub) subs
      (tell_revoked-IsBounded room_id hub sub b)

publish_if-queues :
    (publish : Bool) (m : FanoutMessage) (hub : RealtimeHub)
    → (publish_if publish m hub).queues ≡ hub.queues
unfolding publish_if
publish_if-queues publish m hub = ground arith

pub revoke_room_access-IsConsistent :
    (hub : RealtimeHub) (user_id room_id : String) (publish : Bool)
    → IsConsistent hub
    → IsConsistent (revoke_room_access hub user_id room_id publish).0
unfolding revoke_room_access
revoke_room_access-IsConsistent hub user_id room_id publish v =
    let subs = matching user_id room_id hub.subscriptions in
    let dropped = drop_all room_id hub subs in
    let told = tell_all room_id dropped subs in
    record {
      bounded = subst IsBounded (sym (publish_if-queues publish (revoke room_id user_id) told)) (
          tell_all-IsBounded room_id dropped subs
            (subst IsBounded (sym (drop_all-queues room_id hub subs)) v.bounded));
      indexed = (revoke_room_access-IsIndexed hub user_id room_id publish v.indexed).0;
    }

pub subscribe-IsConsistent :
    (hub : RealtimeHub) (room_id user_id : String) (queue : Option String)
    (new_id new_queue : String)
    → lookup str new_id hub.subscriptions ≡ none
    → IsConsistent hub
    → IsConsistent (subscribe hub room_id user_id queue new_id new_queue).0
unfolding subscribe
subscribe-IsConsistent hub room_id user_id queue new_id new_queue fresh v =
    let sub = (subscribe hub room_id user_id queue new_id new_queue).1 in
    record {
      bounded = by_queue queue;
      indexed = added-IsIndexed hub.subscriptions hub.room_subscriptions sub v.indexed fresh;
    }
  where
    by_queue :
        (q : Option String)
        → IsBounded (elim q as (λ _. List (String × List Message)) [
          | none ↦ insert str new_queue [] hub.queues
          | some _ ↦ hub.queues
        ])
    by_queue none = insert-IsBounded hub.queues new_queue [] v.bounded (omega arith)
    by_queue (some _) = v.bounded

pub unsubscribe-IsConsistent :
    (hub : RealtimeHub) (id : String) → IsConsistent hub → IsConsistent (unsubscribe hub id)
unfolding unsubscribe
unsubscribe-IsConsistent hub id v = by_entry (lookup str id hub.subscriptions) refl
  where
    by_entry :
        (o : Option RealtimeSubscription)
        → lookup str id hub.subscriptions ≡ o
        → IsConsistent (elim o as (λ _. RealtimeHub) [
          | none ↦ hub
          | some sub ↦ record hub {
            subscriptions = remove str id hub.subscriptions;
            room_subscriptions = discard_id hub.room_subscriptions sub.room_id id;
          }
        ])
    by_entry none e = v
    by_entry (some sub) e = record {
      bounded = v.bounded;
      indexed =
          dropped-IsIndexed hub.subscriptions hub.room_subscriptions id sub.room_id v.indexed
            (λ s h. ground arith);
    }

pub broadcast-IsConsistent :
    (hub : RealtimeHub) (room_id : String) (e : Json)
    → IsConsistent hub
    → IsConsistent (broadcast_to_room hub room_id e).0
unfolding broadcast_to_room
broadcast-IsConsistent hub room_id e v =
    deliver_all-IsConsistent hub (event e)
      (snapshot hub.subscriptions (ids_in hub.room_subscriptions room_id)) v

pub broadcast_room_event-IsConsistent :
    (hub : RealtimeHub) (e : RoomEvent) (publish : Bool)
    → IsConsistent hub
    → IsConsistent (broadcast_room_event hub e publish).0
unfolding broadcast_room_event
broadcast_room_event-IsConsistent hub e publish v =
    publish_if-IsConsistent publish _ _
      (broadcast-IsConsistent hub e.event_room (room_event_payload e) v)

pub send_to_user-IsConsistent :
    (hub : RealtimeHub) (user_id : String) (e : Json) (publish : Bool)
    → IsConsistent hub
    → IsConsistent (send_to_user hub user_id e publish).0
unfolding send_to_user
send_to_user-IsConsistent hub user_id e publish v =
    publish_if-IsConsistent publish _ _
      (send_each-IsConsistent hub user_id (event e) hub.subscriptions v)
