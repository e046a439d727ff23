-- ===== src/Hub.antt =====
-- The realtime hub: subscriptions, the index of a room's subscriptions and the bounded queues that
-- sockets drain (src/multiplayer/realtime/hub.py). Subscriptions of one socket may share a queue, so
-- queues stand in a store and a subscription names its own. The lock makes each operation one step:
-- nothing between taking it and the last delivery waits. `new_id()` and a new queue's name are
-- arguments; a set of ids is listed in the order of its additions; log lines are left out.
pub mod Delivery
pub mod Fanout
pub mod Index
pub mod Queues
pub mod Revocation
pub mod Loss
pub mod Consistency
pub mod Reach
pub mod Replay
pub mod Silence
use xyzzy.Json.{Fields, Json}
use xyzzy.Events.{RoomEvent}
use xyzzy.Prelude.{
  Bool, List, Option, String, [], contains, false, if◌then◌else◌, insert, ite, keep, leb, length,
  lookup, none, remove, some, str, true, ℕ, ◌++◌, ◌+◌, ◌∷◌,
}

pub data Message : Type 0 where
  event : Json → Message
  access_revoked : String → Message
  resync : Message

pub record RealtimeSubscription : Type 0 where
  pub subscription_id : String
  pub room_id : String
  pub user_id : String
  pub queue : String
  pub overflow_warned : Bool
  pub backfilled_through : List (String × ℕ)

-- What the hub hands to its transport.
pub data FanoutMessage : Type 0 where
  room_event : String → Json → FanoutMessage
  revoke : String → String → FanoutMessage
  send : String → Json → FanoutMessage

pub record RealtimeHub : Type 0 where
  pub subscriptions : List (String × RealtimeSubscription)
  pub room_subscriptions : List (String × List String)
  pub queues : List (String × List Message)
  pub has_fanout : Bool
  pub published : List FanoutMessage  -- handed to the transport so far
  pub overflow_metric : Option ℕ  -- the metrics' counter, where metrics are wired

-- The hub as it is constructed.
unfoldable pub new_hub : Bool → Option ℕ → RealtimeHub
new_hub has_fanout overflow_metric = record {
  subscriptions = [];
  room_subscriptions = [];
  queues = [];
  has_fanout = has_fanout;
  published = [];
  overflow_metric = overflow_metric;
}

unfoldable pub room_event_payload : RoomEvent → Json
room_event_payload e = Json.object (
    Fields.field "type" (Json.text "room_event") (
      Fields.field "event_type" (Json.text e.kind) (
        Fields.field "sequence" (Json.number e.event_sequence) (
          Fields.field "room_id" (Json.text e.event_room) (
            Fields.field "payload" e.body (
              Fields.field "actor_id" (Json.text e.actor) (
                Fields.field "actor_type" (Json.text e.actor_kind) (
                  Fields.field "timestamp" (Json.text e.at)
                    (Fields.field "event_id" (Json.text e.id) Fields.end)))))))))

-- `asyncio.Queue(maxsize=256)`
abbrev pub maxsize : ℕ
maxsize = 256

abbrev pub listed {ℓ} : {A : Type ℓ} → Option (List A) → List A
listed none = []
listed (some xs) = xs

unfoldable pub queue_of : List (String × List Message) → String → List Message
queue_of queues q = listed (lookup str q queues)

unfoldable pub is_full : List (String × List Message) → String → Bool
unfolding queue_of
is_full queues q = leb maxsize (length (queue_of queues q))

-- `none` where it raises `QueueFull`
unfoldable pub put_nowait :
    List (String × List Message) → String → Message → Option (List (String × List Message))
unfolding is_full queue_of
put_nowait queues q m =
    if is_full queues q then none else some (insert str q (queue_of queues q ++ m ∷ []) queues)

-- The queues without the oldest entry; `none` where it raises `QueueEmpty`
unfoldable pub get_nowait :
    List (String × List Message) → String → Option (List (String × List Message))
unfolding queue_of
get_nowait queues q = elim (queue_of queues q) [
  | [] ↦ none
  | _ ∷ rest ↦ some (insert str q rest queues)
]

-- `with suppress(…)`
abbrev pub suppress {ℓ} : {A : Type ℓ} → A → Option A → A
suppress before none = before
suppress before (some after) = after

-- The oldest entry makes room for a `resync`.
unfoldable pub force_resync : List (String × List Message) → String → List (String × List Message)
unfolding get_nowait put_nowait
force_resync queues q =
    let dropped = suppress queues (get_nowait queues q) in
    suppress dropped (put_nowait dropped q resync)

-- The subscription's flag, where the hub still holds it.
unfoldable pub mark_warned :
    List (String × RealtimeSubscription) → String → List (String × RealtimeSubscription)
mark_warned subscriptions id = elim (lookup str id subscriptions) [
  | none ↦ subscriptions
  | some sub ↦ insert str id (record sub { overflow_warned = true }) subscriptions
]

abbrev pub counted : Option ℕ → Option ℕ
counted none = none
counted (some n) = some (n + 1)

unfoldable pub handle_queue_overflow : RealtimeHub → RealtimeSubscription → RealtimeHub
unfolding mark_warned force_resync
handle_queue_overflow hub sub = record hub {
  overflow_metric = counted hub.overflow_metric;
  subscriptions = mark_warned hub.subscriptions sub.subscription_id;
  queues = force_resync hub.queues sub.queue;
}

unfoldable pub ids_in : List (String × List String) → String → List String
ids_in index room_id = listed (lookup str room_id index)

-- `index[room_id].add(id)` and `index[room_id].discard(id)`
unfoldable pub add_id : List (String × List String) → String → String → List (String × List String)
unfolding ids_in
add_id index room_id id =
    let ids = ids_in index room_id in
    insert str room_id (if contains str id ids then ids else ids ++ id ∷ []) index

unfoldable pub discard_id :
    List (String × List String) → String → String → List (String × List String)
unfolding ids_in
discard_id index room_id id =
    insert str room_id (keep (λ j. ite (str j id) false true) (ids_in index room_id)) index

-- With no queue given, the subscription gets a new one.
unfoldable pub subscribe :
    RealtimeHub
    → String
    → String
    → Option String
    → String
    → String
    → RealtimeHub × RealtimeSubscription
unfolding add_id
subscribe hub room_id user_id queue new_id new_queue =
    let name : String = elim queue [ none ↦ new_queue | some q ↦ q ] in
    let sub : RealtimeSubscription = record {
      subscription_id = new_id;
      room_id = room_id;
      user_id = user_id;
      queue = name;
      overflow_warned = false;
      backfilled_through = [];
    } in
    (
      record hub {
        subscriptions = insert str new_id sub hub.subscriptions;
        room_subscriptions = add_id hub.room_subscriptions room_id new_id;
        queues = elim queue [ none ↦ insert str new_queue [] hub.queues | some _ ↦ hub.queues ];
      },
      sub,
    )

unfoldable pub unsubscribe : RealtimeHub → String → RealtimeHub
unfolding discard_id
unsubscribe hub id = elim (lookup str id hub.subscriptions) [
  | none ↦ hub
  | some sub ↦ record hub {
    subscriptions = remove str id hub.subscriptions;
    room_subscriptions = discard_id hub.room_subscriptions sub.room_id id;
  }
]

unfoldable pub get_subscription : RealtimeHub → String → Option RealtimeSubscription
get_subscription hub id = lookup str id hub.subscriptions
