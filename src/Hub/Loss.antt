-- ===== src/Hub/Loss.antt =====
-- What a broadcast leaves in the queues of a room's subscriptions.
use xyzzy.Json.{Json}
use xyzzy.Prelude.{
  All, Bool, List, String, [], arith, contains, false, if◌then◌else◌, inl, inr, ite, refl, str, sym,
  ◌++◌, ◌∙◌, ◌∷◌, ◌≡◌, ◌≢◌,
}
use xyzzy.Hub.{
  Message, RealtimeHub, RealtimeSubscription, event, handle_queue_overflow, ids_in, put_nowait,
  queue_of, resync,
}
use xyzzy.Hub.Delivery.{broadcast_to_room, deliver, deliver_all, snapshot}
use xyzzy.Hub.Queues.{
  IsBounded, deliver_cases, force_resync-IsBounded, force_resync_lem, put_nowait-IsBounded,
  queue_of-insert, without_oldest,
}

-- A queue after a delivery: the message is its last entry, or `resync` is.
abbrev pub after_delivery : Bool → Message → List Message → List Message
after_delivery taken m ms = if taken then ms ++ m ∷ [] else without_oldest ms ++ resync ∷ []

deliver-queue :
    (hub : RealtimeHub) (sub : RealtimeSubscription) (m : Message) (j : String)
    → IsBounded hub.queues
    → queue_of (deliver hub sub m).0.queues j
      ≡ ite
          (str j sub.queue)
          (after_delivery (deliver hub sub m).1 m (queue_of hub.queues sub.queue))
          (queue_of hub.queues j)
unfolding put_nowait handle_queue_overflow
deliver-queue hub sub m j b =
    let full = force_resync_lem hub.queues sub.queue b j in
    let put = queue_of-insert hub.queues sub.queue j (queue_of hub.queues sub.queue ++ m ∷ []) in
    elim (deliver_cases hub sub m) [
      | inl (queues, took, e) ↦ rw e (ground arith)
      | inr (took, e) ↦ rw e (ground arith)
    ]

pub deliver-IsBounded :
    (hub : RealtimeHub) (sub : RealtimeSubscription) (m : Message)
    → IsBounded hub.queues
    → IsBounded (deliver hub sub m).0.queues
unfolding handle_queue_overflow
deliver-IsBounded hub sub m b = elim (deliver_cases hub sub m) [
  | inl (queues, took, e) ↦ rw e (put_nowait-IsBounded hub.queues sub.queue m b took)
  | inr (took, e) ↦ rw e (force_resync-IsBounded hub.queues sub.queue b)
]

pub deliver_all-IsBounded :
    (hub : RealtimeHub) (m : Message) (subs : List RealtimeSubscription)
    → IsBounded hub.queues
    → IsBounded (deliver_all hub m subs).0.queues
unfolding deliver_all
deliver_all-IsBounded hub m [] b = b
deliver_all-IsBounded hub m (sub ∷ subs) b =
    deliver_all-IsBounded (deliver hub sub m).0 m subs (deliver-IsBounded hub sub m b)

-- Each subscription has an id and a queue of its own.
abbrev pub Apart : List RealtimeSubscription → Type 0
Apart [] = Unit {0}
Apart (sub ∷ subs) =
    All (λ s. (s.queue ≢ sub.queue) × (s.subscription_id ≢ sub.subscription_id)) subs × Apart subs

-- A queue that no later subscription has is left alone.
untouched :
    (hub : RealtimeHub) (m : Message) (j : String) (subs : List RealtimeSubscription)
    → IsBounded hub.queues
    → All (λ s. s.queue ≢ j) subs
    → queue_of (deliver_all hub m subs).0.queues j ≡ queue_of hub.queues j
unfolding deliver_all
untouched hub m j [] b n = refl
untouched hub m j (sub ∷ subs) b n =
    untouched (deliver hub sub m).0 m j subs (deliver-IsBounded hub sub m b) n.1
    ∙ ground (arith, deliver-queue hub sub m j b)

absent :
    (hub : RealtimeHub) (m : Message) (id : String) (subs : List RealtimeSubscription)
    → All (λ s. s.subscription_id ≢ id) subs
    → contains str id (deliver_all hub m subs).1 ≡ false
unfolding deliver_all contains
absent hub m id [] n = refl
absent hub m id (sub ∷ subs) n =
    let ne : id ≢ sub.subscription_id = λ e. n.0 (sym e) in
    ground (arith, absent (deliver hub sub m).0 m id subs n.1)

-- Every subscription's queue is as its delivery, told by the returned ids, must leave it.
abbrev pub Told : RealtimeHub → Message → RealtimeHub × List String → RealtimeSubscription → Type 0
Told hub m r s =
    queue_of r.0.queues s.queue
    ≡ after_delivery (contains str s.subscription_id r.1) m (queue_of hub.queues s.queue)

All-both {ℓ} :
    {P Q R : RealtimeSubscription → Type ℓ} (subs : List RealtimeSubscription)
    → ((s : RealtimeSubscription) → P s → Q s → R s)
    → All P subs
    → All Q subs
    → All R subs
All-both [] f p q = tt
All-both (s ∷ subs) f p q = (f s p.0 q.0, All-both subs f p.1 q.1)

All-map {ℓ} :
    {P R : RealtimeSubscription → Type ℓ} (subs : List RealtimeSubscription)
    → ((s : RealtimeSubscription) → P s → R s)
    → All P subs
    → All R subs
All-map [] f p = tt
All-map (s ∷ subs) f p = (f s p.0, All-map subs f p.1)

Told-later :
    (hub : RealtimeHub) (m : Message) (sub : RealtimeSubscription)
    (subs : List RealtimeSubscription) (s : RealtimeSubscription)
    → IsBounded hub.queues
    → (s.queue ≢ sub.queue) × (s.subscription_id ≢ sub.subscription_id)
    → Told (deliver hub sub m).0 m (deliver_all (deliver hub sub m).0 m subs) s
    → Told hub m (deliver_all hub m (sub ∷ subs)) s
unfolding deliver_all contains
Told-later hub m sub subs s b n t = let kept = deliver-queue hub sub m s.queue b in ground arith

deliver_all-Told :
    (hub : RealtimeHub) (m : Message) (subs : List RealtimeSubscription)
    → IsBounded hub.queues
    → Apart subs
    → All (Told hub m (deliver_all hub m subs)) subs
unfolding deliver_all contains
deliver_all-Told hub m [] b a = tt
deliver_all-Told hub m (sub ∷ subs) b a =
    let hub₁ = (deliver hub sub m).0 in
    let b₁ = deliver-IsBounded hub sub m b in
    let kept = untouched hub₁ m sub.queue subs b₁ (All-map subs (λ s n. n.0) a.0) in
    let gone = absent hub₁ m sub.subscription_id subs (All-map subs (λ s n. n.1) a.0) in
    let now = deliver-queue hub sub m sub.queue b in
    (
      ground arith,
      All-both subs (λ s n t. Told-later hub m sub subs s b n t) a.0
          (deliver_all-Told hub₁ m subs b₁ a.1),
    )

-- No broadcast is lost in silence: where no queue is over its size and the room's subscriptions
-- have an id and a queue each, every subscription of the room whose id the broadcast returns finds
-- the event at the end of its queue after all it held, and every other one finds a `resync` there
-- in place of its oldest entry; and no queue is over its size afterwards.
pub broadcast_to_room-Told :
    (hub : RealtimeHub) (room_id : String) (e : Json)
    → IsBounded hub.queues
    → Apart (snapshot hub.subscriptions (ids_in hub.room_subscriptions room_id))
    → All
        (Told hub (event e) (broadcast_to_room hub room_id e))
        (snapshot hub.subscriptions (ids_in hub.room_subscriptions room_id))
      × IsBounded (broadcast_to_room hub room_id e).0.queues
unfolding broadcast_to_room
broadcast_to_room-Told hub room_id e b a =
    let subs = snapshot hub.subscriptions (ids_in hub.room_subscriptions room_id) in
    (deliver_all-Told hub (event e) subs b a, deliver_all-IsBounded hub (event e) subs b)
