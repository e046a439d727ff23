-- ===== src/Hub/Revocation.antt =====
-- What a revocation of a user's access to a room does to the subscriptions.
use xyzzy.Prelude.{
  Bool, List, Option, String, [], ap, arith, contains, false, if◌then◌else◌, ite, lookup,
  lookup-remove, none, refl, some, str, subst, subst₂, sym, true, ◌∙◌, ◌∷◌, ◌≡◌, ◌≢◌,
}
use xyzzy.Hub.{
  FanoutMessage, Message, RealtimeHub, RealtimeSubscription, access_revoked, get_subscription,
  handle_queue_overflow, mark_warned, put_nowait, revoke,
}
use xyzzy.Hub.Delivery.{
  drop_all, drop_subscription, matching, publish_if, revoke_room_access, tell_all, tell_revoked,
}
use xyzzy.Hub.Index.{IsIndexed, Keyed, dropped-IsIndexed}

abbrev ids_of : List RealtimeSubscription → List String
ids_of [] = []
ids_of (sub ∷ subs) = sub.subscription_id ∷ ids_of subs

-- Whether an entry is one of a user's subscriptions to a room.
abbrev pub concerns : String → String → Option RealtimeSubscription → Bool
concerns user_id room_id none = false
concerns user_id room_id (some sub) =
    ite (str sub.user_id user_id) (ite (str sub.room_id room_id) true false) false

matching-ids :
    (user_id room_id j : String) (subs : List (String × RealtimeSubscription))
    → Keyed subs
    → contains str j (ids_of (matching user_id room_id subs))
      ≡ concerns user_id room_id (lookup str j subs)
unfolding matching contains lookup
matching-ids user_id room_id j [] k = refl
matching-ids user_id room_id j ((id, sub) ∷ rest) k =
    let later = matching-ids user_id room_id j rest k.2 in
    elim (str j id) [
      | yes e ↦
          let gone : lookup str j rest ≡ none = subst (λ i. lookup str i rest ≡ none) (sym e) k.1 in
          let mine : j ≡ sub.subscription_id = e ∙ sym k.0 in ground arith
      | no ne ↦ let other : j ≢ sub.subscription_id = λ q. ne (q ∙ k.0) in ground arith
    ]

drop_all-lookup :
    (room_id j : String) (hub : RealtimeHub) (subs : List RealtimeSubscription)
    → lookup str j (drop_all room_id hub subs).subscriptions
      ≡ (if contains str j (ids_of subs) then none else lookup str j hub.subscriptions)
unfolding drop_all drop_subscription contains
drop_all-lookup room_id j hub [] = refl
drop_all-lookup room_id j hub (sub ∷ subs) = ground (
  arith,
  drop_all-lookup room_id j (drop_subscription room_id hub sub) subs,
  lookup-remove str sub.subscription_id j hub.subscriptions,
)

-- The subscriptions to be dropped have, where the hub still holds them, the room given.
abbrev In : String → List (String × RealtimeSubscription) → RealtimeSubscription → Type 0
In room_id subs sub =
    (s : RealtimeSubscription) → lookup str sub.subscription_id subs ≡ some s → s.room_id ≡ room_id

drop_all-IsIndexed :
    (room_id : String) (hub : RealtimeHub) (subs : List RealtimeSubscription)
    → IsIndexed hub.subscriptions hub.room_subscriptions
    → ((j : String)
        → contains str j (ids_of subs) ≡ true
        → (s : RealtimeSubscription) → lookup str j hub.subscriptions ≡ some s
        → s.room_id ≡ room_id)
    → (let hub' = drop_all room_id hub subs in IsIndexed hub'.subscriptions hub'.room_subscriptions)
unfolding drop_all drop_subscription contains
drop_all-IsIndexed room_id hub [] v own = v
drop_all-IsIndexed room_id hub (sub ∷ subs) v own =
    let id = sub.subscription_id in
    drop_all-IsIndexed room_id (drop_subscription room_id hub sub) subs
      (dropped-IsIndexed hub.subscriptions hub.room_subscriptions id room_id v
        (own id (ground arith)))
      (λ j m s h.
        let found = lookup-remove str id j hub.subscriptions in
        own j (ground arith) s (ground arith))

mark_warned-none :
    (subs : List (String × RealtimeSubscription)) (id : String)
    → lookup str id subs ≡ none
    → mark_warned subs id ≡ subs
unfolding mark_warned
mark_warned-none subs id h = ground arith

-- Telling subscriptions that the hub has dropped leaves its two views alone.
tell_all-views :
    (room_id : String) (hub : RealtimeHub) (subs : List RealtimeSubscription)
    → ((j : String) → contains str j (ids_of subs) ≡ true → lookup str j hub.subscriptions ≡ none)
    → ((tell_all room_id hub subs).subscriptions ≡ hub.subscriptions)
      × ((tell_all room_id hub subs).room_subscriptions ≡ hub.room_subscriptions)
unfolding tell_all tell_revoked handle_queue_overflow contains
tell_all-views room_id hub [] gone = (refl, refl)
tell_all-views room_id hub (sub ∷ subs) gone =
    let same : (tell_revoked room_id hub sub).subscriptions ≡ hub.subscriptions =
      by_put (put_nowait hub.queues sub.queue (access_revoked room_id)) in
    let index : (tell_revoked room_id hub sub).room_subscriptions ≡ hub.room_subscriptions =
      ground arith in
    let (s, i) =
      tell_all-views room_id (tell_revoked room_id hub sub) subs
        (λ j m. rw same (gone j (ground arith))) in
    (s ∙ same, i ∙ index)
  where
    by_put :
        (o : Option (List (String × List Message)))
        → (elim o as (λ _. RealtimeHub) [
          | some queues ↦ record hub { queues = queues }
          | none ↦ handle_queue_overflow hub sub
        ]).subscriptions
          ≡ hub.subscriptions
    by_put (some queues) = refl
    by_put none =
        mark_warned-none hub.subscriptions sub.subscription_id
          (gone sub.subscription_id (ground arith))

publish_if-views :
    (publish : Bool) (m : FanoutMessage) (hub : RealtimeHub)
    → ((publish_if publish m hub).subscriptions ≡ hub.subscriptions)
      × ((publish_if publish m hub).room_subscriptions ≡ hub.room_subscriptions)
unfolding publish_if
publish_if-views publish m hub = (ground arith, ground arith)

-- A revocation takes from a hub whose views agree exactly the user's subscriptions to the room: by
-- each id the hub then finds nothing where it held one of those, and else what it found before;
-- and its views agree again.
pub revoke_room_access-IsIndexed :
    (hub : RealtimeHub) (user_id room_id : String) (publish : Bool)
    → IsIndexed hub.subscriptions hub.room_subscriptions
    → (let hub' = (revoke_room_access hub user_id room_id publish).0 in
        IsIndexed hub'.subscriptions hub'.room_subscriptions
        × ((id : String)
            → get_subscription hub' id ≡ (
                if concerns user_id room_id (get_subscription hub id)
                then none
                else get_subscription hub id)))
unfolding revoke_room_access get_subscription
revoke_room_access-IsIndexed hub user_id room_id publish v =
    let subs = matching user_id room_id hub.subscriptions in
    let dropped = drop_all room_id hub subs in
    let told = tell_all room_id dropped subs in
    let named = λ (j : String). matching-ids user_id room_id j hub.subscriptions v.keyed in
    let (s, i) =
      tell_all-views room_id dropped subs
        (λ j m. drop_all-lookup room_id j hub subs ∙ (rw m refl)) in
    let (s', i') = publish_if-views publish (revoke room_id user_id) told in
    let kept = drop_all-IsIndexed room_id hub subs v (λ j m s h. let e = named j in ground arith) in
    (
      subst₂ IsIndexed (sym (s' ∙ s)) (sym (i' ∙ i)) kept,
      λ id.
          ap (lookup str id) (s' ∙ s) ∙ (drop_all-lookup room_id id hub subs ∙ rw (named id) refl),
    )
