-- ===== src/Tests/Sockets.antt =====
-- The hub's theorems on a hub with two sockets in one room.
use xyzzy.Json.{Json}
use xyzzy.Prelude.{
  All, Option, String, arith, contains, false, if◌then◌else◌, insert, ite, lookup, none, refl, some,
  str, true, ◌≡◌, ◌≢◌,
}
use xyzzy.Hub.{RealtimeHub, add_id, event, get_subscription, ids_in, new_hub, revoke, subscribe}
use xyzzy.Hub.Delivery.{broadcast_to_room, revoke_room_access, snapshot}
use xyzzy.Hub.Fanout.{delay_after, handle_message, wire}
use xyzzy.Hub.Queues.{IsBounded}
use xyzzy.Hub.Index.{IsIndexed}
use xyzzy.Hub.Loss.{Apart, Told, broadcast_to_room-Told}
use xyzzy.Hub.Revocation.{concerns, revoke_room_access-IsIndexed}
use xyzzy.Hub.Consistency.{IsConsistent}
use xyzzy.Hub.Reach.{reachable-IsConsistent, start, subscribed, then_by, ◌⇒*◌}
use xyzzy.Hub.Replay.{handle_message-wire, remote}
use xyzzy.Hub.Silence.{delay_after_lem, handle_message-published}

abbrev one_socket : RealtimeHub
one_socket = (subscribe (new_hub true none) "r1" "u1" none "s1" "q1").0

abbrev two_sockets : RealtimeHub
two_sockets = (subscribe one_socket "r1" "u2" none "s2" "q2").0

two_run : new_hub true none ⇒* two_sockets
unfolding subscribe lookup str insert new_hub
two_run =
    then_by (then_by start (subscribed "r1" "u1" none "s1" "q1" refl))
      (subscribed "r1" "u2" none "s2" "q2" refl)

two_IsConsistent : IsConsistent two_sockets
two_IsConsistent = reachable-IsConsistent true none two_run

reachable-IsConsistent_example : IsConsistent two_sockets
reachable-IsConsistent_example = reachable-IsConsistent true none {hub = two_sockets} two_run

different : (a b : String) → ite (str a b) true false ≡ false → a ≢ b
different a b h e = ground arith

two_Apart : Apart (snapshot two_sockets.subscriptions (ids_in two_sockets.room_subscriptions "r1"))
unfolding snapshot subscribe new_hub lookup str insert ids_in add_id contains
two_Apart = (((different _ _ refl, different _ _ refl), tt), (tt, tt))

broadcast_to_room-Told_example :
    All
      (Told two_sockets (event Json.null) (broadcast_to_room two_sockets "r1" Json.null))
      (snapshot two_sockets.subscriptions (ids_in two_sockets.room_subscriptions "r1"))
    × IsBounded (broadcast_to_room two_sockets "r1" Json.null).0.queues
broadcast_to_room-Told_example =
    broadcast_to_room-Told two_sockets "r1" Json.null two_IsConsistent.bounded two_Apart

revoke_room_access-IsIndexed_example :
    (let hub' = (revoke_room_access two_sockets "u1" "r1" true).0 in
      IsIndexed hub'.subscriptions hub'.room_subscriptions
      × ((id : String)
          → get_subscription hub' id ≡ (
              if concerns "u1" "r1" (get_subscription two_sockets id)
              then none
              else get_subscription two_sockets id)))
revoke_room_access-IsIndexed_example =
    revoke_room_access-IsIndexed two_sockets "u1" "r1" true two_IsConsistent.indexed

-- A parser that reads one text.
abbrev one_message : String → Option Json
one_message _ = some (Json.object (wire "p1" (revoke "r1" "u1")))

handle_message-wire_example :
    handle_message one_message "p2" two_sockets (some "{}")
    ≡ ite (str "p1" "p2") two_sockets (remote two_sockets (revoke "r1" "u1"))
handle_message-wire_example =
    handle_message-wire one_message "{}" "p1" "p2" (revoke "r1" "u1") two_sockets refl
      (different _ _ (unfold str in refl), different _ _ (unfold str in refl))

handle_message-published_example :
    (handle_message one_message "p2" two_sockets (some "{}")).published ≡ two_sockets.published
handle_message-published_example = handle_message-published one_message "p2" two_sockets (some "{}")

delay_after_lem_example : delay_after 7 ≡ 60
delay_after_lem_example = delay_after_lem 7
