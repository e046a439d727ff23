-- ===== src/Hub/Queues.antt =====
-- What a put, an overflow and a delivery do to the queues.
use xyzzy.Hub.Delivery.{deliver}
use xyzzy.Prelude.{
  List, String, [], arith, false, insert, ite, length, length-append, lookup-insert, none, refl,
  some, str, subst, true, ◌++◌, ◌∷◌, ◌≡◌, ◌≤◌, ◌⊎◌,
}
use xyzzy.Hub.{
  Message, RealtimeHub, RealtimeSubscription, force_resync, get_nowait, handle_queue_overflow,
  is_full, maxsize, put_nowait, queue_of, resync,
}

pub queue_of-insert :
    (queues : List (String × List Message)) (q j : String) (ms : List Message)
    → queue_of (insert str q ms queues) j ≡ ite (str j q) ms (queue_of queues j)
unfolding queue_of
queue_of-insert queues q j ms = ground (arith, lookup-insert str q j ms queues)

-- No queue of the store holds more than its size.
abbrev pub IsBounded : List (String × List Message) → Type 0
IsBounded queues = (q : String) → length (queue_of queues q) ≤ maxsize

pub insert-IsBounded :
    (queues : List (String × List Message)) (q : String) (ms : List Message)
    → IsBounded queues
    → length ms ≤ maxsize
    → IsBounded (insert str q ms queues)
insert-IsBounded queues q ms b h j = ground (arith, queue_of-insert queues q j ms, b j)

-- A queue's entries after the oldest.
abbrev pub without_oldest : List Message → List Message
without_oldest [] = []
without_oldest (_ ∷ rest) = rest

-- In a store within bounds an overflow drops the oldest entry of one queue and ends it with a
-- `resync`.
pub force_resync_lem :
    (queues : List (String × List Message)) (q : String)
    → IsBounded queues
    → (j : String)
    → queue_of (force_resync queues q) j
      ≡ ite (str j q) (without_oldest (queue_of queues q) ++ resync ∷ []) (queue_of queues j)
unfolding force_resync get_nowait put_nowait is_full
force_resync_lem queues q b j = by_queue (queue_of queues q) refl
  where
    by_queue :
        (ms : List Message)
        → queue_of queues q ≡ ms
        → queue_of (force_resync queues q) j
          ≡ ite (str j q) (without_oldest (queue_of queues q) ++ resync ∷ []) (queue_of queues j)
    by_queue [] e = ground (arith, queue_of-insert queues q j (resync ∷ []))
    by_queue (m ∷ ms) e =
        let held = queue_of-insert queues q q ms in
        let kept = queue_of-insert queues q j ms in
        let put = queue_of-insert (insert str q ms queues) q j (ms ++ resync ∷ []) in
        ground (arith, b q)

pub force_resync-IsBounded :
    (queues : List (String × List Message)) (q : String)
    → IsBounded queues
    → IsBounded (force_resync queues q)
force_resync-IsBounded queues q b j =
    let lengths = length-append {0} (without_oldest (queue_of queues q)) (resync ∷ []) in
    ground (arith, force_resync_lem queues q b j, b j, b q)

pub put_nowait-IsBounded :
    (queues : List (String × List Message)) (q : String) (m : Message)
    {queues' : List (String × List Message)}
    → IsBounded queues
    → put_nowait queues q m ≡ some queues'
    → IsBounded queues'
unfolding put_nowait is_full
put_nowait-IsBounded queues q m {queues'} b h =
    let lengths = length-append {0} (queue_of queues q) (m ∷ []) in
    let room : length (queue_of queues q ++ m ∷ []) ≤ maxsize = ground arith in
    let same : insert str q (queue_of queues q ++ m ∷ []) queues ≡ queues' = ground arith in
    subst IsBounded same (insert-IsBounded queues q (queue_of queues q ++ m ∷ []) b room)

-- What one delivery comes to: the queue had room and took the message, or it was full and the
-- overflow was handled.
pub deliver_cases :
    (hub : RealtimeHub) (sub : RealtimeSubscription) (m : Message)
    → ((queues : List (String × List Message)) × (put_nowait hub.queues sub.queue m ≡ some queues)
        × (deliver hub sub m ≡ (record hub { queues = queues }, true)))
      ⊎ ((put_nowait hub.queues sub.queue m ≡ none)
          × (deliver hub sub m ≡ (handle_queue_overflow hub sub, false)))
unfolding deliver put_nowait
deliver_cases hub sub m = ground arith
