-- ===== src/Run/Turns.antt =====
-- The locks on the rooms' turns: the table that the operations keep.
use xyzzy.Prelude.{
  Bool, Bool-cases, List, Option, String, [], ap, arith, false, inl, inr, insert, ite, lookup,
  lookup-insert_all, lookup-insert_ne, lookup-insert_self, lookup-update_all, map_found, none, ok,
  refl, some, str, subst, subst₂, sym, true, update_all, updated, ℕ, ◌∙◌, ◌∷◌, ◌≡◌, ◌≢◌, ◌⊎◌,
}
use mathlib.Core.Option.{some-injective}
use xyzzy.Run.{RunRows, TurnLock}
use xyzzy.Run.Branches.{
  active_lock_of, create_lock, get_active, holds, in_scope, is_active, released_lock,
}

-- Where the rows' keys are unique.
abbrev pub Keyed : {V : Type 0} → List (String × V) → Type 0
Keyed [] = Unit
Keyed ((k, v) ∷ d) = (lookup str k d ≡ none) × Keyed d

abbrev pub active_in : String → Option TurnLock → Bool
active_in branch_id none = false
active_in branch_id (some lock) = holds branch_id lock

-- Where no row is found, no lock of the branch is active.
pub no_active_lock :
    (branch_id : String) (locks : List (String × TurnLock))
    → active_lock_of branch_id locks ≡ none
    → (k : String) → active_in branch_id (lookup str k locks) ≡ false
unfolding active_lock_of lookup
no_active_lock branch_id [] h k = refl
no_active_lock branch_id ((j, lock) ∷ locks) h k =
    let later =
      λ (h' : active_lock_of branch_id locks ≡ none). no_active_lock branch_id locks h' k in
    ground arith

pub found_lock :
    (branch_id lock_id : String) (locks : List (String × TurnLock))
    → Keyed locks
    → active_lock_of branch_id locks ≡ some lock_id
    → active_in branch_id (lookup str lock_id locks) ≡ true
unfolding active_lock_of lookup
found_lock branch_id lock_id [] u h = cc
found_lock branch_id lock_id ((j, lock) ∷ locks) u h = elim (Bool-cases (holds branch_id lock)) [
  | inl e ↦ let same : j ≡ lock_id = ground arith in ground arith
  | inr n ↦
      let h' : active_lock_of branch_id locks ≡ some lock_id = ground arith in
      let ih = found_lock branch_id lock_id locks u.1 h' in
      elim (str lock_id j) [
        | yes e ↦
            let gone : active_in branch_id (lookup str j locks) ≡ true =
              subst (λ k. active_in branch_id (lookup str k locks) ≡ true) e ih in
            ground (arith, u.0)
        | no ne ↦ ground arith
      ]
]

Keyed-insert :
    {V : Type 0} (k : String) (v : V) (d : List (String × V)) → Keyed d → Keyed (insert str k v d)
unfolding insert lookup
Keyed-insert k v [] u = (refl, tt)
Keyed-insert k v ((j, w) ∷ d) u = by_key (str k j) (Keyed-insert k v d u.1)
  where
    by_key :
        (c : Dec (k ≡ j))
        → Keyed (insert str k v d)
        → Keyed (ite c ((k, v) ∷ d) ((j, w) ∷ insert str k v d))
    by_key (yes e) later = (rw e u.0, u.1)
    by_key (no ne) later = (lookup-insert_ne str k j v d (λ e. ne (sym e)) ∙ u.0, later)

Keyed-update_all :
    {V : Type 0} (p : String → V → Bool) (f : V → V) (d : List (String × V))
    → Keyed d
    → Keyed (update_all p f d)
Keyed-update_all p f [] u = u
Keyed-update_all p f ((k, v) ∷ d) u = (
  lookup-update_all str p f k d ∙ ap (map_found (λ w. updated (p k w) f w)) u.0,
  Keyed-update_all p f d u.1,
)

-- Where the room has no active lock, every lock of it is released.
no_active_in :
    (room_id : String) (locks : List (String × TurnLock))
    → get_active locks room_id ≡ none
    → (k : String) (a : TurnLock) → lookup str k locks ≡ some a
    → is_active a ≡ true
    → a.scope_id ≢ room_id
unfolding get_active lookup
no_active_in room_id [] h k a hit on e = cc
no_active_in room_id ((j, lock) ∷ locks) h k a hit on e =
    let later = λ (h' : get_active locks room_id ≡ none) (hit' : lookup str k locks ≡ some a).
      no_active_in room_id locks h' k a hit' on e in
    ground arith

-- One row to a key, one active lock to a room, each on a branch of its room.
pub record IsLockTable (db : RunRows) : Type 0 where
  pub keyed : Keyed db.turn_locks
  pub one_active :
      (j k : String) (a b : TurnLock)
      → lookup str j db.turn_locks ≡ some a
      → lookup str k db.turn_locks ≡ some b
      → is_active a ≡ true
      → is_active b ≡ true
      → a.scope_id ≡ b.scope_id
      → j ≡ k
  pub in_room :
      (k : String) (a : TurnLock)
      → lookup str k db.turn_locks ≡ some a
      → in_scope (lookup str a.branch_id db.branches) a.scope_id ≡ true

stored_lock :
    (id j : String) (lock a : TurnLock) (locks : List (String × TurnLock))
    → lookup str j (insert str id lock locks) ≡ some a
    → ((j ≡ id) × (a ≡ lock)) ⊎ (lookup str j locks ≡ some a)
stored_lock id j lock a locks hit = elim (str j id) [
  | yes e ↦ inl (
    e,
    some-injective a lock (
        sym hit
        ∙ (ap (λ i. lookup str i (insert str id lock locks)) e
            ∙ lookup-insert_self str id lock locks)),
  )
  | no ne ↦ inr (sym (lookup-insert_ne str id j lock locks ne) ∙ hit)
]

-- A lock of the new table is one of the old table, released or as it was.
record WasLock (locks : List (String × TurnLock)) (k : String) (a : TurnLock) : Type 0 where
  old : TurnLock
  found : lookup str k locks ≡ some old
  same_scope : old.scope_id ≡ a.scope_id
  same_branch : old.branch_id ≡ a.branch_id
  was_active : is_active a ≡ true → is_active old ≡ true

was_lock :
    (p : String → TurnLock → Bool) (reason : String) (now : ℕ) (locks : List (String × TurnLock))
    (k : String) (a : TurnLock)
    → lookup str k (update_all p (released_lock reason now) locks) ≡ some a
    → WasLock locks k a
was_lock p reason now locks k a hit =
    by_old (lookup str k locks) refl
      (sym (lookup-update_all str p (released_lock reason now) k locks) ∙ hit)
  where
    by_test :
        (w : TurnLock) (b : Bool)
        → lookup str k locks ≡ some w
        → updated b (released_lock reason now) w ≡ a
        → WasLock locks k a
    by_test w true e h = record {
      old = w;
      found = e;
      same_scope = ground arith;
      same_branch = ground arith;
      was_active = λ on. ground arith;
    }
    by_test w false e h = record {
      old = w;
      found = e;
      same_scope = ground arith;
      same_branch = ground arith;
      was_active = λ on. rw h on;
    }

    by_old :
        (o : Option TurnLock)
        → lookup str k locks ≡ o
        → map_found (λ w. updated (p k w) (released_lock reason now) w) o ≡ some a
        → WasLock locks k a
    by_old none e h = cc
    by_old (some w) e h = by_test w (p k w) e (some-injective _ a h)

-- A lock taken out for a room keeps the table: one that the room's active lock refuses, or that
-- names a branch of another room, is not stored.
pub create_lock-IsLockTable :
    (db : RunRows) (lock_id : String) (lock : TurnLock) (db' : RunRows)
    → IsLockTable db
    → create_lock db lock_id lock ≡ ok db'
    → IsLockTable db'
unfolding create_lock
create_lock-IsLockTable db lock_id lock db' t h =
    let d : db' ≡ record db { turn_locks = insert str lock_id lock db.turn_locks } = ground arith in
    let fits : in_scope (lookup str lock.branch_id db.branches) lock.scope_id ≡ true =
      ground arith in
    let free : is_active lock ≡ true → get_active db.turn_locks lock.scope_id ≡ none =
      λ e. ground arith in
    subst IsLockTable (sym d) (record {
      keyed = Keyed-insert lock_id lock db.turn_locks t.keyed;
      one_active = λ j k a b hit hit' on on' e.
          elim (stored_lock lock_id j lock a db.turn_locks hit) [
            | inl (ej, ea) ↦ elim (stored_lock lock_id k lock b db.turn_locks hit') [
              | inl (ek, eb) ↦ ej ∙ sym ek
              | inr old ↦ absurd (
                  no_active_in lock.scope_id db.turn_locks (free (rw (← ea) on)) k b old on'
                    (sym e ∙ ap (λ (l : TurnLock). l.scope_id) ea))
            ]
            | inr old ↦ elim (stored_lock lock_id k lock b db.turn_locks hit') [
              | inl (ek, eb) ↦ absurd (
                  no_active_in lock.scope_id db.turn_locks (free (rw (← eb) on')) j a old on
                    (e ∙ ap (λ (l : TurnLock). l.scope_id) eb))
              | inr old' ↦ t.one_active j k a b old old' on on' e
            ]
          ];
      in_room =
          lookup-insert_all str
            (λ _ a. in_scope (lookup str a.branch_id db.branches) a.scope_id ≡ true) lock_id lock
            db.turn_locks t.in_room fits;
    })

-- A write that releases some of the locks keeps it.
pub release_all-IsLockTable :
    (db : RunRows) (p : String → TurnLock → Bool) (reason : String) (now : ℕ)
    → IsLockTable db
    → IsLockTable (record db { turn_locks = update_all p (released_lock reason now) db.turn_locks })
release_all-IsLockTable db p reason now t = record {
  keyed = Keyed-update_all p (released_lock reason now) db.turn_locks t.keyed;
  one_active = λ j k a b hit hit' on on' e.
      let x = was_lock p reason now db.turn_locks j a hit in
      let y = was_lock p reason now db.turn_locks k b hit' in
      t.one_active j k x.old y.old x.found y.found (x.was_active on) (y.was_active on')
        (x.same_scope ∙ (e ∙ sym y.same_scope));
  in_room = λ k a hit.
      let x = was_lock p reason now db.turn_locks k a hit in
      subst₂ (λ i s. in_scope (lookup str i db.branches) s ≡ true) x.same_branch x.same_scope
        (t.in_room k x.old x.found);
}
