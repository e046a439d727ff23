-- ===== src/Hub/Index.antt =====
-- The hub's two views of its subscriptions, by id and by room.
use xyzzy.Prelude.{
  List, Option, String, [], arith, contains, contains-append, contains-keep, false, if◌then◌else◌,
  insert, ite, keep, lookup, lookup-insert, lookup-insert_ne, lookup-remove, none, refl, remove,
  some, str, subst, sym, true, ◌++◌, ◌∙◌, ◌∷◌, ◌≡◌,
}
use xyzzy.Hub.{RealtimeSubscription, add_id, discard_id, ids_in, mark_warned}

-- Each entry stands under its subscription's own id, and no id stands twice.
abbrev pub Keyed : List (String × RealtimeSubscription) → Type 0
Keyed [] = Unit {0}
Keyed ((id, sub) ∷ rest) = (sub.subscription_id ≡ id) × (lookup str id rest ≡ none) × Keyed rest

-- The room's index lists exactly the ids of the subscriptions to it.
pub record IsIndexed (subs : List (String × RealtimeSubscription))
    (index : List (String × List String)) : Type 0 where
  pub keyed : Keyed subs
  pub listed_ids :
      (id : String) (sub : RealtimeSubscription)
      → lookup str id subs ≡ some sub
      → contains str id (ids_in index sub.room_id) ≡ true
  pub backed :
      (room_id id : String)
      → contains str id (ids_in index room_id) ≡ true
      → (sub : RealtimeSubscription) × (lookup str id subs ≡ some sub) × (sub.room_id ≡ room_id)

insert-Keyed :
    (subs : List (String × RealtimeSubscription)) (id : String) (sub : RealtimeSubscription)
    → Keyed subs
    → sub.subscription_id ≡ id
    → Keyed (insert str id sub subs)
unfolding insert lookup
insert-Keyed [] id sub k e = (e, refl, tt)
insert-Keyed ((j, s) ∷ rest) id sub k e = by_test (str id j) (insert-Keyed rest id sub k.2 e)
  where
    by_test :
        (d : Dec (id ≡ j))
        → Keyed (insert str id sub rest)
        → Keyed (ite d ((id, sub) ∷ rest) ((j, s) ∷ insert str id sub rest))
    by_test (yes same) later = (e, rw same k.1, k.2)
    by_test (no ne) later = (k.0, lookup-insert_ne str id j sub rest (λ q. ne (sym q)) ∙ k.1, later)

remove-none :
    (subs : List (String × RealtimeSubscription)) (id j : String)
    → lookup str j subs ≡ none
    → lookup str j (remove str id subs) ≡ none
remove-none subs id j h = ground (arith, lookup-remove str id j subs)

remove-Keyed :
    (subs : List (String × RealtimeSubscription)) (id : String)
    → Keyed subs
    → Keyed (remove str id subs)
unfolding remove
remove-Keyed [] id k = tt
remove-Keyed ((j, s) ∷ rest) id k = by_test (str id j) (remove-Keyed rest id k.2)
  where
    by_test :
        (d : Dec (id ≡ j))
        → Keyed (remove str id rest)
        → Keyed (ite d (remove str id rest) ((j, s) ∷ remove str id rest))
    by_test (yes same) later = later
    by_test (no ne) later = (k.0, remove-none rest id j k.1, later)

-- An entry stands under its subscription's id.
pub Keyed-id :
    (subs : List (String × RealtimeSubscription)) (id : String) (sub : RealtimeSubscription)
    → Keyed subs
    → lookup str id subs ≡ some sub
    → sub.subscription_id ≡ id
unfolding lookup
Keyed-id [] id sub k h = cc
Keyed-id ((j, s) ∷ rest) id sub k h = ground (arith, Keyed-id rest id sub k.2)

contains_add :
    (index : List (String × List String)) (room id r a : String)
    → contains str a (ids_in (add_id index room id) r)
      ≡ ite
          (str r room)
          (ite (str a id) true (contains str a (ids_in index room)))
          (contains str a (ids_in index r))
unfolding add_id ids_in contains
contains_add index room id r a =
    let ids = ids_in index room in
    let found =
      lookup-insert str room r (if contains str id ids then ids else ids ++ id ∷ []) index in
    ground (arith, contains-append str a ids (id ∷ []))

contains_discard :
    (index : List (String × List String)) (room id r a : String)
    → contains str a (ids_in (discard_id index room id) r)
      ≡ ite
          (str r room)
          (ite (str a id) false (contains str a (ids_in index room)))
          (contains str a (ids_in index r))
unfolding discard_id ids_in
contains_discard index room id r a =
    let ids = ids_in index room in
    let test = λ (j : String). ite (str j id) false true in
    let found = lookup-insert str room r (keep test ids) index in
    let kept = contains-keep str a test ids in ground arith

-- A new id, added to the subscriptions and to its room.
pub added-IsIndexed :
    (subs : List (String × RealtimeSubscription)) (index : List (String × List String))
    (sub : RealtimeSubscription)
    → IsIndexed subs index
    → lookup str sub.subscription_id subs ≡ none
    → IsIndexed
        (insert str sub.subscription_id sub subs)
        (add_id index sub.room_id sub.subscription_id)
added-IsIndexed subs index sub v fresh =
    let id = sub.subscription_id in
    record {
      keyed = insert-Keyed subs id sub v.keyed refl;
      listed_ids = λ j s h.
          let found = lookup-insert str id j sub subs in
          let there = contains_add index sub.room_id id s.room_id j in
          elim (str j id) [
            | yes e ↦ ground arith
            | no ne ↦ let before = v.listed_ids j s (ground arith) in ground arith
          ];
      backed = λ r j m.
          let there = contains_add index sub.room_id id r j in
          let found = lookup-insert str id j sub subs in
          elim (str j id) [
            | yes e ↦ elim (str r sub.room_id) [
              | yes q ↦ (sub, ground arith, sym q)
              | no nq ↦ let (s, h, _) = v.backed r j (ground arith) in absurd (ground arith)
            ]
            | no ne ↦ let (s, h, q) = v.backed r j (ground arith) in (s, ground arith, q)
          ];
    }

-- An id taken from the subscriptions and from the room that its subscription has.
pub dropped-IsIndexed :
    (subs : List (String × RealtimeSubscription)) (index : List (String × List String))
    (id room_id : String)
    → IsIndexed subs index
    → ((s : RealtimeSubscription) → lookup str id subs ≡ some s → s.room_id ≡ room_id)
    → IsIndexed (remove str id subs) (discard_id index room_id id)
dropped-IsIndexed subs index id room_id v own = record {
  keyed = remove-Keyed subs id v.keyed;
  listed_ids = λ j s h.
      let found = lookup-remove str id j subs in
      let there = contains_discard index room_id id s.room_id j in
      let before = v.listed_ids j s (ground arith) in ground arith;
  backed = λ r j m.
      let there = contains_discard index room_id id r j in
      let found = lookup-remove str id j subs in
      let (s, h, q) = v.backed r j (ground arith) in
      elim (str j id) [
        | yes e ↦
            let mine = own s (subst (λ k. lookup str k subs ≡ some s) e h) in absurd (ground arith)
        | no ne ↦ (s, ground arith, q)
      ];
}

-- The overflow flag is none of the index's business.
pub mark_warned-IsIndexed :
    (subs : List (String × RealtimeSubscription)) (index : List (String × List String))
    (id : String)
    → IsIndexed subs index
    → IsIndexed (mark_warned subs id) index
unfolding mark_warned
mark_warned-IsIndexed subs index id v = by_entry (lookup str id subs) refl
  where
    by_entry :
        (o : Option RealtimeSubscription)
        → lookup str id subs ≡ o
        → IsIndexed
            (elim o as (λ _. List (String × RealtimeSubscription)) [
              | none ↦ subs
              | some sub ↦ insert str id (record sub { overflow_warned = true }) subs
            ])
            index
    by_entry none e = v
    by_entry (some sub) e =
        let warned : RealtimeSubscription = record sub { overflow_warned = true } in
        record {
          keyed = insert-Keyed subs id warned v.keyed (Keyed-id subs id sub v.keyed e);
          listed_ids = λ j s h.
              let found = lookup-insert str id j warned subs in
              elim (str j id) [
                | yes q ↦ let before = v.listed_ids id sub e in ground arith
                | no nq ↦ v.listed_ids j s (ground arith)
              ];
          backed = λ r j m.
              let found = lookup-insert str id j warned subs in
              let (s, h, q) = v.backed r j m in
              elim (str j id) [
                | yes p ↦ (warned, ground arith, ground arith)
                | no np ↦ (s, ground arith, q)
              ];
        }
