-- ===== src/Records/Paths.antt =====
-- Paths through the tables of transitions, and what a write along them keeps.
use xyzzy.Prelude.{
  List, Option, String, [], ap, arith, contains, false, insert, lookup, lookup-insert_ne,
  lookup-insert_self, none, refl, some, str, subst, sym, true, ◌∙◌, ◌≡◌,
}
use xyzzy.Records.{
  Decision, DecisionStatus, DecisionStatus-discrete, RecordNotice, RecordRows, RoomTask, TaskStatus,
  TaskStatus-discrete, valid_decision_transitions, valid_task_transitions, with_decision, with_task,
}

-- A path through a table of transitions.
pub data Reaches {S : Type 0} (dec : Discrete S) (valid : S → List S) (s : S) : S → Type 0 where
  stays : Reaches dec valid s s
  moves :
      {mid target : S}
      → Reaches dec valid s mid
      → contains dec target (valid mid) ≡ true
      → Reaches dec valid s target

pub joined_path :
    {S : Type 0} (dec : Discrete S) (valid : S → List S) (a b c : S)
    → Reaches dec valid a b
    → Reaches dec valid b c
    → Reaches dec valid a c
joined_path dec valid a b _ x stays = x
joined_path dec valid a b _ x (moves {mid} {target} y e) =
    moves (joined_path dec valid a b mid x y) e

abbrev pub TaskReaches : TaskStatus → TaskStatus → Type 0
TaskReaches = Reaches TaskStatus-discrete valid_task_transitions

abbrev pub DecisionReaches : DecisionStatus → DecisionStatus → Type 0
DecisionReaches = Reaches DecisionStatus-discrete valid_decision_transitions

-- Every stored task and decision is still there, and has followed its machine.
pub record IsMoved (db db' : RecordRows) : Type 0 where
  pub tasks_moved :
      (id : String) (t : RoomTask)
      → lookup str id db.room_tasks ≡ some t
      → (t' : RoomTask) × (lookup str id db'.room_tasks ≡ some t') × TaskReaches t.status t'.status
  pub decisions_moved :
      (id : String) (d : Decision)
      → lookup str id db.decisions ≡ some d
      → (d' : Decision) × (lookup str id db'.decisions ≡ some d')
        × DecisionReaches d.status d'.status

pub same-IsMoved : (db : RecordRows) → IsMoved db db
same-IsMoved db = record {
  tasks_moved = λ id t h. (t, h, stays);
  decisions_moved = λ id d h. (d, h, stays);
}

pub joined-IsMoved : (a b c : RecordRows) → IsMoved a b → IsMoved b c → IsMoved a c
joined-IsMoved a b c x y = record {
  tasks_moved = λ id t h.
      let (t', h', p) = x.tasks_moved id t h in
      let (t'', h'', q) = y.tasks_moved id t' h' in
      (
        t'',
        h'',
        joined_path TaskStatus-discrete valid_task_transitions t.status t'.status t''.status p q,
      );
  decisions_moved = λ id d h.
      let (d', h', p) = x.decisions_moved id d h in
      let (d'', h'', q) = y.decisions_moved id d' h' in
      (
        d'',
        h'',
        joined_path DecisionStatus-discrete valid_decision_transitions d.status d'.status d''.status
            p q,
      );
}

-- A task is written that is new, or that moves by its table.
abbrev pub MayWriteTask : Option RoomTask → TaskStatus → Type 0
MayWriteTask none target = Unit {0}
MayWriteTask (some t) target =
    contains TaskStatus-discrete target (valid_task_transitions t.status) ≡ true

abbrev pub MayWriteDecision : Option Decision → DecisionStatus → Type 0
MayWriteDecision none target = Unit {0}
MayWriteDecision (some d) target =
    contains DecisionStatus-discrete target (valid_decision_transitions d.status) ≡ true

pub with_task-IsMoved :
    (db : RecordRows) (id : String) (new : RoomTask) (notice : RecordNotice)
    → MayWriteTask (lookup str id db.room_tasks) new.status
    → IsMoved db (with_task db id new notice)
with_task-IsMoved db id new notice may = record {
  tasks_moved = λ j t h. elim (str j id) [
    | yes e ↦ (
      new,
      ap (λ i. lookup str i (insert str id new db.room_tasks)) e
          ∙ lookup-insert_self str id new db.room_tasks,
      moves stays (
          subst (λ o. MayWriteTask o new.status) (ap (λ i. lookup str i db.room_tasks) (sym e) ∙ h)
            may),
    )
    | no ne ↦ (t, lookup-insert_ne str id j new db.room_tasks ne ∙ h, stays)
  ];
  decisions_moved = λ j d h. (d, h, stays);
}

pub with_decision-IsMoved :
    (db : RecordRows) (id : String) (new : Decision) (notice : RecordNotice)
    → MayWriteDecision (lookup str id db.decisions) new.status
    → IsMoved db (with_decision db id new notice)
with_decision-IsMoved db id new notice may = record {
  tasks_moved = λ j t h. (t, h, stays);
  decisions_moved = λ j d h. elim (str j id) [
    | yes e ↦ (
      new,
      ap (λ i. lookup str i (insert str id new db.decisions)) e
          ∙ lookup-insert_self str id new db.decisions,
      moves stays (
          subst (λ o. MayWriteDecision o new.status)
            (ap (λ i. lookup str i db.decisions) (sym e) ∙ h) may),
    )
    | no ne ↦ (d, lookup-insert_ne str id j new db.decisions ne ∙ h, stays)
  ];
}

-- A machine that has no way out of a state stays there.
stuck_path :
    {S : Type 0} (dec : Discrete S) (valid : S → List S) (a b : S)
    → valid a ≡ []
    → Reaches dec valid a b
    → a ≡ b
unfolding contains
stuck_path dec valid a _ last stays = refl
stuck_path dec valid a b last (moves {mid} {target} path e) =
    let same : a ≡ mid = stuck_path dec valid a mid last path in
    let out : contains dec b [] ≡ true =
      subst (λ l. contains dec b l ≡ true) (ap valid (sym same) ∙ last) e in
    ground arith

-- A state that no transition enters is reached from itself alone.
unentered_path :
    {S : Type 0} (dec : Discrete S) (valid : S → List S) (a b : S)
    → ((m : S) → contains dec b (valid m) ≡ false)
    → Reaches dec valid a b
    → a ≡ b
unentered_path dec valid a _ none_enters stays = refl
unentered_path dec valid a b none_enters (moves {mid} {target} path e) =
    let refused = none_enters mid in ground arith

no_move_to_proposed :
    (m : DecisionStatus)
    → contains DecisionStatus-discrete DecisionStatus.proposed (valid_decision_transitions m)
      ≡ false
unfolding valid_decision_transitions DecisionStatus-discrete contains
no_move_to_proposed DecisionStatus.proposed = refl
no_move_to_proposed DecisionStatus.active = refl
no_move_to_proposed DecisionStatus.superseded = refl
no_move_to_proposed DecisionStatus.rejected = refl

pub completed_path :
    (s : TaskStatus) → TaskReaches TaskStatus.completed s → s ≡ TaskStatus.completed
unfolding valid_task_transitions
completed_path s path =
    sym (stuck_path TaskStatus-discrete valid_task_transitions TaskStatus.completed s refl path)

-- No decision returns to the state it was opened in.
pub proposed_path :
    (s : DecisionStatus) → DecisionReaches s DecisionStatus.proposed → s ≡ DecisionStatus.proposed
proposed_path s path =
    unentered_path DecisionStatus-discrete valid_decision_transitions s DecisionStatus.proposed
      no_move_to_proposed path
