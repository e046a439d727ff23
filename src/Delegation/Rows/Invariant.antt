-- ===== src/Delegation/Rows/Invariant.antt =====
-- What holds of the stored tasks after any sequence of writes (`AgentTaskRepo`).
use xyzzy.Prelude.{
  Bool-cases, List, String, [], arith, contains, false, inl, inr, insert, length, lookup,
  lookup-insert_all, lookup-insert_ne, lookup-insert_self, none, ok, refl, some, str, subst, sym,
  true, ℕ, ◌↔◌, ◌∙◌, ◌∷◌, ◌≡◌, ◌≢◌,
}
use xyzzy.Delegation.{AgentTask, TaskState, in_terminal_states, require_transition}
use xyzzy.Delegation.Chain.{Distinct}
use xyzzy.Delegation.Rows.{
  TaskRows, create_in_transaction, moved, repeats, transition_in_transaction,
}
use xyzzy.Delegation.Rows.Guards.{update_where_state-ok}

-- A stored task carries an end time exactly when it is terminal; its depth is the length of its
-- chain, in which no agent stands twice.
abbrev pub Ended : AgentTask → Type 0
Ended t = (t.terminal_at ≡ none) ↔ (in_terminal_states t.state ≡ false)

abbrev pub Chained : List (String × List String) → String → AgentTask → Type 0
Chained chains id t =
    (chain : List String) × (lookup str id chains ≡ some chain)
    × (t.depth ≡ length chain)
    × Distinct chain

pub record IsValid (db : TaskRows) : Type 0 where
  pub ended : (id : String) (t : AgentTask) → lookup str id db.agent_tasks ≡ some t → Ended t
  pub chained :
      (id : String) (t : AgentTask)
      → lookup str id db.agent_tasks ≡ some t
      → Chained db.agent_task_chain id t

-- A permitted move starts in a state that is not terminal.
move_from_live :
    (s target : TaskState) → require_transition s target ≡ ok tt → in_terminal_states s ≡ false
unfolding require_transition in_terminal_states
move_from_live s target h = ground arith

moved-Ended :
    (t : AgentTask) (target : TaskState) (reason : String) (now : ℕ)
    → Ended t
    → require_transition t.state target ≡ ok tt
    → Ended (moved t target reason now)
moved-Ended t target reason now h p =
    let live = move_from_live t.state target p in
    let open_before = h.1 live in (λ e. ground arith, λ e. ground arith)

-- Where every stored task carries an end time exactly when it is terminal, and has as its depth the
-- length of its chain, in which no agent stands twice, a transition that returns keeps all of this.
pub transition-IsValid :
    (db : TaskRows) (task_id : String) (expected target : TaskState) (reason : String) (now : ℕ)
    (db' : TaskRows) (t' : AgentTask)
    → IsValid db
    → transition_in_transaction db task_id expected target reason now ≡ ok (db', t')
    → IsValid db'
unfolding transition_in_transaction
transition-IsValid db task_id expected target reason now db' t' v h =
    let p : require_transition expected target ≡ ok tt = ground arith in
    let (t, hit, e, e', d) =
      update_where_state-ok db task_id expected target reason now {db' = db'} {t' = t'}
        (ground arith) in
    subst IsValid (sym d) (record {
      ended =
          lookup-insert_all str (λ _ u. Ended u) task_id t' db.agent_tasks v.ended
            (subst Ended (sym e') (
              moved-Ended t target reason now (v.ended task_id t hit)
                (subst (λ s. require_transition s target ≡ ok tt) (sym e) p)));
      chained =
          lookup-insert_all str (Chained db.agent_task_chain) task_id t' db.agent_tasks v.chained
            (subst (Chained db.agent_task_chain task_id) (sym e') (v.chained task_id t hit));
    })

-- The agents before the new one, as `create_in_transaction` remembers them.
repeats-Distinct :
    (seen chain : List String)
    → repeats seen chain ≡ false
    → Distinct chain × ((a : String) → contains str a chain ≡ true → contains str a seen ≡ false)
unfolding repeats contains
repeats-Distinct seen [] h = (tt, λ a m. cc)
repeats-Distinct seen (b ∷ bs) h =
    let fresh : contains str b seen ≡ false = ground arith in
    let (d, out) = repeats-Distinct (b ∷ seen) bs (ground arith) in
    (
      (
        elim (Bool-cases (contains str b bs)) [
          | inl m ↦ absurd (ground (arith, out b m))
          | inr n ↦ n
        ],
        d,
      ),
      λ a m. elim (str a b) [ yes e ↦ rw e fresh | no ne ↦ ground (arith, out a) ],
    )

-- What a creation that returns has done.
create-ok :
    (db : TaskRows) (task : AgentTask) (ancestry : List String) {db' : TaskRows} {t' : AgentTask}
    → create_in_transaction db task ancestry ≡ ok (db', t')
    → (repeats [] ancestry ≡ false)
      × (lookup str task.task_id db.agent_tasks ≡ none)
      × (t' ≡ record task { depth = length ancestry })
      × (db' ≡ record db {
        agent_tasks = insert str task.task_id t' db.agent_tasks;
        agent_task_chain = insert str task.task_id ancestry db.agent_task_chain;
      })
unfolding create_in_transaction
create-ok db task ancestry h = ground arith

-- Creating a task whose end time fits its state keeps the invariant that each stored task carries an
-- end time exactly when it is terminal and has as its depth the length of its chain, in which no
-- agent stands twice.
pub create-IsValid :
    (db : TaskRows) (task : AgentTask) (ancestry : List String) (db' : TaskRows) (t' : AgentTask)
    → IsValid db
    → Ended task
    → create_in_transaction db task ancestry ≡ ok (db', t')
    → IsValid db'
create-IsValid db task ancestry db' t' v new h =
    let (distinct, fresh, e', d) = create-ok db task ancestry {db' = db'} {t' = t'} h in
    let id = task.task_id in
    let chains = insert str id ancestry db.agent_task_chain in
    subst IsValid (sym d) (record {
      ended =
          lookup-insert_all str (λ _ u. Ended u) id t' db.agent_tasks v.ended
            (subst Ended (sym e') new);
      chained =
          lookup-insert_all str (Chained chains) id t' db.agent_tasks
            (λ j w hit.
              let ne : j ≢ id = λ e. cc in
              let (chain, row, depth, ok_chain) = v.chained j w hit in
              (
                chain,
                lookup-insert_ne str id j ancestry db.agent_task_chain ne ∙ row,
                depth,
                ok_chain,
              ))
            (subst (Chained chains id) (sym e') (
              ancestry,
              lookup-insert_self str id ancestry db.agent_task_chain,
              refl,
              (repeats-Distinct [] ancestry distinct).0,
            ));
    })
