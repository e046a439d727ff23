-- ===== src/Delegation/Lifecycle.antt =====
-- The shape of the task's state machine (`LEGAL_TRANSITIONS`, `require_transition`).
use xyzzy.Prelude.{false, inl, inr, ok, refl, subst, true, ◌↔◌, ◌≡◌, ◌≢◌, ◌⊎◌}
use xyzzy.Delegation.{
  TaskState, auth_required, canceled, completed, in_terminal_states, input_required,
  require_transition, submitted, working,
}

-- One permitted move.
infix 40 ◌⟶◌ ◌⟶*◌
abbrev pub ◌⟶◌ : TaskState → TaskState → Type 0
s ⟶ t = require_transition s t ≡ ok tt

-- A run of permitted moves, with the states it passes through.
pub data ◌⟶*◌ (s : TaskState) : TaskState → Type 0 where
  here : s ⟶* s
  next : {t u : TaskState} → s ⟶* t → t ⟶ u → s ⟶* u

abbrev pub Visits : {s t : TaskState} → TaskState → s ⟶* t → Type 0
Visits {s} u here = s ≡ u
Visits u (next {u = v} r m) = Visits u r ⊎ (v ≡ u)

-- A state is terminal exactly when the machine has no move out of it.
pub terminal_iff_stuck :
    (s : TaskState) → (in_terminal_states s ≡ true) ↔ ((t : TaskState) → ¬ (s ⟶ t))
unfolding in_terminal_states require_transition
terminal_iff_stuck submitted = (λ h. cc, λ h. absurd (h working refl))
terminal_iff_stuck working = (λ h. cc, λ h. absurd (h completed refl))
terminal_iff_stuck input_required = (λ h. cc, λ h. absurd (h working refl))
terminal_iff_stuck auth_required = (λ h. cc, λ h. absurd (h working refl))
terminal_iff_stuck _ = (λ h t m. cc, λ h. refl)

-- The only move into `completed` is from `working`.
move-completed : (s : TaskState) → s ⟶ completed → s ≡ working
unfolding require_transition
move-completed working m = refl
move-completed submitted m = cc
move-completed _ m = cc

Visits-end : {s t : TaskState} (r : s ⟶* t) → Visits t r
Visits-end here = refl
Visits-end (next r m) = inr refl

-- A task that is completed was working on the way, whatever state it came from.
pub completed_needs_working :
    {s : TaskState}
    → s ≢ completed
    → {t : TaskState} (r : s ⟶* t) → t ≡ completed
    → Visits working r
completed_needs_working ne here e = absurd (ne e)
completed_needs_working {s} ne (next {t} r m) e =
    inl (subst-Visits r (move-completed t (subst (λ v. t ⟶ v) e m)))
  where
    subst-Visits : {v : TaskState} (q : s ⟶* v) → v ≡ working → Visits working q
    subst-Visits {v} q w = rw w at (Visits-end q)

-- Every state that is not terminal can be canceled at once.
pub cancel_permitted : (s : TaskState) → in_terminal_states s ≡ false → s ⟶ canceled
unfolding in_terminal_states require_transition
cancel_permitted submitted h = refl
cancel_permitted working h = refl
cancel_permitted input_required h = refl
cancel_permitted auth_required h = refl
cancel_permitted _ h = cc

-- Every state that is neither terminal nor `working` can go to `working`.
pub resume_permitted : (s : TaskState) → in_terminal_states s ≡ false → s ≢ working → s ⟶ working
unfolding in_terminal_states require_transition
resume_permitted submitted h ne = refl
resume_permitted input_required h ne = refl
resume_permitted auth_required h ne = refl
resume_permitted working h ne = absurd (ne refl)
resume_permitted _ h ne = cc
