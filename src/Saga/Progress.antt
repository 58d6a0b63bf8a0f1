-- ===== src/Saga/Progress.antt =====
-- What saga/saga_state.go promises of accepted messages: no progress is lost, and a saga that has
-- completed changes no more.
use scoot.Base.{
  ℕ, ◌≡◌, refl, ◌⊎◌, inl, inr, subst, String, Bool, true, false, arith, eq_iff, lookup,
  lookup-insert, bit_or, bit_and, none, some, ◌||◌, ap, ok, Bool-cases, str_eq, if◌then◌else◌,
}
use scoot.Saga.Message.{SagaMessage, end_saga}
use scoot.Saga.State.{SagaState, flags, is_task_completed, is_set}
use scoot.Saga.Update.{add_payload, set_flags, mark, update_saga_state}
use scoot.Saga.Transitions.{
  Step, ends, aborts, starts, completes, starts_comp, completes_comp, update_saga_state-ok_iff,
}
use scoot.Saga.Invariant.{IsValid, IsProgress, flags_cases, add_payload_lem}

-- The bits of `f` are bits of `g`.
abbrev pub Keeps : ℕ → ℕ → Type 0
Keeps f g = bit_and f g ≡ f

-- A flag that a valid state may show.
abbrev pub IsShown : ℕ → Type 0
IsShown f = (f ≡ 0) ⊎ IsProgress true f

pub shown : (s : SagaState) (i : String) → IsValid s → IsShown (flags s i)
shown s i v = at_phase s.saga_aborted (flags s i) (flags_cases s i v)
  where
    at_phase :
        (b : Bool) (f : ℕ)
        → ((f ≡ 0) × (lookup i s.task_state ≡ none))
          ⊎ (IsProgress b f × (lookup i s.task_state ≡ some (flags s i)))
        → IsShown f
    at_phase true f c = ground arith
    at_phase false f c = ground arith

Keeps-refl : (f : ℕ) → IsShown f → Keeps f f
Keeps-refl f c = ground arith

pub flags-set_flags :
    (s : SagaState) (k i : String) (f : ℕ)
    → flags (set_flags s k f) i ≡ (if str_eq k i then f else flags s i)
unfolding flags
flags-set_flags s k i f = rw (lookup-insert k i f s.task_state) (ground arith)

pub flags-add_payload :
    (s : SagaState) (m : SagaMessage) (i : String) → flags (add_payload s m) i ≡ flags s i
unfolding flags
flags-add_payload s m i = ap (λ (t : SagaState). flags t i) (add_payload_lem s m)

set_flags-Keeps :
    (s : SagaState) (k i : String) (f : ℕ)
    → IsValid s
    → Keeps (flags s k) f
    → Keeps (flags s i) (flags (set_flags s k f) i)
set_flags-Keeps s k i f v h = rw (flags-set_flags s k i f) (elim (Bool-cases (str_eq k i)) [
  | inl e ↦ rw e (subst (λ j. Keeps (flags s j) f) ((eq_iff k i).0 e) h)
  | inr e ↦ rw e (Keeps-refl (flags s i) (shown s i v))
])

started-Keeps :
    (s : SagaState) (i : String)
    → IsValid s
    → s.saga_aborted ≡ false
    → is_task_completed s i ≡ false
    → Keeps (flags s i) 1
unfolding flags
started-Keeps s i v going todo = from (flags s i) todo (rw going at (flags_cases s i v))
  where
    from :
        (f : ℕ)
        → is_set f 2 ≡ false
        → ((f ≡ 0) × (lookup i s.task_state ≡ none))
          ⊎ (IsProgress false f × (lookup i s.task_state ≡ some (flags s i)))
        → Keeps f 1
    from f h c = ground arith

or-Keeps : (f b : ℕ) → (b ≡ 2) ⊎ (b ≡ 4) ⊎ (b ≡ 8) → IsShown f → Keeps f (bit_or f b)
or-Keeps f b c d = ground arith

-- `t` has all the progress of `s`, and is about the same job.
pub record Grows (s t : SagaState) : Type 0 where
  pub tasks : (i : String) → Keeps (flags s i) (flags t i)
  pub aborted : (s.saga_aborted || t.saga_aborted) ≡ t.saga_aborted
  pub completed : (s.saga_completed || t.saga_completed) ≡ t.saga_completed
  pub same_id : t.saga_id ≡ s.saga_id
  pub same_job : t.job ≡ s.job

mark-Keeps :
    (s : SagaState) (k i : String) (b : ℕ)
    → (b ≡ 2) ⊎ (b ≡ 4) ⊎ (b ≡ 8)
    → IsValid s
    → Keeps (flags s i) (flags (mark s k b) i)
unfolding mark
mark-Keeps s k i b c v = set_flags-Keeps s k i _ v (or-Keeps (flags s k) b c (shown s k v))

Step-Keeps :
    (s : SagaState) (m : SagaMessage) (t : SagaState) (i : String)
    → IsValid s
    → Step s m t
    → Keeps (flags s i) (flags t i)
unfolding flags
Step-Keeps s m t i v (ends ty all e) = rw e (Keeps-refl (flags s i) (shown s i v))
Step-Keeps s m t i v (aborts ty open_ e) = rw e (Keeps-refl (flags s i) (shown s i v))
Step-Keeps s m t i v (starts ty named open_ going todo e) =
    rw (e, add_payload_lem s m)
      (set_flags-Keeps s m.task_id i 1 v (started-Keeps s m.task_id v going todo))
Step-Keeps s m t i v (completes ty named open_ going begun e) =
    rw (e, add_payload_lem (mark s m.task_id 2) m) (mark-Keeps s m.task_id i 2 (inl refl) v)
Step-Keeps s m t i v (starts_comp ty named open_ stopped begun todo e) =
    rw (e, add_payload_lem (mark s m.task_id 4) m) (mark-Keeps s m.task_id i 4 (inr (inl refl)) v)
Step-Keeps s m t i v (completes_comp ty named open_ stopped begun comp e) =
    rw (e, add_payload_lem s m) (unfold mark in mark-Keeps s m.task_id i 8 (inr (inr refl)) v)

Step-fields :
    (s : SagaState) (m : SagaMessage) (t : SagaState)
    → Step s m t
    → ((s.saga_aborted || t.saga_aborted) ≡ t.saga_aborted)
      × ((s.saga_completed || t.saga_completed) ≡ t.saga_completed)
      × (t.saga_id ≡ s.saga_id)
      × (t.job ≡ s.job)
unfolding mark
Step-fields s m t (ends ty all e) = ground arith
Step-fields s m t (aborts ty open_ e) = ground arith
Step-fields s m t (starts ty named open_ going todo e) = ground (arith, add_payload_lem s m)
Step-fields s m t (completes ty named open_ going begun e) =
    ground (arith, add_payload_lem (mark s m.task_id 2) m)
Step-fields s m t (starts_comp ty named open_ stopped begun todo e) =
    ground (arith, add_payload_lem (mark s m.task_id 4) m)
Step-fields s m t (completes_comp ty named open_ stopped begun comp e) =
    ground (arith, add_payload_lem s m)

-- An accepted message never clears a bit of any task's progress, the abort or the completion of the
-- saga, nor its id or its job.
pub update_saga_state-Grows :
    (s t : SagaState) (m : SagaMessage) → IsValid s → update_saga_state s m ≡ ok t → Grows s t
update_saga_state-Grows s t m v h =
    let step = ((update_saga_state-ok_iff s m t).0 h).1 in
    let f = Step-fields s m t step in
    record {
      tasks = λ i. Step-Keeps s m t i v step;
      aborted = f.0;
      completed = f.1;
      same_id = f.2;
      same_job = f.3;
    }

-- A completed saga accepts nothing but a repeated EndSaga, which changes nothing.
update_saga_state_frozen :
    (s t : SagaState) (m : SagaMessage)
    → s.saga_completed ≡ true
    → update_saga_state s m ≡ ok t
    → (m.msg_type ≡ end_saga) × (t ≡ s)
update_saga_state_frozen s t m done h = frozen s t m done ((update_saga_state-ok_iff s m t).0 h).1
  where
    frozen :
        (s t : SagaState) (m : SagaMessage)
        → s.saga_completed ≡ true
        → Step s m t
        → (m.msg_type ≡ end_saga) × (t ≡ s)
    frozen s t m done (ends ty all e) = (ty, ground arith)
    frozen s t m done (aborts ty open_ e) = absurd (ground arith)
    frozen s t m done (starts ty named open_ going todo e) = absurd (ground arith)
    frozen s t m done (completes ty named open_ going begun e) = absurd (ground arith)
    frozen s t m done (starts_comp ty named open_ stopped begun todo e) = absurd (ground arith)
    frozen s t m done (completes_comp ty named open_ stopped begun comp e) = absurd (ground arith)
