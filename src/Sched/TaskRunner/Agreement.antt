-- ===== src/Sched/TaskRunner/Agreement.antt =====
-- What run of sched/scheduler/task_runner.go has written to the saga when the scheduler takes the task for
-- completed.
use scoot.Base.{
  ℕ, ◌≡◌, refl, inl, inr, String, true, Option, some, List, bit_or, arith, eq_refl, Result, ok, err,
  Bool-cases, Result-cases,
}
use scoot.Saga.Message.{Bytes, SagaMessage, SagaMessageType, make_end_task_message}
use scoot.Saga.Message
use scoot.Saga.State.{SagaState, flags, is_set, is_task_completed}
use scoot.Saga.Update
use scoot.Saga.Update.{mark, add_payload, set_flags}
use scoot.Saga.Transitions.{
  Step, ends, aborts, starts, completes, starts_comp, completes_comp, update_saga_state-ok_iff,
}
use scoot.Saga.Invariant.{IsValid}
use scoot.Saga.Progress.{IsShown, shown, flags-set_flags, flags-add_payload}
use scoot.Saga.Log.{SagaLog, log_message}
use scoot.Saga.Object.{
  Saga, Outcome, returned, panicked, blocked, update_saga_state, start_task, end_task,
}
use scoot.Saga.Durability.{IsLogged, update_saga_state-IsLogged}
use scoot.Runner.Status.{RunStatus}
use scoot.Sched.TaskRunner.{TaskRunner}
use scoot.Sched.TaskRunner.Run.{logged, bytes_of, send, of_outcome, log_task_status}

completed_flag : (f : ℕ) → IsShown f → is_set (bit_or f 2) 2 ≡ true
completed_flag f h = ground arith

-- A step on an EndTask message completes its task.
Step-completes :
    (s t : SagaState) (m : SagaMessage)
    → m.msg_type ≡ Message.end_task
    → IsValid s
    → Step s m t
    → is_task_completed t m.task_id ≡ true
unfolding mark
Step-completes s t m y v (ends ty all e) = absurd (ground arith)
Step-completes s t m y v (aborts ty open_ e) = absurd (ground arith)
Step-completes s t m y v (starts ty named open_ going todo e) = absurd (ground arith)
Step-completes s t m y v (starts_comp ty named open_ stopped begun todo e) = absurd (ground arith)
Step-completes s t m y v (completes_comp ty named open_ stopped begun comp e) =
    absurd (ground arith)
Step-completes s t m y v (completes ty named open_ going begun e) =
    let f = bit_or (flags s m.task_id) 2 in
    rw
      (
        e,
        flags-add_payload (set_flags s m.task_id f) m m.task_id,
        flags-set_flags s m.task_id m.task_id f,
        eq_refl m.task_id,
      )
      (completed_flag (flags s m.task_id) (shown s m.task_id v))

of_logged : (o : Outcome) → of_outcome o ≡ logged → o ≡ returned (ok tt)
of_logged (returned (ok tt)) h = refl
of_logged (returned (err x)) h = absurd (ground arith)
of_logged panicked h = absurd (ground arith)
of_logged blocked h = absurd (ground arith)

module _ (log : SagaLog) where
  -- A request that returns without an error has left the state that the message leads to.
  accepted :
      (s : Saga) (m : SagaMessage) (σ : log.Store)
      → (update_saga_state log s m σ).2 ≡ returned (ok tt)
      → Update.update_saga_state s.state m ≡ ok (update_saga_state log s m σ).1.state
  unfolding update_saga_state log_message
  accepted s m σ h = elim (Bool-cases s.is_open) [
    | inr e ↦ absurd (ground arith)
    | inl e ↦ elim (Bool-cases s.has_loop) [
      | inr f ↦ absurd (ground arith)
      | inl f ↦ elim (Result-cases (Update.update_saga_state s.state m)) [
        | inr (x, g) ↦ absurd (ground arith)
        | inl (t, g) ↦ elim (Result-cases (log.log_message m σ).1) [
          | inr (x, k) ↦ absurd (ground arith)
          | inl (u, k) ↦ ground arith
        ]
      ]
    ]
  ]

  end_task_completes :
      (s : Saga) (task_id : String) (bytes : Bytes) (σ : log.Store)
      → IsValid s.state
      → (end_task log s task_id bytes σ).2 ≡ returned (ok tt)
      → is_task_completed (end_task log s task_id bytes σ).1.state task_id ≡ true
  unfolding end_task
  end_task_completes s task_id bytes σ v h =
      let m = make_end_task_message s.id task_id bytes in
      let t = (update_saga_state log s m σ).1.state in
      Step-completes s.state t m refl v
        ((update_saga_state-ok_iff s.state m t).0 (accepted s m σ h)).1

  module _ (serialize : RunStatus → Result String (List ℕ)) where
    -- Writing a status keeps the log in step with the saga.
    pub log_task_status-IsLogged :
        (r : TaskRunner) (st : Option RunStatus) (ty : SagaMessageType) (s : Saga) (σ : log.Store)
        → IsLogged log σ s
        → IsLogged log
            (log_task_status log serialize r st ty s σ).0
            (log_task_status log serialize r st ty s σ).1
    unfolding log_task_status start_task end_task
    log_task_status-IsLogged r st ty s σ l = elim (Result-cases (bytes_of log serialize st)) [
      | inr (x, e) ↦ rw (e, log_task_status) l
      | inl (bytes, e) ↦ rw (e, log_task_status) (sent ty bytes)
    ]
      where
        sent :
            (ty : SagaMessageType) (bytes : Bytes)
            → IsLogged log
                (send log serialize r ty bytes s σ).0
                (send log serialize r ty bytes s σ).1
        sent Message.start_task bytes = update_saga_state-IsLogged log s _ σ l
        sent Message.end_task bytes = update_saga_state-IsLogged log s _ σ l
        sent Message.start_saga bytes = l
        sent Message.end_saga bytes = l
        sent Message.abort_saga bytes = l
        sent Message.start_comp_task bytes = l
        sent Message.end_comp_task bytes = l

    -- A status that was written with EndTask has completed the task.
    pub logged_completes :
        (r : TaskRunner) (st : RunStatus) (s : Saga) (σ : log.Store)
        → IsValid s.state
        → (log_task_status log serialize r (some st) Message.end_task s σ).2 ≡ logged
        → is_task_completed
            (log_task_status log serialize r (some st) Message.end_task s σ).1.state
            r.tags.task_id
          ≡ true
    unfolding log_task_status
    logged_completes r st s σ v h = elim (Result-cases (serialize st)) [
      | inr (x, e) ↦ absurd (ground (arith, e))
      | inl (b, e) ↦
          let out : (end_task log s r.tags.task_id (some b) σ).2 ≡ returned (ok tt) =
            of_logged (end_task log s r.tags.task_id (some b) σ).2 (rw (e, log_task_status) at h) in
          rw (e, log_task_status) (end_task_completes s r.tags.task_id (some b) σ v out)
    ]
