-- ===== src/Sched/Recovery/Active.antt =====
-- Which sagas recoverSaga of sched/scheduler/recover_jobs.go gives back.
use scoot.Base.{
  if◌then◌else◌, ◌≡◌, refl, inl, inr, ap, ◌∙◌, subst, String, Bool, true, false, none, some,
  some_inj, List, [], ◌∷◌, arith, ok, Bool-cases, Option-cases, Result-cases,
}
use mathlib.Core.List.{Memᴰ}
use scoot.Saga.Message.{fatal_err}
use scoot.Saga.Log.{SagaLog}
use scoot.Saga.Recovery.{recover_state}
use scoot.Saga.Object.{Saga, rehydrate_saga}
use scoot.Saga.Coordinator.{recover_saga_state}
use scoot.Sched.Recovery.{recover_saga}

picked : (b : Bool) (t s : Saga) → (if b then none else some t) ≡ some s → (b ≡ false) × (t ≡ s)
picked true t s h = absurd (ground arith)
picked false t s h = (refl, some_inj.0 h)

module _ (log : SagaLog) where
  -- The saga was in the log at the time of one of the attempts, and can go on.
  pub record IsActive (saga_id : String) (stores : List log.Store) (s : Saga) : Type 0 where
    pub store : log.Store
    pub at_some_time : Memᴰ store stores
    pub held : recover_state log saga_id store ≡ ok (some s.state)
    pub same_id : s.id ≡ saga_id
    pub going : s.state.saga_completed ≡ false
    pub served : (s.is_open ≡ true) × (s.has_loop ≡ true)

  -- A saga that is given back was in the log at one of the attempts with the state that it has, which is not
  -- completed, and it serves requests.
  pub recover_saga-IsActive :
      (saga_id : String) (stores : List log.Store) (s : Saga)
      → recover_saga log saga_id stores ≡ some (some s)
      → IsActive saga_id stores s
  unfolding recover_saga recover_saga_state rehydrate_saga
  recover_saga-IsActive saga_id [] s h = absurd (ground arith)
  recover_saga-IsActive saga_id (σ ∷ stores) s h =
      elim (Result-cases (recover_state log saga_id σ)) [
        | inr (e, f) ↦ elim (Bool-cases (fatal_err e)) [
          | inl g ↦ absurd (ground arith)
          | inr g ↦
              let a =
                recover_saga-IsActive saga_id stores s
                  (rw (f, g, recover_saga, recover_saga_state) at h) in
              record {
                store = a.store;
                at_some_time = Memᴰ.tail a.at_some_time;
                held = a.held;
                same_id = a.same_id;
                going = a.going;
                served = a.served;
              }
        ]
        | inl (o, f) ↦ elim (Option-cases o) [
          | inl g ↦ absurd (ground arith)
          | inr (t, g) ↦
              let there : recover_state log saga_id σ ≡ ok (some t) = f ∙ ap ok g in
              let kept =
                picked t.saga_completed (rehydrate_saga saga_id t) s
                  (some_inj.0 (rw (there, recover_saga, recover_saga_state) at h)) in
              subst (IsActive saga_id (σ ∷ stores)) kept.1 (record {
                store = σ;
                at_some_time = Memᴰ.head refl;
                held = there;
                same_id = refl;
                going = kept.0;
                served = (refl, rw kept.0 refl);
              })
        ]
      ]
