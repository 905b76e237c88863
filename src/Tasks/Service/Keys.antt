-- ===== src/Tasks/Service/Keys.antt =====
-- apps/api/src/modules/task/task.service.ts: a key completes one task at most.
use Prim.Native.String
use etik_bildirim_platformu.Prelude.{
  ◌≡◌, refl, ap, sym, ◌∙◌, subst, inl, inr, String, some, List, [], ◌∷◌, ◌++◌, In, ok, Bool-cases,
}
use etik_bildirim_platformu.Storage.World.{Tables, World}
use etik_bildirim_platformu.Policy.User.{AuthenticatedUser}
use etik_bildirim_platformu.Audit.Publisher.{OutboxRow}
use etik_bildirim_platformu.Workflow.Records.{
  ExecuteTransitionInput, Snapshot, TransitionResult, Fresh,
}
use etik_bildirim_platformu.Workflow.Engine.{SideEffects, execute_in_transaction}
use etik_bildirim_platformu.Workflow.Engine.Accepted.{execute_in_transaction_sound}
use etik_bildirim_platformu.Workflow.Engine.History.{execute_in_transaction-replay}
use etik_bildirim_platformu.Tasks.Records.{TaskRow, TaskTables, all_tables}
use etik_bildirim_platformu.Tasks.Requests.{CompleteTaskBody, TaskFilter}
use etik_bildirim_platformu.Tasks.Service.{RequestFresh, TaskPorts, complete_task}
use etik_bildirim_platformu.Tasks.Service.Completed.{IsCarriedOut, complete_task-IsDone}

In-append-left {ℓ} : {A : Type ℓ} (a : A) (xs ys : List A) → In a xs → In a (xs ++ ys)
In-append-left a [] ys i = elim i [ ]
In-append-left a (x ∷ xs) ys (inl e) = inl e
In-append-left a (x ∷ xs) ys (inr i) = inr (In-append-left a xs ys i)

In-last {ℓ} : {A : Type ℓ} (a : A) (xs : List A) → In a (xs ++ a ∷ [])
In-last a [] = inl refl
In-last a (x ∷ xs) = inr (In-last a xs)

-- A transaction only adds to the outbox.
execute-outbox :
    (t : Tables) (side_effects : SideEffects t) (fresh : Fresh) (input : ExecuteTransitionInput)
    (w w' : World t) (snapshot : Snapshot) (r : TransitionResult)
    → execute_in_transaction t side_effects fresh input w snapshot ≡ ok (r, w')
    → (event : OutboxRow) → In event (t.outbox.rows w.outbox)
    → In event (t.outbox.rows w'.outbox)
execute-outbox t side_effects fresh input w w' snapshot r h event i =
    elim (Bool-cases r.idempotent_replay) [
      | inl again ↦
          let same =
            execute_in_transaction-replay t side_effects fresh input w w' snapshot r h again in
          subst (λ (v : World t). In event (t.outbox.rows v.outbox)) (sym same) i
      | inr first ↦
          let (row, definition, _, _, _, written) =
            execute_in_transaction_sound t side_effects fresh input w w' snapshot r h first in
          let (input_event, _, _, _, added) = written.audited in
          subst (In event) (sym added) (In-append-left event _ _ i)
    ]

module _ (t : Tables) (k : TaskTables) (filter : TaskFilter)
    (side_effects : SideEffects (all_tables t k)) (ports : TaskPorts t k filter) where
  -- Once a completion was carried out, another request with its key, by whichever user for
  -- whichever task, changes nothing if it returns.
  pub complete_task-used_key :
      (fresh later : RequestFresh) (user other : AuthenticatedUser)
      (correlation_id next_id : String) (before now again w₁ w₂ : World (all_tables t k))
      (body next : CompleteTaskBody) (task_id other_id : String) (row last : TaskRow)
      → IsCarriedOut t k filter side_effects ports fresh user correlation_id before now body task_id
          row w₁
      → next.idempotency_key ≡ body.idempotency_key
      → complete_task t k filter side_effects ports later other next_id again w₁ next other_id
        ≡ ok (last, w₂)
      → w₂ ≡ w₁
  complete_task-used_key fresh later user other correlation_id next_id before now again w₁ w₂ body
        next task_id other_id row last first same_key h =
      elim (complete_task-IsDone t k filter side_effects ports later other next_id again w₁ next
        other_id last w₂ h).1 [
          | inl (_, same) ↦ same
          | inr carried ↦
              let (event, keyed, added) = first.finished.published in
              let i : In event (t.outbox.rows w₁.outbox) =
                subst (In event) (sym added) (In-last event _) in
              let j =
                execute-outbox (all_tables t k) side_effects later.transition _ w₁ carried.moved.1 _
                  carried.moved.0 carried.transition event i in
              absurd (
                carried.finished.unused event j (
                  keyed
                  ∙ ap (λ key. some (String.◌++◌ "audit:task-completed:" key)) (sym same_key)))
        ]
