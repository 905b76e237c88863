-- ===== src/Tasks/Creation/Created.antt =====
-- apps/api/src/modules/task/task.service.ts: what `createTasksForTransition` writes.
use etik_bildirim_platformu.Prelude.{
  append-nil, append_assoc, map-append, All-append, ℕ, ◌+◌, ◌≡◌, refl, ap, sym, ◌∙◌, subst, inl,
  inr, String, Option, some, List, [], ◌∷◌, ◌++◌, map, ◌===◌, length, if◌then◌else◌, ok, >>=-elim,
  ok-injective, All, Bool-cases,
}
use etik_bildirim_platformu.Shared.Enums.{
  Role, TaskType, TaskType-discrete, task_type_eq, member_approval_task, TaskStatus,
}
use etik_bildirim_platformu.Storage.Rows.{CaseRow, TransitionRow}
use etik_bildirim_platformu.Storage.World.{Tables, World}
use etik_bildirim_platformu.Sla.Calculator.{calculate_due_at}
use etik_bildirim_platformu.Decision.Unanimity.{list_eligible_council_member_ids}
use etik_bildirim_platformu.Workflow.Records.{TransitionTaskStub}
use etik_bildirim_platformu.Workflow.Validators.{TransitionActor}
use etik_bildirim_platformu.Tasks.Catalog.{TaskCreationDefinition, resolve_tasks_for_transition}
use etik_bildirim_platformu.Tasks.Records.{TaskRow, TaskTables, TaskStores, all_tables}
use etik_bildirim_platformu.Tasks.Creation.{
  Supply, in_order, created_event, stub_of, create_task, for_assignees, assignees_of,
  for_definitions, create_tasks_for_transition,
}

-- Who is to do what.
pub record Assignment : Type 0 where
  pub task_type : TaskType
  pub role : Role
  pub user_id : Option String

abbrev pub assignment_of : TaskRow → Assignment
assignment_of row = record {
  task_type = row.task_type;
  role = row.assigned_role;
  user_id = row.assigned_user_id;
}

abbrev planned : TaskCreationDefinition → Option String → Assignment
planned definition assignee = record {
  task_type = definition.task_type;
  role = definition.assigned_role;
  user_id = assignee;
}

-- A task of the approval of the members is one for each member; another is one for its user, or
-- for its role.
abbrev pub plan_of : List String → TaskCreationDefinition → List Assignment
unfolding TaskType-discrete
plan_of members definition =
    if definition.task_type === member_approval_task
    then map (λ id. planned definition (some id)) members
    else planned definition definition.assigned_user_id ∷ []

abbrev pub plan : List String → List TaskCreationDefinition → List Assignment
unfolding plan_of
plan members [] = []
plan members (definition ∷ definitions) = plan_of members definition ++ plan members definitions

pub record IsNewTask (case_entity : CaseRow) (transition : TransitionRow) (row : TaskRow)
    : Type 0 where
  pub status : row.status ≡ TaskStatus.pending
  pub of_case : row.case_id ≡ case_entity.id
  pub of_transition : row.created_by_transition_id ≡ transition.id

module _ (t : Tables) (k : TaskTables) (supply : Supply) (case_entity : CaseRow)
    (transition : TransitionRow) (actor : TransitionActor) where
  -- The rows that were created and what is new in the tables.
  pub record IsCreated (assignments : List Assignment) (made : List TaskRow)
      (s after : TaskStores k) : Type 0 where
    pub as_planned : map assignment_of made ≡ assignments
    pub all_new : All (IsNewTask case_entity transition) made
    pub tasks : k.tasks.rows after.tasks ≡ k.tasks.rows s.tasks ++ made
    pub task_events :
        k.task_events.rows after.task_events
        ≡ k.task_events.rows s.task_events ++ map (created_event actor transition) made

  nothing-IsCreated : (s : TaskStores k) → IsCreated [] [] s s
  nothing-IsCreated s = record {
    as_planned = refl;
    all_new = tt;
    tasks = sym (append-nil (k.tasks.rows s.tasks));
    task_events = sym (append-nil (k.task_events.rows s.task_events));
  }

  append-IsCreated :
      {a b : List Assignment} {made more : List TaskRow} {s middle after : TaskStores k}
      → IsCreated a made s middle
      → IsCreated b more middle after
      → IsCreated (a ++ b) (made ++ more) s after
  append-IsCreated {a} {b} {made} {more} {s} {middle} {after} x y = record {
    as_planned =
        map-append assignment_of made more
        ∙ ap (λ l. l ++ map assignment_of more) x.as_planned
        ∙ ap (λ l. a ++ l) y.as_planned;
    all_new = All-append _ made more x.all_new y.all_new;
    tasks = y.tasks ∙ ap (λ l. l ++ more) x.tasks ∙ append_assoc (k.tasks.rows s.tasks) made more;
    task_events =
        y.task_events
        ∙ ap (λ l. l ++ map (created_event actor transition) more) x.task_events
        ∙ append_assoc (k.task_events.rows s.task_events)
            (map (created_event actor transition) made) (map (created_event actor transition) more)
        ∙ ap (λ l. k.task_events.rows s.task_events ++ l)
            (sym (map-append (created_event actor transition) made more));
  }

  module _ (members : List String) where
    create_task-IsCreated :
        (i : ℕ) (definition : TaskCreationDefinition) (assignee : Option String) (s : TaskStores k)
        {made : TaskRow} {after : TaskStores k}
        → create_task t k supply members case_entity transition actor i definition assignee s
          ≡ ok (made, after)
        → IsCreated (planned definition assignee ∷ []) (made ∷ []) s after
    unfolding create_task
    create_task-IsCreated i definition assignee s {made} {after} h =
        >>=-elim
          (calculate_due_at (k.policies.rows s.policies) (k.calendar.rows s.calendar)
            definition.task_type (supply.now i))
          _ h
          λ sla _ h₁.
            subst
              (λ (p : TaskRow × TaskStores k).
                IsCreated (planned definition assignee ∷ []) (p.0 ∷ []) s p.1)
              (ok-injective h₁)
              (record {
                as_planned = refl;
                all_new = (record { status = refl; of_case = refl; of_transition = refl }, tt);
                tasks = k.tasks.rows-insert _ s.tasks;
                task_events = k.task_events.rows-insert _ s.task_events;
              })

    for_assignees-IsCreated :
        (i : ℕ) (definition : TaskCreationDefinition) (assignees : List (Option String))
        (s : TaskStores k) {made : List TaskRow} {after : TaskStores k}
        → for_assignees t k supply members case_entity transition actor i definition assignees s
          ≡ ok (made, after)
        → IsCreated (map (planned definition) assignees) made s after
    unfolding for_assignees
    for_assignees-IsCreated i definition [] s h =
        subst (λ (p : List TaskRow × TaskStores k). IsCreated [] p.0 s p.1) (ok-injective h)
          (nothing-IsCreated s)
    for_assignees-IsCreated i definition (assignee ∷ assignees) s h =
        >>=-elim
          (create_task t k supply members case_entity transition actor i definition assignee s) _ h
          λ first e h₁.
            >>=-elim
              (for_assignees t k supply members case_entity transition actor (i + 1) definition
                assignees first.1)
              _ h₁
              λ rest e₁ h₂.
                subst
                  (λ (p : List TaskRow × TaskStores k).
                    IsCreated (map (planned definition) (assignee ∷ assignees)) p.0 s p.1)
                  (ok-injective h₂)
                  (append-IsCreated (create_task-IsCreated i definition assignee s e)
                    (for_assignees-IsCreated (i + 1) definition assignees first.1 e₁))

    assignees-plan :
        (definition : TaskCreationDefinition)
        → map
            (planned definition)
            (assignees_of t k supply members case_entity transition actor definition)
          ≡ plan_of members definition
    unfolding assignees_of plan_of TaskType-discrete
    assignees-plan definition = elim (Bool-cases (definition.task_type === member_approval_task)) [
      | inl e ↦ rw e (map-map members)
      | inr e ↦ rw e refl
    ]
      where
        map-map :
            (ids : List String)
            → map (planned definition) (map some ids) ≡ map (λ id. planned definition (some id)) ids
        map-map [] = refl
        map-map (id ∷ ids) = ap (λ l. planned definition (some id) ∷ l) (map-map ids)

    for_definitions-IsCreated :
        (i : ℕ) (definitions : List TaskCreationDefinition) (s : TaskStores k) {made : List TaskRow}
        {after : TaskStores k}
        → for_definitions t k supply members case_entity transition actor i definitions s
          ≡ ok (made, after)
        → IsCreated (plan members definitions) made s after
    unfolding for_definitions plan
    for_definitions-IsCreated i [] s h =
        subst (λ (p : List TaskRow × TaskStores k). IsCreated [] p.0 s p.1) (ok-injective h)
          (nothing-IsCreated s)
    for_definitions-IsCreated i (definition ∷ definitions) s h =
        >>=-elim
          (for_assignees t k supply members case_entity transition actor i definition
            (assignees_of t k supply members case_entity transition actor definition) s)
          _ h
          λ first e h₁.
            >>=-elim
              (for_definitions t k supply members case_entity transition actor (i + length first.0)
                definitions first.1)
              _ h₁
              λ rest e₁ h₂.
                subst
                  (λ (p : List TaskRow × TaskStores k).
                    IsCreated (plan members (definition ∷ definitions)) p.0 s p.1)
                  (ok-injective h₂)
                  (append-IsCreated
                    (subst (λ a. IsCreated a first.0 s first.1) (assignees-plan definition)
                      (for_assignees-IsCreated i definition _ s e))
                    (for_definitions-IsCreated (i + length first.0) definitions first.1 e₁))

  -- When the creation of tasks succeeds, the new tasks are those that the catalogue lists for the
  -- transition, one for each active member of the council where it lists the approval of the
  -- members; they are pending, of the case and of the transition, each is recorded by one event,
  -- and the old tasks and events stay as they were.
  pub create_tasks_for_transition-IsCreated :
      (w : World (all_tables t k)) (stubs : List TransitionTaskStub) (after : TaskStores k)
      → create_tasks_for_transition t k supply w case_entity transition actor ≡ ok (stubs, after)
      → (made : List TaskRow) × (stubs ≡ map stub_of made)
        × IsCreated
            (plan
              (in_order (list_eligible_council_member_ids (all_tables t k) w))
              (resolve_tasks_for_transition case_entity transition))
            made
            w.rest
            after
  unfolding create_tasks_for_transition
  create_tasks_for_transition-IsCreated w stubs after h =
      let members = in_order (list_eligible_council_member_ids (all_tables t k) w) in
      let definitions = resolve_tasks_for_transition case_entity transition in
      >>=-elim
        (for_definitions t k supply members case_entity transition actor 0 definitions w.rest) _ h
        λ made e h₁.
          let same = ok-injective h₁ in
          (
            made.0,
            ap (λ (p : List TransitionTaskStub × TaskStores k). p.0) (sym same),
            subst (IsCreated (plan members definitions) made.0 w.rest)
                (ap (λ (p : List TransitionTaskStub × TaskStores k). p.1) same)
                (for_definitions-IsCreated members 0 definitions w.rest e),
          )
