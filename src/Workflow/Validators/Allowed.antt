-- ===== src/Workflow/Validators/Allowed.antt =====
-- apps/api/src/modules/case-management/transition/transition.validators.ts: what a transition that
-- passes the validators has established.
use etik_bildirim_platformu.Prelude.{
  ◌≡◌, refl, ◌↔◌, ◌⊎◌, inl, inr, true, false, ◌||◌, not, Option, none, some, List, [], ◌∷◌, arith,
  String, ===_iff, string_eq, option_eq, truthy, ℕ, any_iff, >>=-eq-ok, require-eq-ok, Bool-cases,
  Option-cases, In, includes, includes_iff, ok, throw,
}
use etik_bildirim_platformu.Shared.Enums.{
  Role, role_eq, system, WorkflowCommand, assign_rapporteur, submit_rapporteur_report,
  assign_action, follow_up_reassign, member_objection, submit_to_board_review,
}
use etik_bildirim_platformu.Shared.Errors.{validation_failed}
use etik_bildirim_platformu.Storage.Rows.{CaseRow}
use etik_bildirim_platformu.Policy.Clearance.{is_clearance_sufficient}
use etik_bildirim_platformu.Workflow.Map.{
  AssignmentScope, rapporteur_scope, action_owner_scope, TransitionDefinition,
}
use etik_bildirim_platformu.Workflow.Text.{codes, trim, is_blank, is_cuid, is_uuid_v4}
use etik_bildirim_platformu.Workflow.Validators.{
  Metadata, TransitionActor, TransitionValidationContext, has_text, is_exempt, has_any_role,
  is_system_actor_allowed, validate_clearance, validate_role, validate_assignment, validate_reason,
  metadata_text, require_metadata_string, require_metadata_user_id, validate_preconditions,
  validate, done, assigned_to,
}

-- Rights over a transition come from the system's commands, or from one of the roles.
abbrev pub IsExempt : TransitionActor → TransitionDefinition → Type 0
IsExempt actor definition =
    (definition.is_system_command ≡ true)
    ⊎ ((actor.kind ≡ system) × (definition.system_allowed ≡ true))

abbrev pub HoldsRole : TransitionActor → TransitionDefinition → Type 0
HoldsRole actor definition =
    (definition.required_roles ≡ [])
    ⊎ ((role : Role) × In role definition.required_roles × In role actor.roles)

-- The user for whom the case has to be assigned, by the scope that the definition asks for; an actor
-- without a user id is asked for nothing.
abbrev pub IsAssigned : Option AssignmentScope → Option String → CaseRow → Type 0
IsAssigned (some rapporteur_scope) (some id) row = row.assigned_rapporteur_id ≡ some id
IsAssigned (some action_owner_scope) (some id) row = row.assigned_action_owner_id ≡ some id
IsAssigned _ _ row = Unit

-- A text field of the metadata that names a record.
abbrev pub NamesRecord : Metadata → String → Type 0
NamesRecord metadata field =
    (value : String) × (metadata_text metadata field ≡ some value)
    × (is_blank value ≡ false)
    × ((is_cuid (trim (codes value)) ≡ true) ⊎ (is_uuid_v4 (trim (codes value)) ≡ true))

abbrev pub HasFields : WorkflowCommand → Metadata → Type 0
HasFields assign_rapporteur metadata = NamesRecord metadata "rapporteurUserId"
HasFields submit_rapporteur_report metadata = NamesRecord metadata "rapporteurReportDocumentId"
HasFields assign_action metadata = NamesRecord metadata "actionOwnerUserId"
HasFields follow_up_reassign metadata = NamesRecord metadata "actionOwnerUserId"
HasFields submit_to_board_review metadata = NamesRecord metadata "decisionDocumentId"
HasFields member_objection metadata =
    (value : String) × (metadata_text metadata "objectionSummary" ≡ some value)
    × (is_blank value ≡ false)
HasFields _ metadata = Unit

pub record IsAllowed (context : TransitionValidationContext) : Type 0 where
  pub cleared :
      IsExempt context.actor context.definition
      ⊎ (is_clearance_sufficient context.actor.clearance_level
            context.case_entity.confidentiality_level
          ≡ true)
  pub role : IsExempt context.actor context.definition ⊎ HoldsRole context.actor context.definition
  pub assigned :
      IsAssigned context.definition.requires_assignment
        (truthy context.actor.user_id)
        context.case_entity
  pub reasoned : context.definition.requires_reason ≡ true → has_text context.reason ≡ true
  pub fields : HasFields context.command context.metadata

is_exempt_iff :
    (actor : TransitionActor) (definition : TransitionDefinition)
    → (is_exempt actor definition ≡ true) ↔ IsExempt actor definition
unfolding is_system_actor_allowed
is_exempt_iff actor definition = ground arith

has_any_role_iff :
    (required roles : List Role)
    → (has_any_role required roles ≡ true)
      ↔ ((required ≡ []) ⊎ ((role : Role) × In role required × In role roles))
has_any_role_iff [] roles = (λ h. inl refl, λ h. refl)
has_any_role_iff (first ∷ rest) roles = (
  λ h.
      let (role, i, held) = (any_iff (λ role. includes role roles) (first ∷ rest)).0 h in
      inr (role, i, (includes_iff role roles).0 held),
  elim [
    | inl none_asked ↦ cc
    | inr (role, i, held) ↦
        (any_iff (λ role. includes role roles) (first ∷ rest)).1
          (role, i, (includes_iff role roles).1 held)
  ],
)

module _ (metadata : Metadata) (field : String) where
  require_string-ok :
      (out : List ℕ)
      → require_metadata_string metadata field ≡ ok out
      → (value : String) × (metadata_text metadata field ≡ some value)
        × (is_blank value ≡ false)
        × (out ≡ trim (codes value))
  unfolding require_metadata_string
  require_string-ok out h = elim (Option-cases (metadata_text metadata field)) [
    | inl e ↦
        let bad : throw validation_failed ≡ ok out = rw (e, require_metadata_string) at h in cc
    | inr (value, e) ↦ (value, e, ground arith, ground arith)
  ]

  require_string_of :
      (value : String)
      → metadata_text metadata field ≡ some value
      → is_blank value ≡ false
      → require_metadata_string metadata field ≡ ok (trim (codes value))
  unfolding require_metadata_string
  require_string_of value e b = rw (e, require_metadata_string) (rw b)

  named_iff : (done (require_metadata_user_id metadata field) ≡ ok tt) ↔ NamesRecord metadata field
  unfolding require_metadata_user_id
  named_iff = (
    λ h.
        let (out, found, rest) = >>=-eq-ok (require_metadata_user_id metadata field) _ h in
        let (cs, read, checked) = >>=-eq-ok (require_metadata_string metadata field) _ found in
        let (value, e, filled, same) = require_string-ok cs read in
        let known : (is_cuid cs || is_uuid_v4 cs) ≡ true = ground arith in
        (value, e, filled, rw (← same) (ground arith)),
    λ (value, e, filled, known). rw (require_string_of value e filled) (ground arith),
  )

  texted_iff :
      (done (require_metadata_string metadata field) ≡ ok tt)
      ↔ ((value : String) × (metadata_text metadata field ≡ some value) × (is_blank value ≡ false))
  texted_iff = (
    λ h.
        let (out, found, rest) = >>=-eq-ok (require_metadata_string metadata field) _ h in
        let (value, e, filled, same) = require_string-ok out found in (value, e, filled),
    λ (value, e, filled). rw (require_string_of value e filled),
  )

preconditions_iff :
    (command : WorkflowCommand) (metadata : Metadata)
    → (validate_preconditions command metadata ≡ ok tt) ↔ HasFields command metadata
unfolding validate_preconditions
preconditions_iff assign_rapporteur metadata = named_iff metadata "rapporteurUserId"
preconditions_iff submit_rapporteur_report metadata =
    named_iff metadata "rapporteurReportDocumentId"
preconditions_iff assign_action metadata = named_iff metadata "actionOwnerUserId"
preconditions_iff follow_up_reassign metadata = named_iff metadata "actionOwnerUserId"
preconditions_iff submit_to_board_review metadata = named_iff metadata "decisionDocumentId"
preconditions_iff member_objection metadata = texted_iff metadata "objectionSummary"
preconditions_iff _ metadata = ((λ h. tt), (λ h. refl))

assigned_to-IsAssigned :
    (scope : Option AssignmentScope) (user_id : Option String) (row : CaseRow)
    → (assigned_to scope user_id row ≡ true) ↔ IsAssigned scope user_id row
assigned_to-IsAssigned none user_id row = ((λ h. tt), (λ h. refl))
assigned_to-IsAssigned (some rapporteur_scope) none row = ((λ h. tt), (λ h. refl))
assigned_to-IsAssigned (some action_owner_scope) none row = ((λ h. tt), (λ h. refl))
assigned_to-IsAssigned (some rapporteur_scope) (some id) row =
    ===_iff row.assigned_rapporteur_id (some id)
assigned_to-IsAssigned (some action_owner_scope) (some id) row =
    ===_iff row.assigned_action_owner_id (some id)

-- The tests of `validate`, one by one.
validate_tests :
    (context : TransitionValidationContext)
    → (validate context ≡ ok tt) ↔ (
        ((is_exempt context.actor context.definition
            || is_clearance_sufficient context.actor.clearance_level
                context.case_entity.confidentiality_level)
          ≡ true)
        × ((is_exempt context.actor context.definition
              || has_any_role context.definition.required_roles context.actor.roles)
            ≡ true)
        × (assigned_to context.definition.requires_assignment
              (truthy context.actor.user_id)
              context.case_entity
            ≡ true)
        × ((not context.definition.requires_reason || has_text context.reason) ≡ true)
        × (validate_preconditions context.command context.metadata ≡ ok tt))
unfolding validate
validate_tests context = (
  λ h.
      let (_, a, h₁) = >>=-eq-ok (validate_clearance actor definition row) _ h in
      let (_, b, h₂) = >>=-eq-ok (validate_role actor definition) _ h₁ in
      let (_, c, h₃) = >>=-eq-ok (validate_assignment actor definition row) _ h₂ in
      let (_, d, e) = >>=-eq-ok (validate_reason definition reason) _ h₃ in
      (require-eq-ok _ _ a, require-eq-ok _ _ b, require-eq-ok _ _ c, require-eq-ok _ _ d, e),
  λ (a, b, c, d, e). rw (a, b, c, d) e,
)
  where
    open context use {case_entity as row, definition, actor, reason}

pub validate_iff :
    (context : TransitionValidationContext) → (validate context ≡ ok tt) ↔ IsAllowed context
validate_iff context = (
  λ h.
      let (a, b, c, d, e) = (validate_tests context).0 h in
      record {
        cleared = ground (arith, exempt);
        role = elim (Bool-cases (is_exempt actor definition)) [
          | inl t ↦ inl (exempt.0 t)
          | inr f ↦ inr (held.0 (ground arith))
        ];
        assigned = mine.0 c;
        reasoned = λ r. ground arith;
        fields = named.0 e;
      },
  λ allowed. (validate_tests context).1 (
    ground (arith, exempt, allowed.cleared),
    elim allowed.role [ inl t ↦ rw (exempt.1 t) | inr r ↦ ground (arith, held.1 r) ],
    mine.1 allowed.assigned,
    ground (arith, allowed.reasoned),
    named.1 allowed.fields,
  ),
)
  where
    open context use {case_entity as row, definition, actor, reason}

    exempt : (is_exempt actor definition ≡ true) ↔ IsExempt actor definition
    exempt = is_exempt_iff actor definition

    held : (has_any_role definition.required_roles actor.roles ≡ true) ↔ HoldsRole actor definition
    held = has_any_role_iff definition.required_roles actor.roles

    mine :
        (assigned_to definition.requires_assignment (truthy actor.user_id) row ≡ true)
        ↔ IsAssigned definition.requires_assignment (truthy actor.user_id) row
    mine = assigned_to-IsAssigned definition.requires_assignment (truthy actor.user_id) row

    named :
        (validate_preconditions context.command context.metadata ≡ ok tt)
        ↔ HasFields context.command context.metadata
    named = preconditions_iff context.command context.metadata
