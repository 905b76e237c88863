-- ===== src/Audit/Spread.antt =====
-- apps/worker/src/jobs/audit-outbox-dispatch.job.ts: the object that `buildAuditEventMetadata`
-- makes by spreading, and the cut of a message.
use Prim.Native.Nat.{suc, zero}
use Prim.Native.String.{[] as blank, ◌∷◌ as ◌∷ₛ◌, ◌++◌ as ◌++ₛ◌}
use Prim.Native.Char.{code}
use etik_bildirim_platformu.Prelude.{
  ℕ, ◌+◌, ◌/◌, ◌%◌, ◌≡◌, refl, inl, inr, String, false, Option, none, some, List, [], ◌∷◌, ◌===◌,
  string_eq, ltb, leb, truthy, if◌then◌else◌, Bool-cases, ===_iff, ===_refl,
}
use etik_bildirim_platformu.Audit.Metadata.{
  Json, null, scalar, array, object, Items, nil, cons, Fields, end, field,
}
use etik_bildirim_platformu.Audit.Publisher.{OutboxRow}

-- A later entry of the same name takes the place of the earlier one.
unfoldable pub set_field : String → Json → Fields → Fields
set_field name value end = field name value end
set_field name value (field n v fields) =
    let rest = set_field name value fields in
    if name === n then field n value fields else field n v rest

unfoldable pub get_field : String → Fields → Option Json
get_field name end = none
get_field name (field n v fields) =
    let rest = get_field name fields in if name === n then some v else rest

unfoldable pub digit : ℕ → List String → String
digit n [] = ""
digit zero (d ∷ ds) = d
digit (suc n) (d ∷ ds) = digit n ds

-- The key of an array's element, with fuel for the digits.
abbrev pub decimal : ℕ → ℕ → String
unfolding digit
decimal zero n = ""
decimal (suc fuel) n =
    let rest = decimal fuel (n / 10) in
    let last = digit (n % 10) ("0" ∷ "1" ∷ "2" ∷ "3" ∷ "4" ∷ "5" ∷ "6" ∷ "7" ∷ "8" ∷ "9" ∷ []) in
    if ltb n 10 then last else rest ++ₛ last

abbrev pub indexed : ℕ → Items → Fields
indexed i nil = end
indexed i (cons value items) = field (decimal (suc i) i) value (indexed (i + 1) items)

-- `base`: what is no object counts as an empty one.
unfoldable pub base_fields : Json → Fields
base_fields null = end
base_fields (scalar text) = end
base_fields (array items) = indexed 0 items
base_fields (object fields) = fields

abbrev pub set_present : String → Option String → Fields → Fields
set_present name none fields = fields
set_present name (some text) fields = set_field name (scalar text) fields

unfoldable pub build_audit_event_metadata : OutboxRow → Json
unfolding base_fields
build_audit_event_metadata outbox = object (
    set_present "idempotencyKey" (truthy outbox.idempotency_key) (
      set_present "companyId" (truthy outbox.company_id) (
        set_present "caseId" (truthy outbox.case_id) (
          set_present "resourceId" (truthy outbox.resource_id) (
            set_present "resourceType" (truthy outbox.resource_type) (
              set_field "sourceOutboxId" (scalar outbox.id) (base_fields outbox.metadata_json)))))))

-- The value at `path: ['sourceOutboxId']`, when it is a text or number.
abbrev pub text_of : Option Json → Option String
text_of (some (scalar text)) = some text
text_of _ = none

unfoldable pub source_outbox_id : Json → Option String
unfolding get_field
source_outbox_id (object fields) = text_of (get_field "sourceOutboxId" fields)
source_outbox_id _ = none

-- `text.slice(0, n)`, in UTF-16 units; half a surrogate pair is left out.
unfoldable pub first_units : ℕ → String → String
first_units n blank = blank
first_units zero (c ∷ₛ text) = blank
first_units (suc zero) (c ∷ₛ text) =
    let rest = first_units 0 text in if leb 65536 (code c) then blank else c ∷ₛ rest
first_units (suc (suc n)) (c ∷ₛ text) =
    let pair = first_units n text in
    let single = first_units (suc n) text in if leb 65536 (code c) then c ∷ₛ pair else c ∷ₛ single

pub get_field-set_field :
    (name : String) (value : Json) (fields : Fields)
    → get_field name (set_field name value fields) ≡ some value
unfolding set_field get_field
get_field-set_field name value end = rw (===_refl name) refl
get_field-set_field name value (field n v fields) = elim (Bool-cases (name === n)) [
  | inl e ↦ rw (e, e) refl
  | inr e ↦ rw (e, e) (get_field-set_field name value fields)
]

pub get_field-set_field-other :
    (other name : String) (value : Json) (fields : Fields)
    → (other === name) ≡ false
    → get_field other (set_field name value fields) ≡ get_field other fields
unfolding set_field get_field
get_field-set_field-other other name value end h = rw h refl
get_field-set_field-other other name value (field n v fields) h =
    let rest = get_field-set_field-other other name value fields h in
    elim (Bool-cases (name === n)) [
      | inl e ↦
          let same = (===_iff name n).0 e in
          let k : (other === n) ≡ false = rw same at h in rw (e, k) refl
      | inr e ↦ elim (Bool-cases (other === n)) [ inl k ↦ rw (e, k) refl | inr k ↦ rw (e, k) rest ]
    ]

get_field-set_present :
    (other name : String) (value : Option String) (fields : Fields)
    → (other === name) ≡ false
    → get_field other (set_present name value fields) ≡ get_field other fields
get_field-set_present other name none fields h = refl
get_field-set_present other name (some text) fields h =
    get_field-set_field-other other name (scalar text) fields h

-- The event of a row names the row as its source, whatever the row's own metadata are.
pub source-build_audit_event_metadata :
    (outbox : OutboxRow) → source_outbox_id (build_audit_event_metadata outbox) ≡ some outbox.id
unfolding source_outbox_id build_audit_event_metadata
source-build_audit_event_metadata outbox =
    rw
      (
        get_field-set_present "sourceOutboxId" "idempotencyKey" (truthy outbox.idempotency_key) _
            refl,
        get_field-set_present "sourceOutboxId" "companyId" (truthy outbox.company_id) _ refl,
        get_field-set_present "sourceOutboxId" "caseId" (truthy outbox.case_id) _ refl,
        get_field-set_present "sourceOutboxId" "resourceId" (truthy outbox.resource_id) _ refl,
        get_field-set_present "sourceOutboxId" "resourceType" (truthy outbox.resource_type) _ refl,
        get_field-set_field "sourceOutboxId" (scalar outbox.id) (base_fields outbox.metadata_json),
      )
      refl
