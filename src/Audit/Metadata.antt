-- ===== src/Audit/Metadata.antt =====
-- apps/api/src/audit/audit-metadata.validator.ts and
-- packages/shared/src/constants/audit-forbidden-keys.ts: no plain content in audit metadata.
use etik_bildirim_platformu.Prelude.{
  ℕ, ◌+◌, ◌≡◌, refl, ◌↔◌, Bool, true, false, String, Option, none, some, List, [], ◌∷◌, ◌++◌, arith,
  string_eq, includes, if◌then◌else◌,
}

-- A JSON value; the fields of an object in the order of `Object.entries`.
mutual
  pub data Json : Type 0 where
    null : Json
    scalar : String → Json
    array : Items → Json
    object : Fields → Json

  pub data Items : Type 0 where
    nil : Items
    cons : Json → Items → Items

  pub data Fields : Type 0 where
    end : Fields
    field : String → Json → Fields → Fields

-- The path to a forbidden key, which the source writes as `a.b[2].c`.
pub data PathStep : Type 0 where
  key : String → PathStep
  index : ℕ → PathStep

abbrev pub audit_forbidden_metadata_keys : List String
audit_forbidden_metadata_keys =
    "report_text" ∷ "incident_description" ∷ "category_specific_data" ∷ "reporter_identity_name"
    ∷ "reporter_identity_email" ∷ "reporter_identity_phone" ∷ "reason_text" ∷ "decision_text"
    ∷ "action_response_text" ∷ "message_body" ∷ "document_content" ∷ "file_content" ∷ "plaintext"
    ∷ "password" ∷ "tracking_code_password" ∷ "token" ∷ "secret" ∷ "access_token" ∷ "refresh_token"
    ∷ "csrf_token" ∷ []

unfoldable pub is_forbidden : String → Bool
is_forbidden name = includes name audit_forbidden_metadata_keys

abbrev pub or_else {ℓ} : {A : Type ℓ} → Option A → Option A → Option A
or_else (some a) rest = some a
or_else none rest = rest

unfoldable mutual
  unfolding is_forbidden

  pub find_forbidden : Json → List PathStep → Option (List PathStep)
  find_forbidden null path = none
  find_forbidden (scalar value) path = none
  find_forbidden (array items) path = find_in_items items 0 path
  find_forbidden (object fields) path = find_in_fields fields path

  pub find_in_items : Items → ℕ → List PathStep → Option (List PathStep)
  find_in_items nil i path = none
  find_in_items (cons value items) i path =
      or_else (find_forbidden value (path ++ index i ∷ [])) (find_in_items items (i + 1) path)

  pub find_in_fields : Fields → List PathStep → Option (List PathStep)
  find_in_fields end path = none
  find_in_fields (field name value fields) path =
      if is_forbidden name
      then some (path ++ key name ∷ [])
      else or_else (find_forbidden value (path ++ key name ∷ [])) (find_in_fields fields path)

unfoldable pub find_forbidden_audit_metadata_key : Json → Option (List PathStep)
unfolding find_forbidden
find_forbidden_audit_metadata_key value = find_forbidden value []

-- No object at any depth has a forbidden key.
abbrev mutual
  pub IsClean : Json → Type 0
  IsClean null = Unit
  IsClean (scalar value) = Unit
  IsClean (array items) = AreClean items
  IsClean (object fields) = HasCleanFields fields

  pub AreClean : Items → Type 0
  AreClean nil = Unit
  AreClean (cons value items) = IsClean value × AreClean items

  pub HasCleanFields : Fields → Type 0
  HasCleanFields end = Unit
  HasCleanFields (field name value fields) =
      (is_forbidden name ≡ false) × IsClean value × HasCleanFields fields

or_else-eq-none_iff {ℓ} :
    {A : Type ℓ} (a b : Option A) → (or_else a b ≡ none) ↔ ((a ≡ none) × (b ≡ none))
or_else-eq-none_iff none b = ground arith
or_else-eq-none_iff (some a) b = ground arith

both_iff {ℓ} :
    {A : Type ℓ} {P Q : Type 0} (a b : Option A)
    → (a ≡ none) ↔ P
    → (b ≡ none) ↔ Q
    → (or_else a b ≡ none) ↔ (P × Q)
both_iff a b p q = (
  λ h. let (l, r) = (or_else-eq-none_iff a b).0 h in (p.0 l, q.0 r),
  λ (l, r). (or_else-eq-none_iff a b).1 (p.1 l, q.1 r),
)

forbidden_iff :
    (test : Bool) (found rest : Option (List PathStep)) {p : List PathStep} {P Q : Type 0}
    → found ≡ some p
    → (rest ≡ none) ↔ (P × Q)
    → ((if test then found else rest) ≡ none) ↔ ((test ≡ false) × P × Q)
forbidden_iff true found rest s h = ((λ e. cc), (λ e. cc))
forbidden_iff false found rest s h = ((λ e. (refl, (h.0 e).0, (h.0 e).1)), (λ e. h.1 (e.1, e.2)))

mutual
  unfolding find_forbidden

  find_forbidden-IsClean :
      (value : Json) (path : List PathStep) → (find_forbidden value path ≡ none) ↔ IsClean value
  find_forbidden-IsClean null path = ((λ h. tt), (λ h. refl))
  find_forbidden-IsClean (scalar text) path = ((λ h. tt), (λ h. refl))
  find_forbidden-IsClean (array items) path = items_iff items 0 path
  find_forbidden-IsClean (object fields) path = fields_iff fields path

  items_iff :
      (items : Items) (i : ℕ) (path : List PathStep)
      → (find_in_items items i path ≡ none) ↔ AreClean items
  items_iff nil i path = ((λ h. tt), (λ h. refl))
  items_iff (cons value items) i path =
      both_iff _ _ (find_forbidden-IsClean value (path ++ index i ∷ []))
        (items_iff items (i + 1) path)

  fields_iff :
      (fields : Fields) (path : List PathStep)
      → (find_in_fields fields path ≡ none) ↔ HasCleanFields fields
  fields_iff end path = ((λ h. tt), (λ h. refl))
  fields_iff (field name value fields) path =
      forbidden_iff (is_forbidden name) _ _ refl (
        both_iff _ _ (find_forbidden-IsClean value (path ++ key name ∷ []))
          (fields_iff fields path))

-- The publisher finds no forbidden key exactly when no object of the metadata has one, at any
-- depth.
pub find_forbidden_iff :
    (value : Json) → (find_forbidden_audit_metadata_key value ≡ none) ↔ IsClean value
unfolding find_forbidden_audit_metadata_key
find_forbidden_iff value = find_forbidden-IsClean value []
