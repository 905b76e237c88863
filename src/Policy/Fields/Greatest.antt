-- ===== src/Policy/Fields/Greatest.antt =====
-- packages/policy/src/field-visibility-defaults.ts: what several roles see of a field.
use etik_bildirim_platformu.Prelude.{
  ℕ, ◌≤◌, ◌≡◌, refl, sym, ◌∙◌, ap, ◌≢◌, ◌↔◌, ◌⊎◌, inl, inr, false, List, [], ◌∷◌, map, arith,
  includes, includes_iff, In, In-map, Bool-cases, subst,
}
use etik_bildirim_platformu.Shared.Enums.{Role, council_secretary, council_chair}
use etik_bildirim_platformu.Policy.Fields.{
  CaseField, reporter_identity, FieldVisibility, visible, own_only, metadata_only, hidden,
  field_visibility_eq, FieldVisibility-discrete, get_field_visibility, greatest_of,
  resolve_field_visibility_for_roles,
}

-- How much a visibility shows, the least being `hidden`.
abbrev pub shows : FieldVisibility → ℕ
shows hidden = 0
shows metadata_only = 1
shows own_only = 2
shows visible = 3

greatest_of-le :
    (visibilities : List FieldVisibility) (v : FieldVisibility)
    → In v visibilities
    → shows v ≤ shows (greatest_of visibilities)
greatest_of-le visibilities visible i = ground (arith, (includes_iff visible visibilities).1 i)
greatest_of-le visibilities own_only i = ground (arith, (includes_iff own_only visibilities).1 i)
greatest_of-le visibilities metadata_only i =
    ground (arith, (includes_iff metadata_only visibilities).1 i)
greatest_of-le visibilities hidden i = omega arith

only_hidden :
    (v : FieldVisibility) (vs : List FieldVisibility)
    → includes visible (v ∷ vs) ≡ false
    → includes own_only (v ∷ vs) ≡ false
    → includes metadata_only (v ∷ vs) ≡ false
    → hidden ≡ v
unfolding FieldVisibility-discrete
only_hidden visible vs h k l = cc
only_hidden own_only vs h k l = cc
only_hidden metadata_only vs h k l = cc
only_hidden hidden vs h k l = refl

at_greatest :
    (v : FieldVisibility) (vs : List FieldVisibility) (found : FieldVisibility)
    → greatest_of (v ∷ vs) ≡ found
    → In found (v ∷ vs)
    → In (greatest_of (v ∷ vs)) (v ∷ vs)
at_greatest v vs found e i = subst (λ (x : FieldVisibility). In x (v ∷ vs)) (sym e) i

greatest_of-In :
    (v : FieldVisibility) (vs : List FieldVisibility) → In (greatest_of (v ∷ vs)) (v ∷ vs)
greatest_of-In v vs = elim (Bool-cases (includes visible (v ∷ vs))) [
  | inl e ↦ at_greatest v vs visible (rw e refl) ((includes_iff visible (v ∷ vs)).0 e)
  | inr e ↦ elim (Bool-cases (includes own_only (v ∷ vs))) [
    | inl k ↦ at_greatest v vs own_only (rw (e, k) refl) ((includes_iff own_only (v ∷ vs)).0 k)
    | inr k ↦ elim (Bool-cases (includes metadata_only (v ∷ vs))) [
      | inl l ↦
          at_greatest v vs metadata_only (rw (e, k, l) refl)
            ((includes_iff metadata_only (v ∷ vs)).0 l)
      | inr l ↦ at_greatest v vs hidden (rw (e, k, l) refl) (inl (only_hidden v vs e k l))
    ]
  ]
]

In-map_of {ℓ κ} :
    {A : Type ℓ} {B : Type κ} (f : A → B) (xs : List A) (y : B)
    → In y (map f xs)
    → (x : A) × In x xs × (y ≡ f x)
In-map_of f [] y i = elim i [ ]
In-map_of f (x ∷ xs) y (inl e) = (x, inl refl, e)
In-map_of f (x ∷ xs) y (inr i) = let (z, j, e) = In-map_of f xs y i in (z, inr j, e)

-- Several roles see exactly as much of a field as that of them which sees the most of it: none sees
-- more, and one of them sees as much, if there is a role at all.
pub resolve_field_visibility-greatest :
    (roles : List Role) (field : CaseField)
    → ((role : Role)
        → In role roles
        → shows (get_field_visibility role field)
          ≤ shows (resolve_field_visibility_for_roles roles field))
      × ((roles ≡ [])
          ⊎ ((role : Role) × In role roles
              × (get_field_visibility role field ≡ resolve_field_visibility_for_roles roles field)))
unfolding resolve_field_visibility_for_roles
resolve_field_visibility-greatest [] field = ((λ role i. elim i [ ]), inl refl)
resolve_field_visibility-greatest (first ∷ roles) field = (
  λ role i.
      greatest_of-le (map (λ r. get_field_visibility r field) (first ∷ roles)) _
        (In-map (λ r. get_field_visibility r field) role (first ∷ roles) i),
  inr (
      let (role, i, e) =
        In-map_of (λ r. get_field_visibility r field) (first ∷ roles) _
          (greatest_of-In (get_field_visibility first field)
            (map (λ r. get_field_visibility r field) roles)) in
      (role, i, sym e)),
)

shown_identity :
    (role : Role)
    → get_field_visibility role reporter_identity ≢ hidden
    → (council_secretary ≡ role) ⊎ (council_chair ≡ role)
unfolding get_field_visibility
shown_identity role h = ground arith

-- Who the reporter is is shown exactly where the council's secretary or its chair is among the
-- roles, whatever other roles there are.
pub reporter_identity_iff :
    (roles : List Role)
    → (resolve_field_visibility_for_roles roles reporter_identity ≢ hidden)
      ↔ (In council_secretary roles ⊎ In council_chair roles)
unfolding resolve_field_visibility_for_roles get_field_visibility
reporter_identity_iff roles =
    let (least, attained) = resolve_field_visibility-greatest roles reporter_identity in
    (
      λ h. elim attained [
        | inl no_role ↦ absurd (h (rw no_role refl))
        | inr (role, i, e) ↦ elim (shown_identity role (λ q. h (sym e ∙ q))) [
          | inl is_secretary ↦ inl (rw is_secretary i)
          | inr is_chair ↦ inr (rw is_chair i)
        ]
      ],
      λ h unseen. elim h [
        | inl i ↦
            let much = least council_secretary i in
            let little : shows (resolve_field_visibility_for_roles roles reporter_identity) ≡ 0 =
              ap shows unseen in
            omega arith
        | inr i ↦
            let much = least council_chair i in
            let little : shows (resolve_field_visibility_for_roles roles reporter_identity) ≡ 0 =
              ap shows unseen in
            omega arith
      ],
    )
