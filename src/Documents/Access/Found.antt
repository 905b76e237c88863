-- ===== src/Documents/Access/Found.antt =====
-- apps/api/src/modules/document/document-access.service.ts: `hasActiveGrant`.
use etik_bildirim_platformu.Prelude.{
  All, ◌++◌, ap, ◌∙◌, subst, some-injective, none_of_test, none, some, ◌⊎◌, ◌===◌, ===_iff,
  string_eq, option_eq, any_iff, both, ◌&&◌, ◌||◌, ◌≡◌, ◌↔◌, refl, inl, inr, String, Bool, true,
  false, some, List, [], ◌∷◌, find, In, Bool-cases, Option-cases,
}
use etik_bildirim_platformu.Shared.Enums.{Role, role_eq}
use etik_bildirim_platformu.Policy.User.{AuthenticatedUser}
use etik_bildirim_platformu.Documents.Records.{
  DocumentGrantScope, full_access, metadata_only, DocumentGrantScope-discrete,
  document_grant_scope_eq, GrantRow,
}
use etik_bildirim_platformu.Documents.Access.{
  is_active, is_for_role, is_grant_of, allows, has_active_grant,
}

module _ (p : GrantRow → Bool) where
  find-split :
      (rows : List GrantRow) (row : GrantRow)
      → find p rows ≡ some row
      → (before : List GrantRow) × (after : List GrantRow) × (rows ≡ before ++ row ∷ after)
        × All (λ r. p r ≡ false) before
        × (p row ≡ true)
  find-split [] row h = cc
  find-split (r ∷ rows) row h = elim (Bool-cases (p r)) [
    | inl e ↦
        let same : r ≡ row = some-injective (let here : some r ≡ some row = rw e at h in here) in
        ([], rows, ap (λ x. x ∷ rows) same, tt, subst (λ x. p x ≡ true) same e)
    | inr e ↦
        let (before, after, parts, off, on) = find-split rows row (rw e at h) in
        (r ∷ before, after, ap (λ ys. r ∷ ys) parts, (e, off), on)
  ]

  find_of_split :
      (before : List GrantRow) (row : GrantRow) (after : List GrantRow)
      → All (λ r. p r ≡ false) before
      → p row ≡ true
      → find p (before ++ row ∷ after) ≡ some row
  find_of_split [] row after off on = rw on refl
  find_of_split (r ∷ before) row after (e, off) on = rw e (find_of_split before row after off on)

allows_iff :
    (required granted : DocumentGrantScope)
    → (allows required granted ≡ true) ↔ ((required ≡ metadata_only) ⊎ (granted ≡ full_access))
unfolding DocumentGrantScope-discrete
allows_iff metadata_only full_access = (λ h. inl refl, λ h. refl)
allows_iff metadata_only metadata_only = (λ h. inl refl, λ h. refl)
allows_iff full_access full_access = (λ h. inr refl, λ h. refl)
allows_iff full_access metadata_only = (λ h. cc, elim [ inl e ↦ cc | inr e ↦ cc ])

-- An active grant of a document to a user or to one of the user's roles.
pub record IsActiveGrant (user : AuthenticatedUser) (document_id : String) (grant : GrantRow)
    : Type 0 where
  pub of_document : grant.document_id ≡ document_id
  pub not_revoked : grant.revoked_at ≡ none
  pub held :
      (grant.granted_to_user_id ≡ some user.id)
      ⊎ ((role : Role) × In role user.roles × (grant.granted_to_role ≡ some role))

is_for_role_iff :
    (roles : List Role) (grant : GrantRow)
    → (is_for_role roles grant ≡ true)
      ↔ ((role : Role) × In role roles × (grant.granted_to_role ≡ some role))
is_for_role_iff roles grant = (
  λ h.
      let (role, i, e) = (any_iff (λ role. grant.granted_to_role === some role) roles).0 h in
      (role, i, (===_iff grant.granted_to_role (some role)).0 e),
  λ (role, i, e).
      (any_iff (λ role. grant.granted_to_role === some role) roles).1
        (role, i, (===_iff grant.granted_to_role (some role)).1 e),
)

is_grant_of_iff :
    (user : AuthenticatedUser) (document_id : String) (grant : GrantRow)
    → (is_grant_of user document_id grant ≡ true) ↔ IsActiveGrant user document_id grant
is_grant_of_iff user document_id grant = (
  λ h.
      let own = grant.granted_to_user_id === some user.id || is_for_role user.roles grant in
      let (first, held) = both (grant.document_id === document_id && is_active grant) own h in
      let (d, a) = both (grant.document_id === document_id) (is_active grant) first in
      record {
        of_document = (===_iff grant.document_id document_id).0 d;
        not_revoked = none_of_test grant.revoked_at a;
        held = elim (Bool-cases (grant.granted_to_user_id === some user.id)) [
          | inl e ↦ inl ((===_iff grant.granted_to_user_id (some user.id)).0 e)
          | inr e ↦ inr ((is_for_role_iff user.roles grant).0 (rw e at held))
        ];
      },
  λ q.
      let d = (===_iff grant.document_id document_id).1 q.of_document in
      rw (d, q.not_revoked)
        (elim q.held [
          | inl e ↦ rw ((===_iff grant.granted_to_user_id (some user.id)).1 e) refl
          | inr r ↦ elim (Bool-cases (grant.granted_to_user_id === some user.id)) [
            | inl e ↦ rw e refl
            | inr e ↦ rw e ((is_for_role_iff user.roles grant).1 r)
          ]
        ]),
)

All-iff-false :
    (p : GrantRow → Bool) (P : GrantRow → Type 0) (rows : List GrantRow)
    → ((r : GrantRow) → (p r ≡ true) ↔ P r)
    → All (λ r. p r ≡ false) rows ↔ All (λ r. P r → ⊥) rows
All-iff-false p P [] same = (λ h. tt, λ h. tt)
All-iff-false p P (r ∷ rows) same = (
  λ (e, h). (λ q. let on = (same r).1 q in cc, (All-iff-false p P rows same).0 h),
  λ (inactive, h). (
    elim (Bool-cases (p r)) [ inl on ↦ absurd (inactive ((same r).0 on)) | inr off ↦ off ],
    (All-iff-false p P rows same).1 h,
  ),
)

-- The first grant of a document that is active and to the user or one of the user's roles has a
-- scope that is enough: any for the metadata, full access for the document.
pub record IsGranting (user : AuthenticatedUser) (document_id : String)
    (required : DocumentGrantScope) (grants : List GrantRow) : Type 0 where
  pub before : List GrantRow
  pub grant : GrantRow
  pub after : List GrantRow
  pub parts : grants ≡ before ++ grant ∷ after
  pub none_before : All (λ r. IsActiveGrant user document_id r → ⊥) before
  pub active : IsActiveGrant user document_id grant
  pub enough : (required ≡ metadata_only) ⊎ (grant.grant_scope ≡ full_access)

-- A document, or its metadata, is open to a user exactly when the first grant of that document
-- which is not revoked and is to the user or to one of the user's roles gives full access, or any
-- access where the metadata alone is asked for.
pub has_active_grant_iff :
    (user : AuthenticatedUser) (document_id : String) (required : DocumentGrantScope)
    (grants : List GrantRow)
    → (has_active_grant user document_id required grants ≡ true)
      ↔ IsGranting user document_id required grants
unfolding has_active_grant
has_active_grant_iff user document_id required grants =
    let p = is_grant_of user document_id in
    let same = All-iff-false p (IsActiveGrant user document_id) in
    (
      λ h. elim (Option-cases (find p grants)) [
        | inl e ↦ let bad : false ≡ true = rw (has_active_grant, e) at h in cc
        | inr (grant, e) ↦
            let (before, after, parts, off, on) = find-split p grants grant e in
            record {
              before = before;
              grant = grant;
              after = after;
              parts = parts;
              none_before = (same before (is_grant_of_iff user document_id)).0 off;
              active = (is_grant_of_iff user document_id grant).0 on;
              enough = (allows_iff required grant.grant_scope).0 (rw (has_active_grant, e) at h);
            }
      ],
      λ q.
          let found : find p grants ≡ some q.grant =
            ap (find p) q.parts
            ∙ find_of_split p q.before q.grant q.after
                ((same q.before (is_grant_of_iff user document_id)).1 q.none_before)
                ((is_grant_of_iff user document_id q.grant).1 q.active) in
          rw (has_active_grant, found) ((allows_iff required q.grant.grant_scope).1 q.enough),
    )
