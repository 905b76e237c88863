-- ===== src/Audit/Publisher/Stored.antt =====
-- apps/api/src/audit/audit-event.publisher.ts: what `publish` stores, and when it refuses.
use etik_bildirim_platformu.Prelude.{
  ℕ, ◌≡◌, refl, sym, ◌∙◌, ap, ◌≢◌, ◌↔◌, inl, inr, Bool, false, String, Option, none, some, List, [],
  ◌∷◌, arith, ◌===◌, ===_iff, string_eq, option_eq, ok, throw, is_some, if◌then◌else◌, ◌&&◌, any,
  In, Bool-cases,
}
use etik_bildirim_platformu.Shared.Errors.{audit_forbidden_content}
use etik_bildirim_platformu.Storage.Table.{Table}
use etik_bildirim_platformu.Audit.Metadata.{
  find_forbidden_audit_metadata_key, IsClean, find_forbidden_iff,
}
use etik_bildirim_platformu.Audit.Publisher.{
  OutboxRow, PublishAuditEventInput, outbox_row, same_key, or_failed, publish,
}

-- No stored event has the idempotency key; an event without one never clashes.
abbrev pub IsUnused : Option String → List OutboxRow → Type 0
IsUnused none rows = Unit
IsUnused (some key) rows = (row : OutboxRow) → In row rows → row.idempotency_key ≢ some key

none_clashes : (rows : List OutboxRow) → any (λ row. false) rows ≡ false
none_clashes [] = refl
none_clashes (row ∷ rows) = none_clashes rows

key_iff :
    (key : Option String) (rows : List OutboxRow)
    → (any (λ row. is_some key && key === row.idempotency_key) rows ≡ false) ↔ IsUnused key rows
key_iff none rows = ((λ h. tt), (λ h. none_clashes rows))
key_iff (some key) [] = ((λ h row i. elim i [ ]), (λ h. refl))
key_iff (some key) (first ∷ rows) = (
  λ h.
      let here : (some key === first.idempotency_key) ≡ false = ground arith in
      let later : any (λ row. is_some (some key) && some key === row.idempotency_key) rows ≡ false =
        ground arith in
      λ row. elim [
        | inl e ↦ λ q.
            let same =
              (===_iff (some key) first.idempotency_key).1
                (sym (ap (λ (r : OutboxRow). r.idempotency_key) (sym e) ∙ q)) in
            cc
        | inr i ↦ (key_iff (some key) rows).0 later row i
      ],
  λ h.
      let here : (some key === first.idempotency_key) ≡ false =
        elim (Bool-cases (some key === first.idempotency_key)) [
          | inl e ↦
              absurd (h first (inl refl) (sym ((===_iff (some key) first.idempotency_key).0 e)))
          | inr e ↦ e
        ] in
      let later = (key_iff (some key) rows).1 (λ row i. h row (inr i)) in
      ground (arith, here, later),
)

any-same_key_iff :
    (new : OutboxRow) (rows : List OutboxRow)
    → (any (same_key new) rows ≡ false) ↔ IsUnused new.idempotency_key rows
any-same_key_iff new rows = key_iff new.idempotency_key rows

checked_iff {ℓ} :
    {A : Type ℓ} {B : Type 0} (found : Option B) (clash : Bool) (a b : A)
    → ((if is_some found
          then throw audit_forbidden_content
          else or_failed (if clash then none else some a))
        ≡ ok b)
      ↔ ((found ≡ none) × (clash ≡ false) × (b ≡ a))
checked_iff found clash a b = ground arith

module _ (outbox : Table OutboxRow) where
  -- An event is published exactly when its metadata has no forbidden key at any depth and its
  -- idempotency key, if it has one, is not that of a stored event; the outbox then has the new row
  -- and nothing else is new.
  pub publish_iff :
      (id : String) (now : ℕ) (input : PublishAuditEventInput) (store stored : outbox.Store)
      → (publish outbox id now input store ≡ ok stored) ↔ (
          IsClean input.metadata
          × IsUnused input.idempotency_key (outbox.rows store)
          × (stored ≡ outbox.insert (outbox_row id now input) store))
  unfolding publish outbox_row
  publish_iff id now input store stored =
      let same =
        checked_iff (find_forbidden_audit_metadata_key input.metadata)
          (any (same_key (outbox_row id now input)) (outbox.rows store))
          (outbox.insert (outbox_row id now input) store) stored in
      let clean = find_forbidden_iff input.metadata in
      let unused = any-same_key_iff (outbox_row id now input) (outbox.rows store) in
      (
        λ h. let (c, u, e) = same.0 h in (clean.0 c, unused.0 u, e),
        λ (c, u, e). same.1 (clean.1 c, unused.1 u, e),
      )
