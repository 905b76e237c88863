-- ===== src/MakerChecker/Checked.antt =====
-- apps/api/src/modules/admin/maker-checker: the entry that holds for an action, and who approves.
use etik_bildirim_platformu.Prelude.{
  ◌≡◌, refl, sym, ap, ◌∙◌, ◌≢◌, ◌↔◌, inl, inr, String, Option, some, List, [], ◌∷◌, ◌===◌, ===_iff,
  string_eq, In, includes, includes_iff, if◌then◌else◌, Bool-cases, Option-cases, ne_of_test, ok,
  throw, require, require-eq-ok,
}
use etik_bildirim_platformu.Shared.Enums.{Role-discrete, role_eq}
use etik_bildirim_platformu.Shared.Errors.{maker_checker_self, maker_checker_forbidden}
use etik_bildirim_platformu.Policy.User.{AuthenticatedUser}
use etik_bildirim_platformu.MakerChecker.{
  AdminActionCode, AdminActionCode-discrete, admin_action_code_eq, ActionMatrixEntry, role_assign,
  default_action_matrix, set_entry, merged_entries, reload, get_entry, entry_or_throw,
  assert_checker, domain, unknown_admin_action_code,
}

-- The entry of the last active row for the action, or that of an earlier table.
abbrev pub last_of :
    List ActionMatrixEntry → AdminActionCode → Option ActionMatrixEntry → Option ActionMatrixEntry
last_of [] code before = before
last_of (config ∷ configs) code before =
    last_of configs code (if config.action_code === code then some config else before)

get_entry-set_entry :
    (new : ActionMatrixEntry) (entries : List ActionMatrixEntry) (code : AdminActionCode)
    → get_entry (set_entry new entries) code
      ≡ (if new.action_code === code then some new else get_entry entries code)
unfolding get_entry set_entry AdminActionCode-discrete
get_entry-set_entry new [] code = refl
get_entry-set_entry new (old ∷ entries) code =
    let rest = get_entry-set_entry new entries code in
    elim (Bool-cases (old.action_code === new.action_code)) [
      | inl same ↦
          let key : old.action_code ≡ new.action_code =
            (===_iff old.action_code new.action_code).0 same in
          elim (Bool-cases (new.action_code === code)) [
            | inl e ↦ rw (same, set_entry) (rw (key, e) refl)
            | inr e ↦ rw (same, set_entry) (rw (key, e) refl)
          ]
      | inr other ↦ elim (Bool-cases (old.action_code === code)) [
        | inr e ↦ rw (other, set_entry) (rw e rest)
        | inl e ↦ elim (Bool-cases (new.action_code === code)) [
          | inr n ↦ rw (other, set_entry) (rw (e, n) refl)
          | inl n ↦
              let here : old.action_code ≡ code = (===_iff old.action_code code).0 e in
              let there : new.action_code ≡ code = (===_iff new.action_code code).0 n in
              absurd (ne_of_test old.action_code new.action_code other (here ∙ sym there))
        ]
      ]
    ]

get_entry-merged :
    (configs entries : List ActionMatrixEntry) (code : AdminActionCode)
    → get_entry (merged_entries entries configs) code
      ≡ last_of configs code (get_entry entries code)
unfolding merged_entries
get_entry-merged [] entries code = refl
get_entry-merged (config ∷ configs) entries code =
    get_entry-merged configs (set_entry config entries) code
    ∙ ap (last_of configs code) (get_entry-set_entry config entries code)

-- Every action has an entry by default.
default-entry :
    (code : AdminActionCode)
    → (e : ActionMatrixEntry) × (get_entry default_action_matrix code ≡ some e)
      × (e.action_code ≡ code)
unfolding get_entry default_action_matrix AdminActionCode-discrete
default-entry role_assign = (_, refl, refl)
default-entry _ = (_, refl, refl)

last_of-some :
    (configs : List ActionMatrixEntry) (code : AdminActionCode) (before : ActionMatrixEntry)
    → (e : ActionMatrixEntry) × (last_of configs code (some before) ≡ some e)
last_of-some [] code before = (before, refl)
last_of-some (config ∷ configs) code before = elim (Bool-cases (config.action_code === code)) [
  | inl same ↦ let (e, found) = last_of-some configs code config in (e, rw same found)
  | inr other ↦ let (e, found) = last_of-some configs code before in (e, rw other found)
]

-- After any reload, every action has an entry, so that the lookup never fails: that of the last
-- active row for the action, or the default one.
pub get_entry-reload :
    (configs : List ActionMatrixEntry) (code : AdminActionCode)
    → (e : ActionMatrixEntry) × (get_entry (reload configs) code ≡ some e)
      × (last_of configs code (get_entry default_action_matrix code) ≡ some e)
unfolding reload
get_entry-reload configs code =
    let (default, known, _) = default-entry code in
    let (e, found) = last_of-some configs code default in
    let last : last_of configs code (get_entry default_action_matrix code) ≡ some e =
      rw known found in
    (e, get_entry-merged configs default_action_matrix code ∙ last, last)

-- An approval passes exactly when the approving user is not the one who started the action and
-- holds the checker role of the action's entry.
pub assert_checker_iff :
    (entries : List ActionMatrixEntry) (checker : AuthenticatedUser) (maker_user_id : String)
    (code : AdminActionCode)
    → (assert_checker entries checker maker_user_id code ≡ ok tt) ↔ (
        (checker.id ≢ maker_user_id)
        × ((e : ActionMatrixEntry) × (get_entry entries code ≡ some e)
            × In e.checker_role checker.roles))
unfolding assert_checker Role-discrete
assert_checker_iff entries checker maker_user_id code = (
  λ h. elim (Bool-cases (checker.id === maker_user_id)) [
    | inl self ↦
        let bad : throw (domain maker_checker_self) ≡ ok tt = rw (self, assert_checker) at h in cc
    | inr self ↦ elim (Option-cases (get_entry entries code)) [
      | inl e ↦
          let bad : throw unknown_admin_action_code ≡ ok tt =
            rw (self, e, assert_checker, entry_or_throw) at h in
          cc
      | inr (found, e) ↦
          let held : require (includes found.checker_role checker.roles)
                (domain maker_checker_forbidden)
              ≡ ok tt =
            rw (self, e, assert_checker, entry_or_throw) at h in
          (
            ne_of_test checker.id maker_user_id self,
            (found, e, (includes_iff found.checker_role checker.roles).0 (require-eq-ok _ _ held)),
          )
    ]
  ],
  λ (other, (x, e, i)). elim (Bool-cases (checker.id === maker_user_id)) [
    | inl self ↦ absurd (other ((===_iff checker.id maker_user_id).0 self))
    | inr self ↦
        let held = (includes_iff x.checker_role checker.roles).1 i in
        rw (self, e, assert_checker, entry_or_throw) (rw held refl)
  ],
)
