-- ===== src/Notifications/InApp/Marks.antt =====
-- apps/api/src/modules/notification/in-app-notification.service.ts: what is unread after all of a
-- user's notifications were marked as read.
use etik_bildirim_platformu.Prelude.{
  ℕ, suc, ◌≡◌, refl, ap, sym, ◌∙◌, inl, inr, ◌===◌, ===_iff, string_eq, false, not, some, List, [],
  ◌∷◌, filter, length, if◌then◌else◌, Bool-cases, both,
}
use etik_bildirim_platformu.Storage.Table.{update_rows}
use etik_bildirim_platformu.Policy.User.{AuthenticatedUser}
use etik_bildirim_platformu.Notifications.Pagination.{NotificationRow}
use etik_bildirim_platformu.Notifications.InApp.{
  is_wanted, read_now, get_unread_count, mark_all_notifications_read,
}

read_now-unwanted :
    (now : ℕ) (user : AuthenticatedUser) (row : NotificationRow)
    → is_wanted user (some false) (read_now now row) ≡ false
read_now-unwanted now user row = elim (Bool-cases (row.user_id === user.id)) [
  | inl e ↦ rw e refl
  | inr e ↦ rw e refl
]

module _ (now : ℕ) (user other : AuthenticatedUser) where
  count-mine :
      (rows : List NotificationRow)
      → other.id ≡ user.id
      → length (
          filter
            (is_wanted other (some false))
            (update_rows (is_wanted user (some false)) (read_now now) rows))
        ≡ 0
  count-mine [] same = refl
  count-mine (r ∷ rows) same = elim (Bool-cases (is_wanted user (some false) r)) [
    | inl e ↦ rw (e, read_now-unwanted now other r) (count-mine rows same)
    | inr e ↦
        let off : is_wanted other (some false) r ≡ false = rw same e in
        rw (e, off) (count-mine rows same)
  ]

  count-others :
      (rows : List NotificationRow)
      → (other.id === user.id) ≡ false
      → length (
          filter
            (is_wanted other (some false))
            (update_rows (is_wanted user (some false)) (read_now now) rows))
        ≡ length (filter (is_wanted other (some false)) rows)
  count-others [] apart = refl
  count-others (r ∷ rows) apart = elim (Bool-cases (is_wanted user (some false) r)) [
    | inl e ↦
        let mine =
          (===_iff r.user_id user.id).0 (both (r.user_id === user.id) (not r.is_read) e).0 in
        let off : is_wanted other (some false) r ≡ false =
          elim (Bool-cases (r.user_id === other.id)) [
            | inl q ↦
                let bad =
                  (===_iff other.id user.id).1 (sym ((===_iff r.user_id other.id).0 q) ∙ mine) in
                cc
            | inr q ↦ rw q refl
          ] in
        rw (e, read_now-unwanted now other r, off) (count-others rows apart)
    | inr e ↦ elim (Bool-cases (is_wanted other (some false) r)) [
      | inl q ↦ rw (e, q) (ap suc (count-others rows apart))
      | inr q ↦ rw (e, q) (count-others rows apart)
    ]
  ]

  -- Once all of a user's notifications were marked as read the user has none unread, and the
  -- number of every other user is as it was.
  pub get_unread_count-mark_all_notifications_read :
      (rows : List NotificationRow)
      → get_unread_count other (mark_all_notifications_read now user rows)
        ≡ (if other.id === user.id then 0 else get_unread_count other rows)
  unfolding get_unread_count mark_all_notifications_read
  get_unread_count-mark_all_notifications_read rows = elim (Bool-cases (other.id === user.id)) [
    | inl e ↦ rw e (count-mine rows ((===_iff other.id user.id).0 e))
    | inr e ↦ rw e (count-others rows e)
  ]
