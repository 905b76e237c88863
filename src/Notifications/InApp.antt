-- ===== src/Notifications/InApp.antt =====
-- apps/api/src/modules/notification/in-app-notification.service.ts, on the list of the rows in the
-- order in which the list's query reads them: the newest first, those of one time by their ids.
pub mod Rows
pub mod Paging
pub mod Marks
use etik_bildirim_platformu.Prelude.{
  ℕ, ◌+◌, String, ◌===◌, string_eq, Bool, true, false, not, ◌&&◌, Option, none, some, List, [], ◌∷◌,
  ◌++◌, Outcome, ◌>>=◌, ok, throw, filter, find, length, ltb, if◌then◌else◌, zero, suc, Eq,
}
use etik_bildirim_platformu.Shared.Errors.{
  ErrorCode, validation_failed, notification_not_found, resource_not_found,
}
use etik_bildirim_platformu.Storage.Table.{update_rows}
use etik_bildirim_platformu.Policy.User.{AuthenticatedUser}
use etik_bildirim_platformu.Audit.Dispatch.{take}
use etik_bildirim_platformu.Notifications.Pagination.{
  NotificationRow, NotificationListCursorPayload, CursorText, IdOrder,
  build_notification_cursor_condition,
}

abbrev pub same_flag : Bool → Bool → Bool
same_flag true b = b
same_flag false b = not b

pub record ListNotificationsQuery (Text : Type 0) : Type 0 where
  pub limit : ℕ
  pub is_read : Option Bool
  pub cursor : Option Text

pub record NotificationPage (Text : Type 0) : Type 0 where
  pub data_rows : List NotificationRow
  pub next_cursor : Option Text
  pub has_more : Bool

abbrev pub has_flag : Option Bool → NotificationRow → Bool
has_flag none row = true
has_flag (some flag) row = same_flag flag row.is_read

abbrev pub is_wanted : AuthenticatedUser → Option Bool → NotificationRow → Bool
is_wanted user flag row = row.user_id === user.id && has_flag flag row

-- `at(-1)`
abbrev pub last_row : List NotificationRow → Option NotificationRow
last_row [] = none
last_row (row ∷ []) = some row
last_row (row ∷ next ∷ rows) = last_row (next ∷ rows)

abbrev pub payload_of : NotificationRow → NotificationListCursorPayload
payload_of row = record { cursor_id = row.id; cursor_created_at = row.created_at }

module _ (texts : CursorText) (ids : IdOrder) where
  -- The cursor of the query, read; a text that is no cursor is refused.
  unfoldable pub after_cursor : Option texts.Text → Outcome ErrorCode (NotificationRow → Bool)
  after_cursor none = ok (λ row. true)
  after_cursor (some written) = elim (texts.decode_notification_list_cursor written) [
    | none ↦ throw validation_failed
    | some cursor ↦ ok (build_notification_cursor_condition ids cursor)
  ]

  abbrev pub next_of : Bool → Option NotificationRow → Option texts.Text
  next_of true (some row) = some (texts.encode_notification_list_cursor (payload_of row))
  next_of _ _ = none

  unfoldable pub page_of : ℕ → List NotificationRow → NotificationPage texts.Text
  page_of limit rows =
      let more = ltb limit (length rows) in
      let page_rows = if more then take limit rows else rows in
      record {
        data_rows = page_rows;
        next_cursor = next_of more (last_row page_rows);
        has_more = more;
      }

  unfoldable pub list_notifications :
      AuthenticatedUser
      → ListNotificationsQuery texts.Text
      → List NotificationRow
      → Outcome ErrorCode (NotificationPage texts.Text)
  list_notifications user query rows = do
    after ← after_cursor query.cursor
    ok (
        page_of query.limit (
          take (query.limit + 1)
            (filter (λ row. is_wanted user query.is_read row && after row) rows)))

unfoldable pub get_unread_count : AuthenticatedUser → List NotificationRow → ℕ
get_unread_count user rows = length (filter (is_wanted user (some false)) rows)

abbrev pub read_now : ℕ → NotificationRow → NotificationRow
read_now now row = record row { is_read = true; read_at = some now }

abbrev pub is_notification : AuthenticatedUser → String → NotificationRow → Bool
is_notification user notification_id row = row.id === notification_id && row.user_id === user.id

unfoldable pub mark_notification_read :
    ℕ → AuthenticatedUser → String → List NotificationRow → Outcome ErrorCode (List NotificationRow)
mark_notification_read now user notification_id rows =
    elim (find (is_notification user notification_id) rows) [
      | none ↦ throw notification_not_found
      | some notification ↦
          if notification.is_read
          then ok rows
          else ok (update_rows (λ row. row.id === notification.id) (read_now now) rows)
    ]

unfoldable pub mark_all_notifications_read :
    ℕ → AuthenticatedUser → List NotificationRow → List NotificationRow
mark_all_notifications_read now user rows =
    update_rows (is_wanted user (some false)) (read_now now) rows

pub record CreateInAppNotificationInput : Type 0 where
  pub user_id : String
  pub template_code : String
  pub title : String
  pub body : String
  pub case_id : Option String
  pub task_id : Option String

pub record NotificationTemplateRow : Type 0 where
  pub template_code : String
  pub is_active : Bool

abbrev pub notification_row : String → ℕ → CreateInAppNotificationInput → NotificationRow
notification_row id now input = record {
  id = id;
  user_id = input.user_id;
  template_code = input.template_code;
  title = input.title;
  body = input.body;
  case_id = input.case_id;
  task_id = input.task_id;
  is_read = false;
  read_at = none;
  created_at = now;
}

-- Where the query of the list finds a new row.
unfoldable pub place : IdOrder → NotificationRow → List NotificationRow → List NotificationRow
place ids row [] = row ∷ []
place ids row (r ∷ rows) =
    let rest = place ids row rows in
    if build_notification_cursor_condition ids (payload_of row) r then row ∷ r ∷ rows else r ∷ rest

unfoldable pub create_in_app_notification :
    IdOrder
    → List NotificationTemplateRow
    → String
    → ℕ
    → CreateInAppNotificationInput
    → List NotificationRow
    → Outcome ErrorCode (NotificationRow × List NotificationRow)
create_in_app_notification ids templates id now input rows =
    elim (find (λ template. template.template_code === input.template_code) templates) [
      | none ↦ throw resource_not_found
      | some template ↦
          if template.is_active
          then ok (notification_row id now input, place ids (notification_row id now input) rows)
          else throw resource_not_found
    ]
