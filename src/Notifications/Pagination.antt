-- ===== src/Notifications/Pagination.antt =====
-- apps/api/src/modules/notification/notification-pagination.util.ts. How a cursor is written as
-- text, and how the database orders ids, are parameters.
use etik_bildirim_platformu.Prelude.{
  ℕ, String, ◌≡◌, Bool, true, false, ◌&&◌, ◌||◌, Option, some, ltb, nat_beq,
}

pub record NotificationRow : Type 0 where
  pub id : String
  pub user_id : String
  pub template_code : String
  pub title : String
  pub body : String
  pub case_id : Option String
  pub task_id : Option String
  pub is_read : Bool
  pub read_at : Option ℕ
  pub created_at : ℕ

pub record NotificationListCursorPayload : Type 0 where
  pub cursor_id : String
  pub cursor_created_at : ℕ

-- JSON and base64url: what was written is read as it was. Reading may fail.
pub record CursorText : Type 1 where
  pub Text : Type 0
  pub encode_notification_list_cursor : NotificationListCursorPayload → Text
  pub decode_notification_list_cursor : Text → Option NotificationListCursorPayload
  pub decode-encode :
      (payload : NotificationListCursorPayload)
      → decode_notification_list_cursor (encode_notification_list_cursor payload) ≡ some payload

-- The database's order of ids.
pub record IdOrder : Type 0 where
  pub lt : String → String → Bool
  pub lt-irreflexive : (a : String) → lt a a ≡ false
  pub lt-asymmetric : (a b : String) → lt a b ≡ true → lt b a ≡ false

-- The condition as the database reads it.
unfoldable pub build_notification_cursor_condition :
    IdOrder → NotificationListCursorPayload → NotificationRow → Bool
build_notification_cursor_condition ids cursor row =
    ltb row.created_at cursor.cursor_created_at
    || (nat_beq row.created_at cursor.cursor_created_at && ids.lt row.id cursor.cursor_id)
