-- ===== src/Examples/NotificationExamples.antt =====
-- Runs of Notifications: two notifications on pages of one row.
use Prim.Native.String.{[] as blank, ◌∷◌ as ◌∷ₛ◌}
use Prim.Native.Char.{code}
use etik_bildirim_platformu.Prelude.{
  ℕ, ◌≡◌, refl, inl, inr, ◌||◌, ◌&&◌, String, string_eq, Bool, true, false, some, none, List, [],
  ◌∷◌, filter, ltb, nat_beq, arith,
}
use etik_bildirim_platformu.Shared.Enums.{normal}
use etik_bildirim_platformu.Policy.User.{AuthenticatedUser}
use etik_bildirim_platformu.Notifications.Pagination.{
  NotificationRow, NotificationListCursorPayload, CursorText, IdOrder,
}
use etik_bildirim_platformu.Notifications.InApp.{
  is_wanted, get_unread_count, mark_all_notifications_read,
}
use etik_bildirim_platformu.Notifications.InApp.Rows.{IsDescending}
use etik_bildirim_platformu.Notifications.InApp.Paging.{follow, follow-all}
use etik_bildirim_platformu.Notifications.InApp.Marks.{get_unread_count-mark_all_notifications_read}

-- The order by the numbers of the characters.
abbrev is_less : String → String → Bool
is_less blank blank = false
is_less blank (d ∷ₛ t) = true
is_less (c ∷ₛ s) blank = false
is_less (c ∷ₛ s) (d ∷ₛ t) =
    let rest = is_less s t in ltb (code c) (code d) || (nat_beq (code c) (code d) && rest)

is_less-irreflexive : (a : String) → is_less a a ≡ false
is_less-irreflexive blank = refl
is_less-irreflexive (c ∷ₛ s) = ground (arith, is_less-irreflexive s)

is_less-asymmetric : (a b : String) → is_less a b ≡ true → is_less b a ≡ false
is_less-asymmetric blank blank h = refl
is_less-asymmetric blank (d ∷ₛ t) h = refl
is_less-asymmetric (c ∷ₛ s) blank h = cc
is_less-asymmetric (c ∷ₛ s) (d ∷ₛ t) h = ground (arith, is_less-asymmetric s t)

abbrev ids : IdOrder
ids = record {
  lt = is_less;
  lt-irreflexive = is_less-irreflexive;
  lt-asymmetric = is_less-asymmetric;
}

abbrev texts : CursorText
texts = record {
  Text = NotificationListCursorPayload;
  encode_notification_list_cursor = λ payload. payload;
  decode_notification_list_cursor = λ payload. some payload;
  decode-encode = λ payload. refl;
}

abbrev user_of : String → AuthenticatedUser
user_of id = record {
  id = id;
  email = "";
  display_name = "";
  roles = [];
  clearance_level = normal;
  company_id = none;
  company_name = none;
  function_id = none;
  location_id = none;
  is_general_secretary = false;
}

abbrev row_of : String → String → ℕ → NotificationRow
row_of id user_id created_at = record {
  id = id;
  user_id = user_id;
  template_code = "TASK_ASSIGNED";
  title = "";
  body = "";
  case_id = none;
  task_id = none;
  is_read = false;
  read_at = none;
  created_at = created_at;
}

abbrev rows : List NotificationRow
rows = row_of "n3" "u1" 7 ∷ row_of "n2" "u1" 7 ∷ row_of "n1" "u2" 5 ∷ []

rows-IsDescending : IsDescending ids rows
rows-IsDescending =
    ((inr (refl, refl), (inl (omega arith), tt)), ((inl (omega arith), tt), (tt, tt)))

follow-all_example :
    follow texts ids 4 (user_of "u1") (record { limit = 1; is_read = none; cursor = none }) rows
    ≡ filter (is_wanted (user_of "u1") none) rows
follow-all_example = follow-all texts ids (user_of "u1") none 0 rows rows-IsDescending

get_unread_count-mark_all_notifications_read_example :
    get_unread_count (user_of "u1") (mark_all_notifications_read 9 (user_of "u1") rows) ≡ 0
get_unread_count-mark_all_notifications_read_example =
    get_unread_count-mark_all_notifications_read 9 (user_of "u1") (user_of "u1") rows
