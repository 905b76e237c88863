-- ===== src/Notifications/InApp/Paging.antt =====
-- apps/api/src/modules/notification/in-app-notification.service.ts: the pages of the list, read one
-- after the other.
use etik_bildirim_platformu.Prelude.{
  ℕ, zero, suc, ◌+◌, ◌≤◌, ◌<◌, ◌≡◌, refl, ap, sym, ◌∙◌, subst, inl, inr, Bool, true, false, ◌&&◌,
  Option, none, some, List, [], ◌∷◌, ◌++◌, append-nil, append_assoc, Outcome, ok, throw, filter,
  length, ltb, Bool-cases, ltb_iff, arith,
}
use etik_bildirim_platformu.Shared.Errors.{ErrorCode}
use etik_bildirim_platformu.Policy.User.{AuthenticatedUser}
use etik_bildirim_platformu.Audit.Dispatch.{take}
use etik_bildirim_platformu.Notifications.Pagination.{NotificationRow, CursorText, IdOrder}
use etik_bildirim_platformu.Notifications.InApp.{
  ListNotificationsQuery, NotificationPage, is_wanted, payload_of, after_cursor, page_of,
  list_notifications,
}
use etik_bildirim_platformu.Notifications.InApp.Rows.{
  take-all, length-take-more, take-take-suc, take-split, filter-and, last_row-append, IsDescending,
  is_after, filter-is_after, filter-IsDescending,
}

module _ (texts : CursorText) (ids : IdOrder) where
  page_of-last :
      (limit : ℕ) (rows : List NotificationRow)
      → length rows ≤ limit
      → page_of texts ids limit (take (suc limit) rows)
        ≡ record { data_rows = rows; next_cursor = none; has_more = false }
  unfolding page_of
  page_of-last limit rows h =
      let no : ltb limit (length rows) ≡ false = ground (arith, ltb_iff limit (length rows)) in
      rw (page_of, take-all (suc limit) rows (omega arith), no) refl

  page_of-more :
      (limit : ℕ) (rows : List NotificationRow)
      → suc limit < length rows
      → (before : List NotificationRow) × (x : NotificationRow) × (rest : List NotificationRow)
        × (rows ≡ before ++ x ∷ rest)
        × (page_of texts ids (suc limit) (take (suc (suc limit)) rows) ≡ record {
          data_rows = before ++ x ∷ [];
          next_cursor = some (texts.encode_notification_list_cursor (payload_of x));
          has_more = true;
        })
  unfolding page_of
  page_of-more limit rows h =
      let (before, x, rest, e, t) = take-split limit rows h in
      let yes : ltb (suc limit) (suc (suc limit)) ≡ true =
        (ltb_iff (suc limit) (suc (suc limit))).1 (omega arith) in
      (
        before,
        x,
        rest,
        e,
        rw
            (
              page_of,
              length-take-more (suc limit) rows h,
              yes,
              take-take-suc (suc limit) rows,
              t,
              last_row-append before x,
            )
            refl,
      )

  abbrev follow_next :
      (texts.Text → List NotificationRow) → Option texts.Text → List NotificationRow
  follow_next next none = []
  follow_next next (some written) = next written

  abbrev follow_answer :
      (texts.Text → List NotificationRow)
      → Outcome ErrorCode (NotificationPage texts.Text)
      → List NotificationRow
  follow_answer next (throw code) = []
  follow_answer next (ok page) = page.data_rows ++ follow_next next page.next_cursor

  -- A client that follows the cursors, as often as `fuel` says.
  unfoldable pub follow :
      ℕ
      → AuthenticatedUser
      → ListNotificationsQuery texts.Text
      → List NotificationRow
      → List NotificationRow
  follow zero user query rows = []
  follow (suc fuel) user query rows =
      follow_answer (λ written. follow fuel user (record query { cursor = some written }) rows)
        (list_notifications texts ids user query rows)

  length-rest :
      (before : List NotificationRow) (x : NotificationRow) (rest : List NotificationRow)
      → length rest < length (before ++ x ∷ rest)
  length-rest [] x rest = omega arith
  length-rest (y ∷ before) x rest = omega (arith, length-rest before x rest)

  module _ (user : AuthenticatedUser) (flag : Option Bool) (l : ℕ)
      (rows : List NotificationRow) where
    abbrev wanted : List NotificationRow
    wanted = filter (is_wanted user flag) rows

    abbrev query_at : Option texts.Text → ListNotificationsQuery texts.Text
    query_at cursor = record { limit = suc l; is_read = flag; cursor = cursor }

    list_notifications-page :
        (cursor : Option texts.Text) (after : NotificationRow → Bool) (left : List NotificationRow)
        → after_cursor texts ids cursor ≡ ok after
        → filter (λ row. is_wanted user flag row && after row) rows ≡ left
        → list_notifications texts ids user (query_at cursor) rows
          ≡ ok (page_of texts ids (suc l) (take (suc (suc l)) left))
    unfolding list_notifications
    list_notifications-page cursor after left a w =
        let more : suc l + 1 ≡ suc (suc l) = omega arith in rw (list_notifications, a, w, more) refl

    follow-left :
        (fuel : ℕ) (cursor : Option texts.Text) (after : NotificationRow → Bool)
        (seen left : List NotificationRow)
        → after_cursor texts ids cursor ≡ ok after
        → filter (λ row. is_wanted user flag row && after row) rows ≡ left
        → wanted ≡ seen ++ left
        → IsDescending ids wanted
        → length left < fuel
        → follow fuel user (query_at cursor) rows ≡ left
    unfolding follow after_cursor
    follow-left zero cursor after seen left a w s d h = absurd (omega arith)
    follow-left (suc fuel) cursor after seen left a w s d h =
        let continue : texts.Text → List NotificationRow =
          λ written. follow fuel user (query_at (some written)) rows in
        let page = list_notifications-page cursor after left a w in
        elim (Bool-cases (ltb (suc l) (length left))) [
          | inr e ↦
              let few : length left ≤ suc l = ground (arith, ltb_iff (suc l) (length left)) in
              ap (follow_answer continue) (page ∙ ap ok (page_of-last (suc l) left few))
              ∙ append-nil left
          | inl e ↦
              let (before, x, rest, whole, here) =
                page_of-more l left ((ltb_iff (suc l) (length left)).0 e) in
              let split : wanted ≡ (seen ++ before) ++ x ∷ rest =
                s ∙ ap (λ ys. seen ++ ys) whole ∙ sym (append_assoc seen before (x ∷ rest)) in
              let later : filter (λ row. is_wanted user flag row && is_after ids x row) rows
                  ≡ rest =
                filter-and (is_wanted user flag) (is_after ids x) rows
                ∙ ap (filter (is_after ids x)) split
                ∙ filter-is_after ids (seen ++ before) x rest (subst (IsDescending ids) split d) in
              let next =
                follow-left fuel (some (texts.encode_notification_list_cursor (payload_of x)))
                  (is_after ids x) ((seen ++ before) ++ x ∷ []) rest
                  (rw (after_cursor, texts.decode-encode (payload_of x)) refl) later
                  (split ∙ sym (append_assoc (seen ++ before) (x ∷ []) rest)) d
                  (let fewer : length rest < length left =
                      subst (λ ys. length rest < length ys) (sym whole)
                        (length-rest before x rest) in
                    omega arith) in
              ap (follow_answer continue) (page ∙ ap ok here)
              ∙ ap (λ ys. (before ++ x ∷ []) ++ ys) next
              ∙ append_assoc before (x ∷ []) rest
              ∙ sym whole
        ]

    -- Following the cursors from the first page, as often as there are rows and once more, gives
    -- every notification that the query asks for once, in the order of the query, provided that
    -- the rows are in that order, and whatever the size of the pages is.
    pub follow-all :
        IsDescending ids rows
        → follow (suc (length rows)) user (query_at none) rows ≡ filter (is_wanted user flag) rows
    unfolding after_cursor
    follow-all d =
        follow-left (suc (length rows)) none (λ row. true) [] wanted refl
          (filter-and (is_wanted user flag) (λ row. true) rows ∙ filter-always wanted) refl
          (filter-IsDescending ids (is_wanted user flag) rows d) (length-filter-lt rows)
      where
        filter-always : (xs : List NotificationRow) → filter (λ row. true) xs ≡ xs
        filter-always [] = refl
        filter-always (x ∷ xs) = ap (λ ys. x ∷ ys) (filter-always xs)

        length-filter-lt :
            (xs : List NotificationRow) → length (filter (is_wanted user flag) xs) < suc (length xs)
        length-filter-lt [] = omega arith
        length-filter-lt (x ∷ xs) = elim (Bool-cases (is_wanted user flag x)) [
          | inl e ↦ rw e (omega (arith, length-filter-lt xs))
          | inr e ↦ rw e (omega (arith, length-filter-lt xs))
        ]
