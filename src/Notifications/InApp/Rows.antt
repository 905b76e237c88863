-- ===== src/Notifications/InApp/Rows.antt =====
-- apps/api/src/modules/notification/in-app-notification.service.ts: the rows in the order of the query,
-- and the parts of a list that its pages take.
use etik_bildirim_platformu.Prelude.{
  ℕ, zero, suc, ◌≤◌, ◌<◌, ◌≡◌, refl, ap, ◌⊎◌, inl, inr, Bool, true, false, ◌&&◌, some, List, [],
  ◌∷◌, ◌++◌, All, All-In, In, filter, length, Bool-cases, arith,
}
use etik_bildirim_platformu.Audit.Dispatch.{take}
use etik_bildirim_platformu.Notifications.Pagination.{
  NotificationRow, IdOrder, build_notification_cursor_condition,
}
use etik_bildirim_platformu.Notifications.InApp.{last_row, payload_of}

module _ {ℓ} {A : Type ℓ} where
  pub take-all : (n : ℕ) (xs : List A) → length xs ≤ n → take n xs ≡ xs
  take-all zero [] h = refl
  take-all zero (x ∷ xs) h = absurd (omega arith)
  take-all (suc n) [] h = refl
  take-all (suc n) (x ∷ xs) h = ap (λ ys. x ∷ ys) (take-all n xs (omega arith))

  pub length-take-more : (n : ℕ) (xs : List A) → n < length xs → length (take (suc n) xs) ≡ suc n
  length-take-more n [] h = absurd (omega arith)
  length-take-more zero (x ∷ xs) h = refl
  length-take-more (suc n) (x ∷ xs) h = ap suc (length-take-more n xs (omega arith))

  pub take-take-suc : (n : ℕ) (xs : List A) → take n (take (suc n) xs) ≡ take n xs
  take-take-suc zero xs = refl
  take-take-suc (suc n) [] = refl
  take-take-suc (suc n) (x ∷ xs) = ap (λ ys. x ∷ ys) (take-take-suc n xs)

  pub take-split :
      (n : ℕ) (xs : List A)
      → suc n < length xs
      → (before : List A) × (x : A) × (rest : List A) × (xs ≡ before ++ x ∷ rest)
        × (take (suc n) xs ≡ before ++ x ∷ [])
  take-split n [] h = absurd (omega arith)
  take-split zero (x ∷ xs) h = ([], x, xs, refl, refl)
  take-split (suc n) (x ∷ xs) h =
      let (before, y, rest, e, t) = take-split n xs (omega arith) in
      (x ∷ before, y, rest, ap (λ ys. x ∷ ys) e, ap (λ ys. x ∷ ys) t)

  pub filter-and :
      (p q : A → Bool) (xs : List A) → filter (λ x. p x && q x) xs ≡ filter q (filter p xs)
  filter-and p q [] = refl
  filter-and p q (x ∷ xs) = elim (Bool-cases (p x)) [
    | inl e ↦ elim (Bool-cases (q x)) [
      | inl f ↦ rw (e, f) (ap (λ ys. x ∷ ys) (filter-and p q xs))
      | inr f ↦ rw (e, f) (filter-and p q xs)
    ]
    | inr e ↦ rw e (filter-and p q xs)
  ]

  pub filter-true : (p : A → Bool) (xs : List A) → All (λ x. p x ≡ true) xs → filter p xs ≡ xs
  filter-true p [] h = refl
  filter-true p (x ∷ xs) (e, h) = rw e (ap (λ ys. x ∷ ys) (filter-true p xs h))

pub last_row-append :
    (rows : List NotificationRow) (row : NotificationRow) → last_row (rows ++ row ∷ []) ≡ some row
last_row-append [] row = refl
last_row-append (r ∷ []) row = refl
last_row-append (r ∷ s ∷ rows) row = last_row-append (s ∷ rows) row

module _ (ids : IdOrder) where
  -- The order of the query.
  abbrev pub IsBefore : NotificationRow → NotificationRow → Type 0
  IsBefore x y =
      (y.created_at < x.created_at) ⊎ ((y.created_at ≡ x.created_at) × (ids.lt y.id x.id ≡ true))

  abbrev pub IsDescending : List NotificationRow → Type 0
  IsDescending [] = Unit
  IsDescending (row ∷ rows) = All (IsBefore row) rows × IsDescending rows

  abbrev pub is_after : NotificationRow → NotificationRow → Bool
  is_after x y = build_notification_cursor_condition ids (payload_of x) y

  is_after-IsBefore : (x y : NotificationRow) → IsBefore x y → is_after x y ≡ true
  unfolding build_notification_cursor_condition
  is_after-IsBefore x y (inl h) = ground arith
  is_after-IsBefore x y (inr (e, h)) = ground arith

  is_after_self : (x : NotificationRow) → is_after x x ≡ false
  unfolding build_notification_cursor_condition
  is_after_self x = ground (arith, ids.lt-irreflexive x.id)

  is_after-back : (x y : NotificationRow) → IsBefore x y → is_after y x ≡ false
  unfolding build_notification_cursor_condition
  is_after-back x y (inl h) = ground arith
  is_after-back x y (inr (e, h)) = ground (arith, ids.lt-asymmetric y.id x.id h)

  All-is_after :
      (x : NotificationRow) (rows : List NotificationRow)
      → All (IsBefore x) rows
      → All (λ y. is_after x y ≡ true) rows
  All-is_after x [] h = tt
  All-is_after x (y ∷ rows) (b, h) = (is_after-IsBefore x y b, All-is_after x rows h)

  -- The rows after one of a descending list.
  pub filter-is_after :
      (before : List NotificationRow) (x : NotificationRow) (rest : List NotificationRow)
      → IsDescending (before ++ x ∷ rest)
      → filter (is_after x) (before ++ x ∷ rest) ≡ rest
  filter-is_after [] x rest (b, d) =
      rw (is_after_self x) (filter-true (is_after x) rest (All-is_after x rest b))
  filter-is_after (r ∷ before) x rest (b, d) =
      rw (is_after-back r x (All-In (IsBefore r) (before ++ x ∷ rest) x b (In-middle before)))
        (filter-is_after before x rest d)
    where
      In-middle : (ys : List NotificationRow) → In x (ys ++ x ∷ rest)
      In-middle [] = inl refl
      In-middle (y ∷ ys) = inr (In-middle ys)

  All-filter :
      (P : NotificationRow → Type 0) (p : NotificationRow → Bool) (rows : List NotificationRow)
      → All P rows
      → All P (filter p rows)
  All-filter P p [] h = tt
  All-filter P p (r ∷ rows) (a, h) = elim (Bool-cases (p r)) [
    | inl e ↦ rw e (a, All-filter P p rows h)
    | inr e ↦ rw e (All-filter P p rows h)
  ]

  pub filter-IsDescending :
      (p : NotificationRow → Bool) (rows : List NotificationRow)
      → IsDescending rows
      → IsDescending (filter p rows)
  filter-IsDescending p [] d = tt
  filter-IsDescending p (r ∷ rows) (b, d) = elim (Bool-cases (p r)) [
    | inl e ↦ rw e (All-filter (IsBefore r) p rows b, filter-IsDescending p rows d)
    | inr e ↦ rw e (filter-IsDescending p rows d)
  ]
