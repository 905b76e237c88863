-- ===== src/Audit/Chain/Links.antt =====
-- apps/worker/src/audit/audit-chain-verifier.ts: what a valid chain is, and which changes show.
use etik_bildirim_platformu.Prelude.{
  ℕ, ◌+◌, ◌≤◌, ◌≡◌, refl, ap, subst, sym, ◌∙◌, ◌≢◌, ◌↔◌, inl, inr, String, Bool, true, false, not,
  Option, none, some, List, [], ◌∷◌, ◌++◌, arith, ◌===◌, ===_iff, string_eq, option_eq, length,
  is_some, truthy, Bool-cases, some-injective, ◌⊎◌, if◌then◌else◌,
}
use etik_bildirim_platformu.Audit.Chain.{
  ChainRow, ChainReport, broken_at, verify_from, verify, run, run_if_due,
}

-- Every row has a hash, the first has no previous hash, and wherever two rows stand next to each
-- other the second has the hash of the first as its previous one.
pub record IsLinked (rows : List ChainRow) : Type 0 where
  pub hashed :
      (front back : List ChainRow) (row : ChainRow)
      → rows ≡ front ++ row ∷ back
      → is_some (truthy row.event_hash) ≡ true
  pub first : (back : List ChainRow) (row : ChainRow) → rows ≡ row ∷ back → row.prev_hash ≡ none
  pub next :
      (front back : List ChainRow) (row after : ChainRow)
      → rows ≡ front ++ row ∷ after ∷ back
      → after.prev_hash ≡ row.event_hash

-- The same by recursion.
abbrev Follows : Option String → List ChainRow → Type 0
Follows previous [] = Unit
Follows previous (row ∷ rows) =
    (row.prev_hash ≡ previous)
    × (is_some (truthy row.event_hash) ≡ true)
    × Follows row.event_hash rows

chosen_iff :
    (linked hashed rest : Bool)
    → ((if not linked then false else (if not hashed then false else rest)) ≡ true)
      ↔ ((linked ≡ true) × (hashed ≡ true) × (rest ≡ true))
chosen_iff linked hashed rest = ground arith

verify_from_iff :
    (count : ℕ) (previous : Option String) (rows : List ChainRow)
    → ((verify_from count previous rows).valid ≡ true) ↔ Follows previous rows
unfolding verify_from
verify_from_iff count previous [] = ((λ h. tt), (λ h. refl))
verify_from_iff count previous (row ∷ rows) =
    let rest = verify_from_iff count row.event_hash rows in
    let same = ===_iff row.prev_hash previous in ground (arith, rest, same)

-- The hash before the rows is given.
record IsLinkedFrom (previous : Option String) (rows : List ChainRow) : Type 0 where
  hashed :
      (front back : List ChainRow) (row : ChainRow)
      → rows ≡ front ++ row ∷ back
      → is_some (truthy row.event_hash) ≡ true
  first : (back : List ChainRow) (row : ChainRow) → rows ≡ row ∷ back → row.prev_hash ≡ previous
  next :
      (front back : List ChainRow) (row after : ChainRow)
      → rows ≡ front ++ row ∷ after ∷ back
      → after.prev_hash ≡ row.event_hash

IsLinkedFrom-Follows :
    (previous : Option String) (rows : List ChainRow)
    → IsLinkedFrom previous rows
    → Follows previous rows
IsLinkedFrom-Follows previous [] h = tt
IsLinkedFrom-Follows previous (row ∷ rows) h = (
  h.first rows row refl,
  h.hashed [] rows row refl,
  IsLinkedFrom-Follows row.event_hash rows (record {
    hashed = λ front back r e. h.hashed (row ∷ front) back r (ap (λ rs. row ∷ rs) e);
    first = λ back r e. h.next [] back row r (ap (λ rs. row ∷ rs) e);
    next = λ front back r after e. h.next (row ∷ front) back r after (ap (λ rs. row ∷ rs) e);
  }),
)

Follows-hashed :
    (previous : Option String) (front back : List ChainRow) (row : ChainRow)
    → Follows previous (front ++ row ∷ back)
    → is_some (truthy row.event_hash) ≡ true
Follows-hashed previous [] back row (p, h, rest) = h
Follows-hashed previous (r ∷ front) back row (p, h, rest) =
    Follows-hashed r.event_hash front back row rest

Follows-next :
    (previous : Option String) (front back : List ChainRow) (row after : ChainRow)
    → Follows previous (front ++ row ∷ after ∷ back)
    → after.prev_hash ≡ row.event_hash
Follows-next previous [] back row after (p, h, (q, hashed, rest)) = q
Follows-next previous (r ∷ front) back row after (p, h, rest) =
    Follows-next r.event_hash front back row after rest

Follows-IsLinked : (rows : List ChainRow) → Follows none rows ↔ IsLinked rows
Follows-IsLinked rows = (
  λ h. record {
    hashed = λ front back row e. Follows-hashed none front back row (subst (Follows none) e h);
    first = λ back row e. (subst (Follows none) e h).0;
    next =
        λ front back row after e. Follows-next none front back row after (subst (Follows none) e h);
  },
  λ h.
      IsLinkedFrom-Follows none rows (record { hashed = h.hashed; first = h.first; next = h.next }),
)

-- The verification calls a chain valid exactly when every row has a hash, the first has no
-- previous hash, and every other row has the hash of the row before it as its previous one.
pub verify_iff : (rows : List ChainRow) → ((verify rows).valid ≡ true) ↔ IsLinked rows
unfolding verify verify_from
verify_iff [] = ((λ h. (Follows-IsLinked []).0 tt), (λ h. refl))
verify_iff (row ∷ rows) =
    let same = verify_from_iff (length (row ∷ rows)) none (row ∷ rows) in
    let linked = Follows-IsLinked (row ∷ rows) in
    ((λ h. linked.0 (same.0 h)), (λ h. same.1 (linked.1 h)))

verify_from-removed :
    (count : ℕ) (previous : Option String) (front back : List ChainRow) (removed after : ChainRow)
    → Follows previous (front ++ removed ∷ after ∷ back)
    → removed.event_hash ≢ removed.prev_hash
    → verify_from count previous (front ++ after ∷ back) ≡ broken_at count after.id
unfolding verify_from
verify_from-removed count previous [] back removed after (p, h, (q, hashed, rest)) apart =
    elim (Bool-cases (after.prev_hash === previous)) [
      | inl e ↦ absurd (apart (sym q ∙ (===_iff after.prev_hash previous).0 e ∙ sym p))
      | inr e ↦ rw e refl
    ]
verify_from-removed count previous (r ∷ front) back removed after (p, h, rest) apart =
    let here : (r.prev_hash === previous) ≡ true = (===_iff r.prev_hash previous).1 p in
    rw (here, h) (verify_from-removed count r.event_hash front back removed after rest apart)

verify-eq : (rows : List ChainRow) → verify rows ≡ verify_from (length rows) none rows
unfolding verify verify_from
verify-eq [] = refl
verify-eq (row ∷ rows) = refl

-- When a row other than the last, whose hash is not the one before it, is taken out of a valid
-- chain, the verification stops at the row that follows it.
pub verify-removed :
    (front back : List ChainRow) (removed after : ChainRow)
    → (verify (front ++ removed ∷ after ∷ back)).valid ≡ true
    → removed.event_hash ≢ removed.prev_hash
    → verify (front ++ after ∷ back) ≡ broken_at (length (front ++ after ∷ back)) after.id
verify-removed front back removed after valid apart = rw (verify-eq (front ++ after ∷ back)) (
    verify_from-removed _ none front back removed after
      ((Follows-IsLinked _).1 ((verify_iff _).0 valid)) apart)

reported :
    {A : Type 0} (early : Bool) (last now at : ℕ) (report made : A)
    → ◌≡◌ {A = Option A × ℕ} (if early then (none, last) else (some made, now)) (some report, at)
    → (early ≡ false) × (report ≡ made) × (at ≡ now)
reported true last now at report made h = cc
reported false last now at report made h = (
  refl,
  sym (some-injective (ap (λ (p : Option _ × ℕ). p.0) h)),
  sym (ap (λ (p : Option _ × ℕ). p.1) h),
)

-- The job makes a report only on its first run or at the interval after the one before at the
-- soonest, remembers the time, and then raises the alarm exactly when the chain is not linked.
pub run_if_due-alarm :
    (interval now last at : ℕ) (rows : List ChainRow) (report : ChainReport)
    → run_if_due interval now rows last ≡ (some report, at)
    → (at ≡ now)
      × ((last ≡ 0) ⊎ (last + interval ≤ now))
      × ((report.alarm_raised ≡ false) ↔ IsLinked rows)
unfolding run_if_due run
run_if_due-alarm interval now last at rows report h =
    let (due, same, time) = reported _ last now at report _ h in
    let linked = verify_iff rows in
    let raised : ((if (verify rows).valid then false else true) ≡ false)
        ↔ ((verify rows).valid ≡ true) =
      ground arith in
    let alarm : report.alarm_raised ≡ (if (verify rows).valid then false else true) =
      ap (λ (r : ChainReport). r.alarm_raised) same in
    (
      time,
      ground (arith, due),
      (λ e. linked.0 (raised.0 (sym alarm ∙ e)), λ k. alarm ∙ raised.1 (linked.1 k)),
    )
