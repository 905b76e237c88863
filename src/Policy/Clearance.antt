-- ===== src/Policy/Clearance.antt =====
-- packages/policy/src/abac-rules.ts (the clearance functions) and
-- packages/shared/src/clearance/clearance-rank.util.ts.
use etik_bildirim_platformu.Prelude.{
  ℕ, ◌≡◌, ◌↔◌, Bool, true, false, ◌&&◌, List, [], ◌∷◌, arith, leb, ltb, ◌===◌, filter, includes,
}
use etik_bildirim_platformu.Shared.Enums.{
  ClearanceLevel, normal, sensitive, strictly_confidential, ClearanceLevel-discrete,
  clearance_level_eq,
}

unfoldable pub get_clearance_rank : ClearanceLevel → ℕ
get_clearance_rank normal = 0
get_clearance_rank sensitive = 1
get_clearance_rank strictly_confidential = 2

unfoldable pub is_clearance_sufficient : ClearanceLevel → ClearanceLevel → Bool
unfolding get_clearance_rank
is_clearance_sufficient user_clearance resource_clearance =
    leb (get_clearance_rank resource_clearance) (get_clearance_rank user_clearance)

abbrev pub clearance_level_values : List ClearanceLevel
clearance_level_values = normal ∷ sensitive ∷ strictly_confidential ∷ []

unfoldable pub get_allowed_clearance_levels : ClearanceLevel → List ClearanceLevel
unfolding get_clearance_rank
get_allowed_clearance_levels user_clearance =
    let user_rank = get_clearance_rank user_clearance in
    filter (λ level. leb (get_clearance_rank level) user_rank) clearance_level_values

-- The ranks of `packages/shared`, which start at 1.
unfoldable pub shared_clearance_rank : ClearanceLevel → ℕ
shared_clearance_rank normal = 1
shared_clearance_rank sensitive = 2
shared_clearance_rank strictly_confidential = 3

unfoldable pub is_clearance_upgrade : ClearanceLevel → ClearanceLevel → Bool
unfolding shared_clearance_rank
is_clearance_upgrade current_level target_level =
    ltb (shared_clearance_rank current_level) (shared_clearance_rank target_level)

unfoldable pub requires_strictly_confidential_maker_checker : ClearanceLevel → ClearanceLevel → Bool
unfolding is_clearance_upgrade ClearanceLevel-discrete
requires_strictly_confidential_maker_checker current_level target_level =
    target_level === strictly_confidential && is_clearance_upgrade current_level target_level

-- A level is among the allowed levels of a user exactly when the user's clearance is sufficient
-- for it.
pub get_allowed_clearance_levels_iff :
    (user level : ClearanceLevel)
    → includes level (get_allowed_clearance_levels user) ≡ is_clearance_sufficient user level
unfolding get_allowed_clearance_levels is_clearance_sufficient ClearanceLevel-discrete
get_allowed_clearance_levels_iff normal normal = ground arith
get_allowed_clearance_levels_iff _ _ = ground arith

-- The two rank tables agree: a change of level is an upgrade exactly when the old clearance is
-- not sufficient for the new level.
pub is_clearance_upgrade_iff :
    (current target : ClearanceLevel)
    → (is_clearance_upgrade current target ≡ true)
      ↔ (is_clearance_sufficient current target ≡ false)
unfolding is_clearance_upgrade is_clearance_sufficient
is_clearance_upgrade_iff current target = ground arith

-- A clearance that suffices for one level suffices for every level that the first suffices for.
pub is_clearance_sufficient_trans :
    (a b c : ClearanceLevel)
    → is_clearance_sufficient a b ≡ true
    → is_clearance_sufficient b c ≡ true
    → is_clearance_sufficient a c ≡ true
unfolding is_clearance_sufficient
is_clearance_sufficient_trans a b c h k = ground arith

-- Maker-checker approval is asked for exactly when the target level is the highest one and the
-- current clearance is not sufficient for it.
pub requires_maker_checker_iff :
    (current target : ClearanceLevel)
    → (requires_strictly_confidential_maker_checker current target ≡ true)
      ↔ ((target ≡ strictly_confidential) × (is_clearance_sufficient current target ≡ false))
unfolding requires_strictly_confidential_maker_checker is_clearance_sufficient
requires_maker_checker_iff current target = ground arith
