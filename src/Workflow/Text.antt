-- ===== src/Workflow/Text.antt =====
-- apps/api/src/modules/case-management/transition/transition.validators.ts: `trim` and the two
-- patterns for record identifiers, over the code points of a text.
use Prim.Native.Char.{code}
use etik_bildirim_platformu.Prelude.{
  ℕ, zero, suc, String, Bool, true, false, ◌&&◌, ◌||◌, List, [], ◌∷◌, ◌-◌, leb, nat_beq,
  if◌then◌else◌,
}
use mathlib.Core.List.{reverse}

abbrev pub codes : String → List ℕ
codes String.[] = []
codes (String.◌∷◌ c s) = code c ∷ codes s

-- The white space and line ends that `String.prototype.trim` removes.
is_space : ℕ → Bool
is_space c =
    (leb 9 c && leb c 13)
    || nat_beq c 32
    || nat_beq c 160
    || nat_beq c 5760
    || (leb 8192 c && leb c 8202)
    || nat_beq c 8232
    || nat_beq c 8233
    || nat_beq c 8239
    || nat_beq c 8287
    || nat_beq c 12288
    || nat_beq c 65279

trim_start : List ℕ → List ℕ
unfolding is_space
trim_start [] = []
trim_start (c ∷ cs) = if is_space c then trim_start cs else c ∷ cs

unfoldable pub trim : List ℕ → List ℕ
unfolding trim_start
trim cs = reverse (trim_start (reverse (trim_start cs)))

abbrev is_empty : List ℕ → Bool
is_empty [] = true
is_empty (_ ∷ _) = false

-- `text.trim().length === 0`
unfoldable pub is_blank : String → Bool
unfolding trim
is_blank text = is_empty (trim (codes text))

is_digit : ℕ → Bool
is_digit c = leb b'0' c && leb c b'9'

-- A letter from `a` to the last one, of either case.
is_letter_to : ℕ → ℕ → Bool
is_letter_to last c = (leb b'a' c && leb c last) || (leb b'A' c && leb c (last - 32))

is_alnum : ℕ → Bool
unfolding is_digit is_letter_to
is_alnum c = is_digit c || is_letter_to b'z' c

is_hex : ℕ → Bool
unfolding is_digit is_letter_to
is_hex c = is_digit c || is_letter_to b'f' c

-- `{n}` of a class, then the rest of the pattern.
times : ℕ → (ℕ → Bool) → (List ℕ → Bool) → List ℕ → Bool
times zero class rest cs = rest cs
times (suc n) class rest [] = false
times (suc n) class rest (c ∷ cs) = class c && times n class rest cs

-- `/^c[a-z0-9]{24}$/i`
unfoldable pub is_cuid : List ℕ → Bool
unfolding times is_alnum
is_cuid cs = times 1 (λ c. nat_beq c b'c' || nat_beq c b'C') (times 24 is_alnum is_empty) cs

-- `[89ab]`
is_variant : ℕ → Bool
is_variant c =
    nat_beq c b'8'
    || nat_beq c b'9'
    || nat_beq c b'a'
    || nat_beq c b'b'
    || nat_beq c b'A'
    || nat_beq c b'B'

abbrev is_dash : ℕ → Bool
is_dash c = nat_beq c b'-'

-- `/^[0-9a-f]{8}-[0-9a-f]{4}-4[0-9a-f]{3}-[89ab][0-9a-f]{3}-[0-9a-f]{12}$/i`
unfoldable pub is_uuid_v4 : List ℕ → Bool
unfolding times is_hex is_variant
is_uuid_v4 cs =
    times 8 is_hex
      (times 1 is_dash (
        times 4 is_hex (
          times 1 is_dash (
            times 1 (λ c. nat_beq c b'4')
              (times 3 is_hex (
                times 1 is_dash (
                  times 1 is_variant
                    (times 3 is_hex (times 1 is_dash (times 12 is_hex is_empty))))))))))
      cs
