-- ===== src/Registry/Version.antt =====
-- registry/version.go: semantic versions, their text and their order.
pub mod Order
pub mod Print
pub mod Read
use d7024e_lab.Prelude.{
  Bool, List, [], false, if◌then◌else◌, leb, ltb, not, suc, true, zero, ℕ, ◌%◌, ◌&&◌, ◌*◌, ◌++◌,
  ◌+◌, ◌-◌, ◌/◌, ◌<◌, ◌==◌, ◌^◌, ◌||◌, ◌∷◌,
}
use d7024e_lab.Prelude.Bytes.{Bytes}
use d7024e_lab.Prelude.Bytes.Text.{split, trim_space}
use d7024e_lab.Registry.Outcome.{Result, err, invalid_version, ok, ◌>>=◌, ◌>>◌}

pub record Version : Type 0 where
  pub major : ℕ
  pub minor : ℕ
  pub patch : ℕ

-- The three fields are `uint64`.
pub record IsVersion (v : Version) : Type 0 where
  pub major_fits : v.major < 2 ^ 64
  pub minor_fits : v.minor < 2 ^ 64
  pub patch_fits : v.patch < 2 ^ 64

is_digit : ℕ → Bool
is_digit c = leb b'0' c && leb c b'9'

all_digits : Bytes → Bool
unfolding is_digit
all_digits [] = true
all_digits (c ∷ cs) = is_digit c && all_digits cs

leading_zero : Bytes → Bool
leading_zero (c ∷ d ∷ cs) = c == b'0'
leading_zero _ = false

-- The number that decimal digits write, after those that gave `acc`.
decimal : ℕ → Bytes → ℕ
decimal acc [] = acc
decimal acc (c ∷ cs) = decimal (acc * 10 + (c - b'0')) cs

-- `strconv.ParseUint(part, 10, 64)` fails only on a number that does not fit, once the part is
-- known to be digits.
unfoldable pub parse_part : Bytes → Result ℕ
unfolding all_digits leading_zero decimal
parse_part [] = err invalid_version
parse_part (c ∷ cs) =
    let n = decimal 0 (c ∷ cs) in
    if leading_zero (c ∷ cs)
    then err invalid_version
    else if all_digits (c ∷ cs)
    then (if ltb n (2 ^ 64) then ok n else err invalid_version)
    else err invalid_version

-- At most three parts; the missing ones are 0.
unfoldable pub parse_parts : List Bytes → Result Version
unfolding parse_part
parse_parts (a ∷ []) = do x ← parse_part a; ok (record { major = x; minor = 0; patch = 0 })
parse_parts (a ∷ b ∷ []) = do
  x ← parse_part a
  y ← parse_part b
  ok (record { major = x; minor = y; patch = 0 })
parse_parts (a ∷ b ∷ c ∷ []) = do
  x ← parse_part a
  y ← parse_part b
  z ← parse_part c
  ok (record { major = x; minor = y; patch = z })
parse_parts _ = err invalid_version

drop_v : Bytes → Bytes
drop_v [] = []
drop_v (c ∷ cs) = if c == b'v' || c == b'V' then cs else c ∷ cs

-- The test for an empty rest.
unless_empty : Bytes → Result Version → Result Version
unless_empty [] r = err invalid_version
unless_empty (c ∷ cs) r = r

unfoldable pub parse_version : Bytes → Result Version
unfolding drop_v unless_empty parse_parts
parse_version s =
    let trimmed = trim_space s in
    let rest = drop_v trimmed in
    unless_empty trimmed (unless_empty rest (parse_parts (split b'.' rest)))

-- `%d`, with at most `f` digits.
unfoldable pub print_from : ℕ → ℕ → Bytes
print_from zero n = []
print_from (suc f) n =
    let rest = print_from f (n / 10) in
    if ltb n 10 then (b'0' + n) ∷ [] else rest ++ (b'0' + n % 10) ∷ []

-- A `uint64` has at most 20 digits.
unfoldable pub print : ℕ → Bytes
unfolding print_from
print n = print_from 20 n

unfoldable pub string : Version → Bytes
unfolding print
string v = print v.major ++ (b'.' ∷ (print v.minor ++ (b'.' ∷ print v.patch)))

-- The results -1, 0 and 1 of `Compare`.
pub data Comparison : Type 0 where
  below same above : Comparison

unfoldable pub compare : Version → Version → Comparison
compare v other =
    if not (v.major == other.major)
    then (if ltb v.major other.major then below else above)
    else if not (v.minor == other.minor)
    then (if ltb v.minor other.minor then below else above)
    else if not (v.patch == other.patch)
    then (if ltb v.patch other.patch then below else above)
    else same

abbrev pub is_below : Comparison → Bool
is_below below = true
is_below _ = false

abbrev pub is_above : Comparison → Bool
is_above above = true
is_above _ = false

abbrev pub is_same : Comparison → Bool
is_same same = true
is_same _ = false

unfoldable pub less_than : Version → Version → Bool
unfolding compare
less_than v other = is_below (compare v other)

unfoldable pub greater_than : Version → Version → Bool
unfolding compare
greater_than v other = is_above (compare v other)

unfoldable pub equal : Version → Version → Bool
unfolding compare
equal v other = is_same (compare v other)
