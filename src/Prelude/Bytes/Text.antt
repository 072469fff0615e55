-- ===== src/Prelude/Bytes/Text.antt =====
-- The functions of Go's `strings` that the program calls, on ASCII text.
use d7024e_lab.Prelude.Bytes.Defs.{Bytes, bytes_eq}
use Prim.Native.Nat.{ℕ, ◌+◌}
use Prim.Native.Char.{code}
use Prim.Native.String.{String}
use mathlib.Core.Path.{◌≡◌, refl}
use mathlib.Core.Bool.{Bool, true, false, ◌&&◌, ◌||◌}
use mathlib.Core.List.{List, [], ◌∷◌, ◌++◌, map, reverse, reverse-reverse}
use native.Mathlib.Omega.{arith}
use d7024e_lab.Prelude.Lists.{All, All-reverse}
use d7024e_lab.Prelude.Tests.{leb, ◌==◌, if◌then◌else◌}

-- The bytes of a literal.
abbrev pub text : String → Bytes
text String.[] = []
text (String.◌∷◌ c s) = code c ∷ text s

unfoldable pub is_space : ℕ → Bool
is_space c = c == 32 || (leb 9 c && leb c 13)

unfoldable pub lower_byte : ℕ → ℕ
lower_byte c = if leb b'A' c && leb c b'Z' then c + 32 else c

unfoldable pub to_lower : Bytes → Bytes
unfolding lower_byte
to_lower = map lower_byte

unfoldable pub trim_left : (ℕ → Bool) → Bytes → Bytes
trim_left p [] = []
trim_left p (c ∷ cs) = let rest = trim_left p cs in if p c then rest else c ∷ cs

unfoldable pub trim_right : (ℕ → Bool) → Bytes → Bytes
unfolding trim_left
trim_right p s = reverse (trim_left p (reverse s))

unfoldable pub trim_space : Bytes → Bytes
unfolding trim_left trim_right is_space
trim_space s = trim_right is_space (trim_left is_space s)

unfoldable pub equal_fold : Bytes → Bytes → Bool
unfolding to_lower
equal_fold a b = bytes_eq (to_lower a) (to_lower b)

unfoldable pub has_prefix : Bytes → Bytes → Bool
has_prefix s [] = true
has_prefix [] (p ∷ ps) = false
has_prefix (c ∷ cs) (p ∷ ps) = c == p && has_prefix cs ps

unfoldable pub contains : Bytes → Bytes → Bool
unfolding has_prefix
contains [] sub = has_prefix [] sub
contains (c ∷ cs) sub = has_prefix (c ∷ cs) sub || contains cs sub

-- `strings.Split` at a one-byte separator: the first part, and the parts after it.
unfoldable pub split_parts : ℕ → Bytes → Bytes × List Bytes
split_parts sep [] = ([], [])
split_parts sep (c ∷ cs) =
    let (part, parts) = split_parts sep cs in
    if c == sep then ([], part ∷ parts) else (c ∷ part, parts)

unfoldable pub split : ℕ → Bytes → List Bytes
unfolding split_parts
split sep s = let (part, parts) = split_parts sep s in part ∷ parts

lower_byte_idem : (c : ℕ) → lower_byte (lower_byte c) ≡ lower_byte c
unfolding lower_byte
lower_byte_idem c = ground arith

pub to_lower_idem : (s : Bytes) → to_lower (to_lower s) ≡ to_lower s
unfolding to_lower
to_lower_idem [] = refl
to_lower_idem (c ∷ cs) = cc (lower_byte_idem c, to_lower_idem cs)

pub trim_left_clean : (p : ℕ → Bool) (s : Bytes) → All (λ c. p c ≡ false) s → trim_left p s ≡ s
unfolding trim_left
trim_left_clean p [] h = refl
trim_left_clean p (c ∷ cs) h = rw h.0

pub trim_right_clean : (p : ℕ → Bool) (s : Bytes) → All (λ c. p c ≡ false) s → trim_right p s ≡ s
unfolding trim_right
trim_right_clean p s h =
    rw (trim_left_clean p (reverse s) (All-reverse (λ c. p c ≡ false) s h)) (reverse-reverse s)

-- A text with no white space is its own trimmed form.
pub trim_space_clean : (s : Bytes) → All (λ c. is_space c ≡ false) s → trim_space s ≡ s
unfolding trim_space trim_right
trim_space_clean s h =
    rw
      (
        trim_left_clean is_space s h,
        trim_left_clean is_space (reverse s) (All-reverse (λ c. is_space c ≡ false) s h),
      )
      (reverse-reverse s)

split_parts_clean :
    (sep : ℕ) (s : Bytes) → All (λ c. (c == sep) ≡ false) s → split_parts sep s ≡ (s, [])
unfolding split_parts
split_parts_clean sep [] h = refl
split_parts_clean sep (c ∷ cs) h = rw (split_parts_clean sep cs h.1, h.0)

split_parts_step :
    (sep : ℕ) (s rest : Bytes)
    → All (λ c. (c == sep) ≡ false) s
    → split_parts sep (s ++ (sep ∷ rest)) ≡ (s, split sep rest)
unfolding split_parts split
split_parts_step sep [] rest h = ground arith
split_parts_step sep (c ∷ cs) rest h = rw (split_parts_step sep cs rest h.1, h.0)

-- A text with no separator is one part.
pub split_clean : (sep : ℕ) (s : Bytes) → All (λ c. (c == sep) ≡ false) s → split sep s ≡ s ∷ []
unfolding split
split_clean sep s h = rw (split_parts_clean sep s h)

-- What stands before the first separator is the first part.
pub split_step :
    (sep : ℕ) (s rest : Bytes)
    → All (λ c. (c == sep) ≡ false) s
    → split sep (s ++ (sep ∷ rest)) ≡ s ∷ split sep rest
split_step sep s rest h = unfold split in rw (split_parts_step sep s rest h)
