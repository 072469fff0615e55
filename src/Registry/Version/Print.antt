-- ===== src/Registry/Version/Print.antt =====
-- `ParseVersion` of registry/version.go reads back what `String` prints.
use native.Mathlib.Nat.{pow-suc}
use d7024e_lab.Prelude.{
  All, All-append, Bool, Bool-cases, [], ap, arith, false, inl, inr, length, length-append, ltb,
  refl, suc, true, zero, ℕ, ◌%◌, ◌*◌, ◌++◌, ◌+◌, ◌-◌, ◌/◌, ◌<◌, ◌==◌, ◌^◌, ◌∙◌, ◌∷◌, ◌≡◌, ◌≤◌, ◌⊎◌,
}
use d7024e_lab.Prelude.Bytes.{Bytes}
use d7024e_lab.Prelude.Bytes.Text.{is_space, split, split_clean, split_step, trim_space_clean}
use d7024e_lab.Registry.Outcome.{Result, ok}
use d7024e_lab.Registry.Version.{
  IsVersion, Version, all_digits, decimal, drop_v, leading_zero, parse_part, parse_parts,
  parse_version, print, print_from, string, unless_empty,
}

decimal-append :
    (acc c : ℕ) (cs : Bytes) → decimal acc (cs ++ c ∷ []) ≡ decimal acc cs * 10 + (c - b'0')
unfolding decimal
decimal-append acc c [] = refl
decimal-append acc c (d ∷ ds) = decimal-append (acc * 10 + (d - b'0')) c ds

decimal-print_from : (f n : ℕ) → n < 10 ^ f → 0 < f → decimal 0 (print_from f n) ≡ n
unfolding decimal print_from
decimal-print_from zero n h pos = absurd (omega arith)
decimal-print_from (suc zero) n h pos =
    let small : ltb n 10 ≡ true = ground (arith, pow-suc 10 0) in rw small (omega arith)
decimal-print_from (suc (suc f)) n h pos = elim (Bool-cases (ltb n 10)) [
  | inl e ↦ rw e (omega arith)
  | inr e ↦ rw e (
      omega (
        arith,
        decimal-append 0 (b'0' + n % 10) (print_from (suc f) (n / 10)),
        decimal-print_from (suc f) (n / 10) (omega (arith, pow-suc 10 (suc f))) (omega arith),
      ))
]

abbrev Digit : ℕ → Type 0
Digit c = (b'0' ≤ c) × (c ≤ b'9')

print_from_digits : (f n : ℕ) → All Digit (print_from f n)
unfolding print_from
print_from_digits zero n = tt
print_from_digits (suc f) n = elim (Bool-cases (ltb n 10)) [
  | inl e ↦ rw e (((omega arith, ground arith), tt))
  | inr e ↦ rw e (
      All-append Digit (print_from f (n / 10)) ((b'0' + n % 10) ∷ []) (print_from_digits f (n / 10))
        ((omega arith, omega arith), tt))
]

starts_zero : Bytes → Bool
starts_zero [] = false
starts_zero (c ∷ cs) = c == b'0'

starts_zero-append : (xs ys : Bytes) → 0 < length xs → starts_zero (xs ++ ys) ≡ starts_zero xs
unfolding starts_zero
starts_zero-append [] ys h = absurd (omega arith)
starts_zero-append (x ∷ xs) ys h = refl

print_from_pos : (f n : ℕ) → 0 < f → 0 < length (print_from f n)
unfolding print_from
print_from_pos zero n h = absurd (omega arith)
print_from_pos (suc f) n h =
    ground (arith, length-append (print_from f (n / 10)) ((b'0' + n % 10) ∷ []))

not_starts_zero : (f n : ℕ) → n < 10 ^ f → 0 < n → starts_zero (print_from f n) ≡ false
unfolding print_from starts_zero
not_starts_zero zero n h pos = refl
not_starts_zero (suc zero) n h pos =
    let small : ltb n 10 ≡ true = ground (arith, pow-suc 10 0) in rw small (ground arith)
not_starts_zero (suc (suc f)) n h pos = elim (Bool-cases (ltb n 10)) [
  | inl e ↦ rw e (ground arith)
  | inr e ↦ rw e (
      starts_zero-append (print_from (suc f) (n / 10)) ((b'0' + n % 10) ∷ [])
        (print_from_pos (suc f) (n / 10) (omega arith))
      ∙ not_starts_zero (suc f) (n / 10) (omega (arith, pow-suc 10 (suc f))) (ground arith))
]

leading_zero_from : (s : Bytes) → starts_zero s ≡ false → leading_zero s ≡ false
unfolding leading_zero starts_zero
leading_zero_from [] h = refl
leading_zero_from (c ∷ []) h = refl
leading_zero_from (c ∷ d ∷ cs) h = h

leading_zero-print : (n : ℕ) → n < 2 ^ 64 → leading_zero (print n) ≡ false
unfolding print
leading_zero-print zero h = unfold leading_zero print_from in refl
leading_zero-print (suc n) h =
    leading_zero_from (print_from 20 (suc n))
      (not_starts_zero 20 (suc n) (omega arith) (omega arith))

all_digits_from : (s : Bytes) → All Digit s → all_digits s ≡ true
unfolding all_digits
all_digits_from [] h = refl
all_digits_from (c ∷ cs) h = ground (arith, all_digits_from cs h.1)

parse_part_from :
    (s : Bytes) (n : ℕ)
    → 0 < length s
    → All Digit s
    → leading_zero s ≡ false
    → decimal 0 s ≡ n
    → n < 2 ^ 64
    → parse_part s ≡ ok n
unfolding parse_part
parse_part_from [] n pos d z e h = absurd (omega arith)
parse_part_from (c ∷ cs) n pos d z e h = ground (arith, all_digits_from (c ∷ cs) d)

parse_part-print : (n : ℕ) → n < 2 ^ 64 → parse_part (print n) ≡ ok n
parse_part-print n h =
    parse_part_from (print n) n (unfold print in print_from_pos 20 n (omega arith))
      (unfold print in print_from_digits 20 n) (leading_zero-print n h)
      (unfold print in decimal-print_from 20 n (omega arith) (omega arith)) h

-- The characters of a printed version.
abbrev Plain : ℕ → Type 0
Plain c = Digit c ⊎ (c ≡ b'.')

Plain-digits : (s : Bytes) → All Digit s → All Plain s
Plain-digits [] h = tt
Plain-digits (c ∷ cs) h = (inl h.0, Plain-digits cs h.1)

print_digits : (n : ℕ) → All Digit (print n)
unfolding print
print_digits n = print_from_digits 20 n

string-Plain : (v : Version) → All Plain (string v)
unfolding string
string-Plain v =
    All-append Plain (print v.major) (b'.' ∷ (print v.minor ++ (b'.' ∷ print v.patch)))
      (Plain-digits (print v.major) (print_digits v.major))
      (
        inr refl,
        All-append Plain (print v.minor) (b'.' ∷ print v.patch)
            (Plain-digits (print v.minor) (print_digits v.minor))
            (inr refl, Plain-digits (print v.patch) (print_digits v.patch)),
      )

not_space : (s : Bytes) → All Plain s → All (λ c. is_space c ≡ false) s
unfolding is_space
not_space [] h = tt
not_space (c ∷ cs) h = (ground (arith, h.0), not_space cs h.1)

not_dot : (s : Bytes) → All Digit s → All (λ c. (c == b'.') ≡ false) s
not_dot [] h = tt
not_dot (c ∷ cs) h = (ground (arith, h.0), not_dot cs h.1)

drop_v-Plain : (s : Bytes) → All Plain s → drop_v s ≡ s
unfolding drop_v
drop_v-Plain [] h = refl
drop_v-Plain (c ∷ cs) h = ground (arith, h.0)

split-string :
    (v : Version) → split b'.' (string v) ≡ print v.major ∷ print v.minor ∷ print v.patch ∷ []
unfolding string
split-string v =
    split_step b'.' (print v.major) (print v.minor ++ (b'.' ∷ print v.patch))
      (not_dot (print v.major) (print_digits v.major))
    ∙ ap (◌∷◌ (print v.major)) (
        split_step b'.' (print v.minor) (print v.patch)
          (not_dot (print v.minor) (print_digits v.minor))
        ∙ ap (◌∷◌ (print v.minor))
            (split_clean b'.' (print v.patch) (not_dot (print v.patch) (print_digits v.patch))))

unless_empty-pos : (s : Bytes) (r : Result Version) → 0 < length s → unless_empty s r ≡ r
unfolding unless_empty
unless_empty-pos [] r h = absurd (omega arith)
unless_empty-pos (c ∷ cs) r h = refl

string_pos : (v : Version) → 0 < length (string v)
unfolding string print
string_pos v =
    omega (arith, length-append (print v.major) (b'.' ∷ (print v.minor ++ (b'.' ∷ print v.patch))))

-- A version whose parts fit 64 bits is read back from its text.
pub parse_version-string : (v : Version) → IsVersion v → parse_version (string v) ≡ ok v
unfolding parse_version parse_parts
parse_version-string v h =
    rw
      (
        trim_space_clean (string v) (not_space (string v) (string-Plain v)),
        drop_v-Plain (string v) (string-Plain v),
        unless_empty-pos (string v) (unless_empty (string v) (parse_parts (split b'.' (string v))))
            (string_pos v),
        unless_empty-pos (string v) (parse_parts (split b'.' (string v))) (string_pos v),
        split-string v,
      )
      (ground (
        arith,
        parse_part-print v.major h.major_fits,
        parse_part-print v.minor h.minor_fits,
        parse_part-print v.patch h.patch_fits,
      ))
