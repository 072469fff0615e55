-- ===== src/Registry/Version/Read.antt =====
-- The texts that `ParseVersion` of registry/version.go accepts.
use d7024e_lab.Prelude.{List, [], arith, inl, inr, ℕ, ◌<◌, ◌^◌, ◌∷◌, ◌≡◌, ◌⊎◌}
use d7024e_lab.Prelude.Bytes.{Bytes}
use d7024e_lab.Prelude.Bytes.Text.{split, trim_space}
use d7024e_lab.Registry.Outcome.{Error, Result, Result-cases, err, ok}
use d7024e_lab.Registry.Version.{
  IsVersion, Version, drop_v, parse_part, parse_parts, parse_version, string, unless_empty,
}
use d7024e_lab.Registry.Version.Print.{parse_version-string}

parse_part-lt : (s : Bytes) (n : ℕ) → parse_part s ≡ ok n → n < 2 ^ 64
unfolding parse_part
parse_part-lt [] n h = cc
parse_part-lt (c ∷ cs) n h = ground arith

abbrev Reads : Bytes → Type 0
Reads s = ((e : Error) × (parse_part s ≡ err e)) ⊎ ((n : ℕ) × (parse_part s ≡ ok n) × (n < 2 ^ 64))

reads : (s : Bytes) → Reads s
reads s = elim (Result-cases (parse_part s)) [
  | inl e ↦ inl e
  | inr (n, h) ↦ inr (n, h, parse_part-lt s n h)
]

parse_parts_one : (a : Bytes) (v : Version) → Reads a → parse_parts (a ∷ []) ≡ ok v → IsVersion v
unfolding parse_parts
parse_parts_one a v (inl (e, q)) h = absurd (ground (arith, q))
parse_parts_one a v (inr (n, q, lt)) h = ground (arith, q, lt)

parse_parts_two :
    (a b : Bytes) (v : Version) → Reads a → Reads b → parse_parts (a ∷ b ∷ []) ≡ ok v → IsVersion v
unfolding parse_parts
parse_parts_two a b v (inl (e, q)) rb h = absurd (ground (arith, q))
parse_parts_two a b v (inr (n, q, lt)) (inl (e, r)) h = absurd (ground (arith, q, r))
parse_parts_two a b v (inr (n, q, lt)) (inr (m, r, lt')) h = ground (arith, q, lt, r, lt')

parse_parts_three :
    (a b c : Bytes) (v : Version)
    → Reads a
    → Reads b
    → Reads c
    → parse_parts (a ∷ b ∷ c ∷ []) ≡ ok v
    → IsVersion v
unfolding parse_parts
parse_parts_three a b c v (inl (e, q)) rb rc h = absurd (ground (arith, q))
parse_parts_three a b c v (inr (n, q, lt)) (inl (e, r)) rc h = absurd (ground (arith, q, r))
parse_parts_three a b c v (inr (n, q, lt)) (inr (m, r, lt')) (inl (e, s)) h =
    absurd (ground (arith, q, r, s))
parse_parts_three a b c v (inr (n, q, lt)) (inr (m, r, lt')) (inr (k, s, lt'')) h =
    ground (arith, q, lt, r, lt', s, lt'')

parse_parts-IsVersion : (ps : List Bytes) (v : Version) → parse_parts ps ≡ ok v → IsVersion v
unfolding parse_parts
parse_parts-IsVersion [] v h = cc
parse_parts-IsVersion (a ∷ []) v h = parse_parts_one a v (reads a) h
parse_parts-IsVersion (a ∷ b ∷ []) v h = parse_parts_two a b v (reads a) (reads b) h
parse_parts-IsVersion (a ∷ b ∷ c ∷ []) v h =
    parse_parts_three a b c v (reads a) (reads b) (reads c) h
parse_parts-IsVersion (a ∷ b ∷ c ∷ d ∷ ds) v h = cc

-- The parts of a version that was read fit 64 bits.
pub parse_version-IsVersion : (s : Bytes) (v : Version) → parse_version s ≡ ok v → IsVersion v
unfolding parse_version
parse_version-IsVersion s v h = parse_parts-IsVersion (split b'.' (drop_v (trim_space s))) v (
    unwrap (drop_v (trim_space s)) (parse_parts (split b'.' (drop_v (trim_space s)))) v (
      unwrap (trim_space s)
        (unless_empty (drop_v (trim_space s)) (parse_parts (split b'.' (drop_v (trim_space s))))) v
        h))
  where
    unwrap : (r : Bytes) (p : Result Version) (w : Version) → unless_empty r p ≡ ok w → p ≡ ok w
    unwrap r p w = elim r as (λ x. unless_empty x p ≡ ok w → p ≡ ok w) [
      | [] ↦ λ e. cc
      | c ∷ cs ↦ λ e. e
    ]

-- Printing a version that was read gives a canonical text: it reads as the same version.
pub parse_version-canonical :
    (s : Bytes) (v : Version) → parse_version s ≡ ok v → parse_version (string v) ≡ ok v
parse_version-canonical s v h = parse_version-string v (parse_version-IsVersion s v h)
