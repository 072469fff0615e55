-- ===== src/Registry/Domain.antt =====
-- Names of the package registry: `NormalizeDomain` of registry/dns.go, `IsValidDomain` of
-- registry/keymanager.go, `IsValidPackageName` and the key of a latest pointer of
-- registry/record.go. The two regular expressions are written out as tests.
pub mod Keys
use d7024e_lab.Prelude.{
  Bool, List, [], false, if◌then◌else◌, leb, length, ltb, not, true, ℕ, ◌&&◌, ◌++◌, ◌==◌, ◌||◌, ◌∷◌,
}
use d7024e_lab.Prelude.Bytes.{Bytes, bytes_eq}
use d7024e_lab.Prelude.Bytes.Hex.{hex_encode}
use d7024e_lab.Prelude.Bytes.Text.{contains, split, text, to_lower, trim_right, trim_space}

is_letter_or_digit : ℕ → Bool
is_letter_or_digit c =
    (leb b'0' c && leb c b'9') || ((leb b'a' c && leb c b'z') || (leb b'A' c && leb c b'Z'))

all : (ℕ → Bool) → Bytes → Bool
all p [] = true
all p (c ∷ cs) = p c && all p cs

-- The last character satisfies `p`.
last_is : (ℕ → Bool) → Bytes → Bool
last_is p [] = false
last_is p (c ∷ []) = p c
last_is p (c ∷ d ∷ cs) = last_is p (d ∷ cs)

first_is : (ℕ → Bool) → Bytes → Bool
first_is p [] = false
first_is p (c ∷ cs) = p c

unfoldable pub normalize_domain : Bytes → Bytes
normalize_domain domain = trim_right (λ c. c == b'.') (to_lower (trim_space domain))

in_label : ℕ → Bool
unfolding is_letter_or_digit
in_label c = is_letter_or_digit c || c == b'-'

-- `[a-zA-Z0-9]([a-zA-Z0-9-]{0,61}[a-zA-Z0-9])?`
is_label : Bytes → Bool
unfolding in_label all first_is last_is
is_label s =
    leb (length s) 63
    && (all in_label s && (first_is is_letter_or_digit s && last_is is_letter_or_digit s))

all_labels : List Bytes → Bool
unfolding is_label
all_labels [] = true
all_labels (s ∷ ss) = is_label s && all_labels ss

-- `domainNameRegex`: labels joined by dots.
matches_domain : Bytes → Bool
unfolding all_labels
matches_domain s = all_labels (split b'.' s)

unfoldable pub is_valid_domain : Bytes → Bool
unfolding normalize_domain matches_domain
is_valid_domain domain =
    let norm = normalize_domain domain in
    if bytes_eq norm []
      || ltb 253 (length norm)
      || contains norm (text "/")
      || contains norm (text "\\")
      || contains norm (text "..")
    then false
    else matches_domain norm

in_package : ℕ → Bool
unfolding is_letter_or_digit
in_package c = is_letter_or_digit c || (c == b'.' || (c == b'_' || c == b'-'))

-- `packageNameRegex`
matches_package : Bytes → Bool
unfolding in_package all first_is last_is
matches_package s =
    leb (length s) 128
    && (all in_package s && (first_is is_letter_or_digit s && last_is is_letter_or_digit s))

unfoldable pub is_valid_package_name : Bytes → Bool
unfolding matches_package
is_valid_package_name name =
    let pkg = trim_space name in
    not (bytes_eq pkg [])
    && (leb (length pkg) 128 && (not (contains pkg (text "..")) && matches_package pkg))

-- `domain:package:latest`
unfoldable pub latest_pointer_key_string : Bytes → Bytes → Bytes
unfolding normalize_domain
latest_pointer_key_string domain pkg =
    normalize_domain domain ++ (text ":" ++ (trim_space pkg ++ text ":latest"))

module _ (sha256 : Bytes → Bytes) where
  unfoldable pub latest_pointer_dht_key_bytes : Bytes → Bytes → Bytes
  latest_pointer_dht_key_bytes domain pkg = sha256 (latest_pointer_key_string domain pkg)

  unfoldable pub latest_pointer_dht_key : Bytes → Bytes → Bytes
  latest_pointer_dht_key domain pkg = hex_encode (sha256 (latest_pointer_key_string domain pkg))
