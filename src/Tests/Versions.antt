-- ===== src/Tests/Versions.antt =====
-- Versions and names: runs, and the properties at concrete texts.
use d7024e_lab.Registry.Version
use d7024e_lab.Prelude.{arith, refl, ◌≡◌}
use d7024e_lab.Prelude.Bytes.{bytes_eq}
use d7024e_lab.Prelude.Bytes.Text.{contains, split, text, to_lower, trim_right, trim_space}
use d7024e_lab.Registry.Domain.{
  is_valid_domain, is_valid_package_name, latest_pointer_key_string, normalize_domain,
}
use d7024e_lab.Registry.Domain.Keys.{latest_pointer_key_string-injective}
use d7024e_lab.Registry.Outcome.{err, invalid_version, ok}
use d7024e_lab.Registry.Version.{IsVersion, Version, parse_version}
use d7024e_lab.Registry.Version.Order.{compare-rank, compare_ℕ, rank}
use d7024e_lab.Registry.Version.Print.{parse_version-string}

abbrev v123 : Version.Version
v123 = record { major = 1; minor = 2; patch = 3 }

abbrev v130 : Version.Version
v130 = record { major = 1; minor = 3; patch = 0 }

v123-IsVersion : IsVersion v123
v123-IsVersion = record {
  major_fits = omega arith;
  minor_fits = omega arith;
  patch_fits = omega arith;
}

v130-IsVersion : IsVersion v130
v130-IsVersion = record {
  major_fits = omega arith;
  minor_fits = omega arith;
  patch_fits = omega arith;
}

v123_is_read : parse_version (text "v1.2.3") ≡ ok v123
unfolding parse_version trim_space split
v123_is_read = refl

leading_zero_is_rejected : parse_version (text "1.02.3") ≡ err invalid_version
unfolding parse_version trim_space split
leading_zero_is_rejected = refl

compare-rank_example : Version.compare v123 v130 ≡ compare_ℕ (rank v123) (rank v130)
compare-rank_example = compare-rank v123 v130 v123-IsVersion v130-IsVersion

parse_version-string_example : parse_version (Version.string v123) ≡ ok v123
parse_version-string_example = parse_version-string v123 v123-IsVersion

latest_pointer_key_string-injective_example :
    (normalize_domain (text "a.se") ≡ normalize_domain (text "A.se"))
    × (trim_space (text "p") ≡ trim_space (text "p"))
unfolding is_valid_domain is_valid_package_name latest_pointer_key_string normalize_domain bytes_eq
    trim_right to_lower trim_space contains split
latest_pointer_key_string-injective_example =
    latest_pointer_key_string-injective (text "a.se") (text "A.se") (text "p") (text "p") refl refl
      refl refl refl
