-- ===== src/Registry/Version/Order.antt =====
-- `Compare` of registry/version.go is a strict total order, Major first, then Minor, then Patch.
use d7024e_lab.Prelude.{arith, if◌then◌else◌, ltb, ℕ, ◌*◌, ◌+◌, ◌<◌, ◌==◌, ◌^◌, ◌≡◌}
use d7024e_lab.Registry.Version.{Comparison, IsVersion, Version, above, below, compare, same}

abbrev pub limit : ℕ
limit = 2 ^ 64

-- The version as one number of 192 bits.
unfoldable pub rank : Version → ℕ
rank v = (v.major * limit + v.minor) * limit + v.patch

abbrev pub compare_ℕ : ℕ → ℕ → Comparison
compare_ℕ a b = if a == b then same else if ltb a b then below else above

-- `Compare` compares the versions as numbers of 192 bits; so it is a total order, and its result is
-- 0 exactly for equal versions.
pub compare-rank :
    (v w : Version) → IsVersion v → IsVersion w → compare v w ≡ compare_ℕ (rank v) (rank w)
unfolding compare rank
compare-rank v w hv hw = ground arith

pub compare-above :
    (v w : Version) → IsVersion v → IsVersion w → compare v w ≡ above → rank w < rank v
unfolding compare rank
compare-above v w hv hw h = ground arith
