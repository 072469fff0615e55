-- ===== src/Registry/Validator.antt =====
-- registry/validator.go: the checks that a latest pointer passes before it is accepted, and the
-- walk along its chain of version records.
pub mod Chain
pub mod Fuel
pub mod Sound
pub mod Package
pub mod Accepted
pub mod Acceptance
use d7024e_lab.Registry.Version
use d7024e_lab.Prelude.{
  Bool, List, Option, [], false, if◌then◌else◌, leb, length, none, not, reverse, some, suc, true,
  zero, ℕ, ◌&&◌, ◌==◌, ◌||◌, ◌∷◌,
}
use d7024e_lab.Prelude.Bytes.{Bytes, bytes_eq}
use d7024e_lab.Prelude.Bytes.Hex.{hex_encode}
use d7024e_lab.Prelude.Bytes.Text.{equal_fold, to_lower, trim_space}
use d7024e_lab.Registry.Crypto.{Crypto}
use d7024e_lab.Registry.Outcome.{
  Result, corrupt_record, domain_mismatch, err, history_fork, invalid_history_chain,
  invalid_latest_pointer, missing_version_record, no_dns_resolver, ok, or_else, require,
  unauthorized, version_rollback, ◌>>=◌, ◌>>◌,
}
use d7024e_lab.Registry.Record.{
  Json, LatestPointer, Resolver, VersionRecord, compare_pointers, or_zero_hash,
  parse_version_record, validate_pointer, verify_pointer, verify_record, zero_hash,
}
use d7024e_lab.Registry.Version.{Version, is_above, parse_version}

abbrev pub default_max_chain_depth : ℕ
default_max_chain_depth = 1000

-- The bytes of the record with a given hash.
abbrev pub Getter : Type 0
Getter = Bytes → Result Bytes

-- `maxDepth` is a Go `int`: one that is not positive counts as 0 here, and is replaced.
unfoldable pub effective_depth : ℕ → ℕ
effective_depth n = if n == 0 then default_max_chain_depth else n

unfoldable pub norm_hash : Bytes → Bytes
norm_hash h = to_lower (trim_space h)

-- Where the walk stands. `visited` and `to_save` have the latest entry first; `last` is the version
-- of the last record, and `head` says that there was none yet.
pub record Walk : Type 0 where
  pub current : Bytes
  pub visited : List Bytes
  pub head : Bool
  pub last : Version.Version
  pub to_save : List (Bytes × Bytes)

unfoldable pub seen : Bytes → List Bytes → Bool
seen h [] = false
seen h (v ∷ vs) = bytes_eq h v || seen h vs

unfoldable pub next_hash : VersionRecord → Bytes
next_hash vr = or_zero_hash (norm_hash vr.previous_version_record)

-- The hash at which the chain must end.
unfoldable pub check_existing : LatestPointer → Option LatestPointer → Result Bytes
check_existing lp none = ok zero_hash
check_existing lp (some existing) = do
  validate_pointer existing
  require (not (equal_fold (trim_space existing.version_record_hash) zero_hash))
      invalid_latest_pointer
  require (bytes_eq existing.domain lp.domain && bytes_eq existing.package_name lp.package_name)
      domain_mismatch
  cmp ← compare_pointers lp existing
  require (is_above cmp) version_rollback
  require (not (equal_fold lp.version_record_hash existing.version_record_hash)) history_fork
  ok existing.version_record_hash

-- The last version must still be above the existing one.
unfoldable pub check_last : Version.Version → Option LatestPointer → Result (Unit {0})
check_last last none = ok tt
check_last last (some existing) = do
  ver ← parse_version existing.version
  require (is_above (Version.compare last ver)) invalid_history_chain

unfoldable pub start_walk : LatestPointer → Walk
start_walk lp = record {
  current = norm_hash lp.version_record_hash;
  visited = [];
  head = true;
  last = record { major = 0; minor = 0; patch = 0 };
  to_save = [];
}

-- What is handed to the saver, in its order.
unfoldable pub finish : Option LatestPointer → Walk → Result (List (Bytes × Bytes))
unfolding check_last
finish existing w = do check_last w.last existing; ok (reverse w.to_save)

abbrev pub is_present : Option LatestPointer → Bool
is_present none = false
is_present (some _) = true

unfoldable pub conclude :
    Option LatestPointer → Option (Result Walk) → Option (Result (List (Bytes × Bytes)))
unfolding finish
conclude existing none = none
conclude existing (some (err e)) = some (err e)
conclude existing (some (ok w)) = some (finish existing w)

-- The checks of the arguments that come before the walk.
module _ (cr : Crypto) (js : Json) where
  unfoldable pub check_pointer : LatestPointer → Option Resolver → Result Bytes
  check_pointer lp resolver = do
    or_else (validate_pointer lp) invalid_latest_pointer
    require (not (equal_fold (trim_space lp.version_record_hash) zero_hash)) invalid_latest_pointer
    elim resolver [
      | none ↦ err no_dns_resolver
      | some lookup_owner_key ↦ do
        owner ← or_else (lookup_owner_key lp.domain) unauthorized
        or_else (verify_pointer cr js lp owner) unauthorized
        ok owner
    ]

  module _ (lp : LatestPointer) (owner : Bytes) (getter : Getter) where
    -- A record of the chain: its bytes have the hash, and it is the owner's.
    unfoldable pub fetch : Bytes → Result (Bytes × VersionRecord × Version.Version)
    fetch hash = do
      rec_bytes ← or_else (getter hash) missing_version_record
      require (not (bytes_eq rec_bytes [])) missing_version_record
      require (bytes_eq (hex_encode (cr.sha256 rec_bytes)) hash) corrupt_record
      vr ← or_else (parse_version_record js rec_bytes) corrupt_record
      require (bytes_eq vr.domain lp.domain && bytes_eq vr.package_name lp.package_name)
          domain_mismatch
      or_else (verify_record cr js vr owner) unauthorized
      ver ← parse_version vr.version
      ok (rec_bytes, vr, ver)

    -- The first record has the version of the pointer, and versions fall from record to record.
    unfoldable pub check_version :
        Bool → Version.Version → VersionRecord → Version.Version → Result (Unit {0})
    check_version true last vr ver = require (bytes_eq vr.version lp.version) invalid_history_chain
    check_version false last vr ver =
        require (is_above (Version.compare last ver)) invalid_history_chain

    -- The body of the loop, for a hash that is neither the target nor the zero hash.
    unfoldable pub visit : ℕ → Walk → Result Walk
    unfolding fetch check_version
    visit max_depth w = do
      require (not (seen w.current w.visited)) invalid_history_chain
      let visited = w.current ∷ w.visited
      require (leb (length visited) max_depth) invalid_history_chain
      r ← fetch w.current
      check_version w.head w.last r.1 r.2
      ok (record {
        current = next_hash r.1;
        visited = visited;
        head = false;
        last = r.2;
        to_save = (w.current, r.0) ∷ w.to_save;
      })

    -- The loop; `none` means that the fuel ran out.
    unfoldable pub walk : ℕ → ℕ → Bytes → Bool → Walk → Option (Result Walk)
    unfolding visit
    walk max_depth zero target has_existing w = none
    walk max_depth (suc n) target has_existing w = elim (bytes_eq w.current target) [
      | true ↦ some (ok w)
      | false ↦ elim (bytes_eq w.current zero_hash) [
        | true ↦ some (if has_existing then err history_fork else ok w)
        | false ↦ elim (visit max_depth w) [
          | err e ↦ some (err e)
          | ok w' ↦ walk max_depth n target has_existing w'
        ]
      ]
    ]

  -- `none` is a walk that ran out of fuel; the fuel is one more than the number of records that
  -- may be visited.
  unfoldable pub walk_from :
      LatestPointer → Option LatestPointer → Bytes → Bytes → Getter → ℕ → Option (Result Walk)
  unfolding walk start_walk
  walk_from lp existing owner target getter depth =
      walk lp owner getter depth (suc (suc depth)) (norm_hash target) (is_present existing)
        (start_walk lp)

  unfoldable pub after_checks :
      LatestPointer
      → Option LatestPointer
      → Option Getter
      → ℕ
      → Result (Bytes × Bytes)
      → Option (Result (List (Bytes × Bytes)))
  unfolding conclude walk_from
  after_checks lp existing getter max_depth (err e) = some (err e)
  after_checks lp existing none max_depth (ok (owner, target)) = some (err missing_version_record)
  after_checks lp existing (some get) max_depth (ok (owner, target)) =
      conclude existing (walk_from lp existing owner target get (effective_depth max_depth))

  unfoldable pub check_arguments :
      LatestPointer → Option LatestPointer → Option Resolver → Result (Bytes × Bytes)
  unfolding check_pointer check_existing
  check_arguments lp existing resolver = do
    owner ← check_pointer lp resolver
    target ← check_existing lp existing
    ok (owner, target)

  -- The result lists the records that a saver would be given.
  unfoldable pub validate_latest_pointer_chain_with_depth :
      Option LatestPointer
      → Option LatestPointer
      → Option Resolver
      → Option Getter
      → ℕ
      → Option (Result (List (Bytes × Bytes)))
  unfolding check_arguments after_checks
  validate_latest_pointer_chain_with_depth none existing resolver getter max_depth =
      some (err invalid_latest_pointer)
  validate_latest_pointer_chain_with_depth (some lp) existing resolver getter max_depth =
      after_checks lp existing getter max_depth (check_arguments lp existing resolver)

  unfoldable pub validate_latest_pointer_chain :
      Option LatestPointer
      → Option LatestPointer
      → Option Resolver
      → Option Getter
      → Option (Result (List (Bytes × Bytes)))
  unfolding validate_latest_pointer_chain_with_depth
  validate_latest_pointer_chain lp existing resolver getter =
      validate_latest_pointer_chain_with_depth lp existing resolver getter default_max_chain_depth
