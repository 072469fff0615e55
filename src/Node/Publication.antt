-- ===== src/Node/Publication.antt =====
-- `HandlePublish` of cmd/node/cli.go up to the first value that is stored: the flags and the
-- arguments, the target, the comparison with the current latest pointer, and the choice of the
-- record that the new one follows. The reading of the file is left out; the chain of records, which
-- the code walks for it, is an argument.
pub mod Linked
use d7024e_lab.Registry.Version
use d7024e_lab.Prelude.{
  Bool, List, Option, [], drop, false, if◌then◌else◌, length, none, not, some, true, ◌&&◌, ◌++◌,
  ◌==◌, ◌||◌, ◌∷◌,
}
use d7024e_lab.Node.Commands.{is_canonical_hex_hash}
use d7024e_lab.Prelude.Bytes.{Bytes, bytes_eq}
use d7024e_lab.Prelude.Bytes.Text.{contains, has_prefix, text, to_lower, trim_space}
use d7024e_lab.Registry.Crypto.{Crypto}
use d7024e_lab.Registry.Domain.{is_valid_domain, is_valid_package_name, normalize_domain}
use d7024e_lab.Registry.Outcome.{Result, err, failure, ok}
use d7024e_lab.Registry.Record.{Json, LatestPointer, VersionRecord, record_hash, zero_hash}
use d7024e_lab.Registry.Version.{Version, above, below, parse_version, same}

-- `force`, `prevFlag` if `hasPrevFlag`, and `positional`.
pub record PublishArgs : Type 0 where
  pub force : Bool
  pub prev_flag : Option Bytes
  pub positional : List Bytes

-- An argument that is no flag with a separate value.
unfoldable pub take_arg : Bytes → PublishArgs → Result PublishArgs
take_arg arg a =
    if bytes_eq arg (text "--force")
    then ok (record a { force = true })
    else if has_prefix arg (text "--prev=")
    then ok (record a { prev_flag = some (drop 7 arg) })
    else if has_prefix arg (text "-")
    then err failure
    else ok (record a { positional = a.positional ++ (arg ∷ []) })

-- The loop over the arguments.
unfoldable pub parse_args : List Bytes → PublishArgs → Result PublishArgs
unfolding take_arg
parse_args [] a = ok a
parse_args (arg ∷ []) a = if bytes_eq arg (text "--prev") then err failure else take_arg arg a
parse_args (arg ∷ next_arg ∷ args) a = elim (bytes_eq arg (text "--prev")) [
  | true ↦ parse_args args (record a { prev_flag = some next_arg })
  | false ↦ elim (take_arg arg a) [ err e ↦ err e | ok a' ↦ parse_args (next_arg ∷ args) a' ]
]

abbrev pub no_args : PublishArgs
no_args = record { force = false; prev_flag = none; positional = [] }

-- `strings.Join(words, " ")`
unfoldable pub join_words : List Bytes → Bytes
join_words [] = []
join_words (w ∷ []) = w
join_words (w ∷ v ∷ ws) = w ++ (32 ∷ join_words (v ∷ ws))

-- `target` and `filename`.
unfoldable pub target_and_file : List Bytes → Result (Bytes × Bytes)
unfolding join_words
target_and_file (a ∷ b ∷ []) = ok (a, b)
target_and_file (a ∷ b ∷ c ∷ []) =
    if contains a (text ":") then ok (a, join_words (b ∷ c ∷ [])) else err failure
target_and_file (a ∷ b ∷ c ∷ d ∷ ds) =
    if contains a (text ":")
    then ok (a, join_words (b ∷ c ∷ d ∷ ds))
    else ok (a ++ (text ":" ++ (b ++ (text ":" ++ c))), join_words (d ∷ ds))
target_and_file _ = err failure

-- The domain, the package and the version of a target.
unfoldable pub target_parts : List Bytes → Result (Bytes × Bytes × Bytes)
target_parts (domain ∷ pkg ∷ version ∷ []) =
    ok (normalize_domain domain, trim_space pkg, trim_space version)
target_parts _ = err failure

-- The checks of names, and the version in canonical form.
unfoldable pub check_names : Bool → Bytes × Bytes × Bytes → Result (Bytes × Bytes × Bytes)
check_names force (domain, pkg, version) =
    if not (is_valid_domain domain) && not force
    then err failure
    else if not (is_valid_package_name pkg) && not force
    then err failure
    else elim (parse_version version) [
      | ok v ↦ ok (domain, pkg, Version.string v)
      | err e ↦ if force then ok (domain, pkg, version) else err e
    ]

-- The new version against the current one.
unfoldable pub check_rollback : Bool → Bytes → LatestPointer → Result (Unit {0})
check_rollback true version lp = ok tt
check_rollback false version lp = elim (parse_version version) [
  | err e ↦ ok tt
  | ok v ↦ elim (parse_version lp.version) [
    | err e ↦ ok tt
    | ok w ↦ elim (Version.compare v w) [ above ↦ ok tt | same ↦ err failure | below ↦ err failure ]
  ]
]

-- The spellings of no previous record.
unfoldable pub is_no_record : Bytes → Bool
is_no_record prev =
    bytes_eq prev (text "none")
    || bytes_eq prev (text "0")
    || bytes_eq prev (text "0.0.0")
    || bytes_eq prev zero_hash

-- `len(prevFlag) == 64 && isCanonicalHexHash(prevFlag)`
unfoldable pub is_record_hash : Bytes → Bool
is_record_hash prev = length prev == 64 && is_canonical_hex_hash prev

-- What `h, _ := vr.RecordHash()` gives: the empty string on an error.
unfoldable pub hash_or_empty : Result Bytes → Bytes
hash_or_empty (ok h) = h
hash_or_empty (err e) = []

-- The version that the flag names, in the same text or as the same version.
unfoldable pub is_version : Bytes → VersionRecord → Bool
is_version prev vr = if bytes_eq vr.version prev then true else elim (parse_version vr.version) [
  | err e ↦ false
  | ok v ↦ elim (parse_version prev) [
    | err e ↦ false
    | ok w ↦ elim (Version.compare v w) [ same ↦ true | below ↦ false | above ↦ false ]
  ]
]

-- An error that `test` calls for, unless it is forced.
unfoldable pub unless_forced : Bool → Bool → Bytes → Result Bytes
unless_forced force test prev = if not force && not test then err failure else ok prev

module _ (cr : Crypto) (js : Json) where
  -- The loop over the chain.
  unfoldable pub find_version : Bytes → List VersionRecord → Bytes
  unfolding is_version hash_or_empty
  find_version prev [] = []
  find_version prev (vr ∷ vrs) =
      let rest = find_version prev vrs in
      if is_version prev vr then hash_or_empty (record_hash cr js vr) else rest

  unfoldable pub find_in_chain : Bytes → Result (List VersionRecord) → Bytes
  unfolding find_version
  find_in_chain prev (err e) = []
  find_in_chain prev (ok chain) = find_version prev chain

  -- The previous record for a package that has a latest pointer; `chain` is what the walk from its
  -- record gives.
  unfoldable pub link_to_latest :
      Bool → LatestPointer → Option Bytes → Result (List VersionRecord) → Result Bytes
  unfolding is_no_record is_record_hash unless_forced find_in_chain
  link_to_latest force lp none chain = ok lp.version_record_hash
  link_to_latest force lp (some prev) chain =
      if is_no_record prev
      then unless_forced force false zero_hash
      else if is_record_hash prev
      then unless_forced force (bytes_eq (to_lower prev) lp.version_record_hash) (to_lower prev)
      else if bytes_eq (find_in_chain prev chain) []
      then err failure
      else unless_forced force (bytes_eq (find_in_chain prev chain) lp.version_record_hash)
          (find_in_chain prev chain)

-- The previous record for a package that has none.
unfoldable pub link_first : Bool → Option Bytes → Result Bytes
unfolding is_no_record is_record_hash
link_first force none = ok zero_hash
link_first force (some prev) =
    if is_no_record prev
    then ok zero_hash
    else if not force
    then err failure
    else if is_record_hash prev
    then ok (to_lower prev)
    else err failure

-- The comparison with the current pointer, if there is one, and the previous record.
unfoldable pub choose_previous :
    Crypto
    → Json
    → Bool
    → Bytes
    → Option LatestPointer
    → Option Bytes
    → Result (List VersionRecord)
    → Result Bytes
unfolding check_rollback link_to_latest link_first
choose_previous cr js force version none prev chain = link_first force prev
choose_previous cr js force version (some lp) prev chain = elim (check_rollback force version lp) [
  | err e ↦ err e
  | ok done ↦ link_to_latest cr js force lp prev chain
]
