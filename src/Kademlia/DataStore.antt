-- ===== src/Kademlia/DataStore.antt =====
-- kademlia/datastore.go: the store of a node. A method that locks `mu` once is one function; the
-- parts of `Store`, which locks it several times, are functions of their own. Values are immutable
-- here, so the copies that the source makes do not show.
pub mod Writers
pub mod Sound
pub mod Steps
pub mod Reachable
pub mod Newer
pub mod Rollback
pub mod Round
pub mod Validated
pub mod Wired
pub mod Settled
use d7024e_lab.Prelude.{
  Bool, List, Option, [], false, if◌then◌else◌, length, ltb, map, none, some, suc, true, zero, ℕ,
  ◌&&◌, ◌*◌, ◌==◌, ◌∷◌,
}
use d7024e_lab.Kademlia.Id.{KademliaId, id_length}
use d7024e_lab.Prelude.Bytes.{Bytes, bytes_eq}
use d7024e_lab.Prelude.Bytes.Dict.{Dict, has, insert, lookup, remove}
use d7024e_lab.Prelude.Bytes.Hex.{hex_decode}
use d7024e_lab.Registry.Crypto.{Crypto}
use d7024e_lab.Registry.Outcome.{
  Result, err, failure, key_mismatch, missing_version_record, ok, or_else, require, value_too_large,
  ◌>>=◌, ◌>>◌,
}
use d7024e_lab.Registry.Record.{Json, LatestPointer, Resolver, dht_key_bytes, parse_latest_pointer}
use d7024e_lab.Registry.Validator.{Getter, validate_latest_pointer_chain}

-- `max_val_size` is a Go `int`: one that is not positive counts as 0, no limit.
pub record DataStore : Type 0 where
  pub entries : Dict Bytes
  pub max_val_size : ℕ
  pub dns_resolver : Option Resolver
  pub record_fetcher : Option Getter

abbrev pub default_max_val_size : ℕ
default_max_val_size = 64 * 1024

abbrev pub new_data_store : DataStore
new_data_store = record {
  entries = [];
  max_val_size = default_max_val_size;
  dns_resolver = none;
  record_fetcher = none;
}

unfoldable pub set_max_val_size : DataStore → ℕ → DataStore
set_max_val_size ds size = record ds { max_val_size = size }

unfoldable pub set_dns_resolver : DataStore → Option Resolver → DataStore
set_dns_resolver ds resolver = record ds { dns_resolver = resolver }

unfoldable pub set_record_fetcher : DataStore → Option Getter → DataStore
set_record_fetcher ds fetcher = record ds { record_fetcher = fetcher }

-- The end of the getter: what the fetcher got, which must not be empty.
fetched : Result Bytes → Result Bytes
fetched (ok []) = err missing_version_record
fetched (ok (b ∷ bs)) = ok (b ∷ bs)
fetched (err e) = err e

fetch_remote : Option Getter → Bytes → Result Bytes
unfolding fetched
fetch_remote none hash = err missing_version_record
fetch_remote (some fetcher) hash = fetched (fetcher hash)

-- The key that a hash in hex stands for.
unfoldable pub key_of_hash : Bytes → Option KademliaId
key_of_hash hash =
    let d = hex_decode hash in if d.1 && length d.0 == id_length then some d.0 else none

-- The closure `getter` of the validation.
unfoldable pub get_record : Dict Bytes → Option Getter → Getter
unfolding fetch_remote
get_record entries fetcher hash = elim (key_of_hash hash) [
  | none ↦ err failure
  | some key ↦ elim (lookup key entries) [ some v ↦ ok v | none ↦ fetch_remote fetcher hash ]
]

-- The closure `saver`: an entry that is there stays.
unfoldable pub save_record : Bytes × Bytes → Dict Bytes → Dict Bytes
save_record (hash, data') entries = elim (key_of_hash hash) [
  | none ↦ entries
  | some key ↦ if has key entries then entries else insert key data' entries
]

unfoldable pub save_records : List (Bytes × Bytes) → Dict Bytes → Dict Bytes
save_records [] entries = entries
save_records (r ∷ rs) entries = save_records rs (save_record r entries)

unfoldable pub too_large : ℕ → Bytes → Bool
too_large max_size value = ltb 0 max_size && ltb max_size (length value)

-- Nobody wrote the key since the snapshot.
unfoldable pub unchanged : Option Bytes → Option Bytes → Bool
unchanged none none = true
unchanged (some v) (some w) = bytes_eq v w
unchanged _ _ = false

-- `existingLP, _ = registry.ParseLatestPointer(existingBytes)`
unfoldable pub parse_existing : Json → Option Bytes → Option LatestPointer
parse_existing js none = none
parse_existing js (some v) = elim (parse_latest_pointer js v) [ ok lp ↦ some lp | err _ ↦ none ]

forget_saves : Option (Result (List (Bytes × Bytes))) → Option (Result (Unit {0}))
forget_saves none = none
forget_saves (some (err e)) = some (err e)
forget_saves (some (ok _)) = some (ok tt)

-- The end of a round of the loop: the flag says whether the value was stored.
unfoldable pub commit : KademliaId → Bytes → Option Bytes → Dict Bytes → Dict Bytes × Bool
commit key value snapshot entries =
    if unchanged snapshot (lookup key entries)
    then (insert key value entries, true)
    else (entries, false)

unfoldable pub after_validation :
    DataStore
    → KademliaId
    → Bytes
    → Option (Result (List (Bytes × Bytes)))
    → Option (DataStore × Result Bool)
unfolding commit
after_validation ds key value none = none
after_validation ds key value (some (err e)) = some (ds, err e)
after_validation ds key value (some (ok saves)) =
    let r = commit key value (lookup key ds.entries) (save_records saves ds.entries) in
    some (record ds { entries = r.0 }, ok r.1)

module _ (cr : Crypto) (js : Json) where
  -- The tests that come before the validation of a pointer: `none` says that the value is accepted
  -- for its hash.
  unfoldable pub check_key : ℕ → KademliaId → Bytes → Result (Option LatestPointer)
  check_key max_size key value =
      if too_large max_size value
      then err value_too_large
      else if bytes_eq (cr.sha256 value) key
      then ok none
      else (do
        lp ← or_else (parse_latest_pointer js value) key_mismatch
        require (bytes_eq (dht_key_bytes cr js lp) key) key_mismatch
        ok (some lp))

  -- The records to save, if the pointer is accepted.
  unfoldable pub validate_latest_pointer_with_existing :
      DataStore → LatestPointer → Option LatestPointer → Option (Result (List (Bytes × Bytes)))
  unfolding get_record
  validate_latest_pointer_with_existing ds lp existing =
      validate_latest_pointer_chain cr js (some lp) existing ds.dns_resolver
        (some (get_record ds.entries ds.record_fetcher))

  unfoldable pub validate : DataStore → KademliaId → Bytes → Option (Result (Unit {0}))
  unfolding check_key parse_existing validate_latest_pointer_with_existing forget_saves
  validate ds key value = elim (check_key ds.max_val_size key value) [
    | err e ↦ some (err e)
    | ok none ↦ some (ok tt)
    | ok (some lp) ↦
        forget_saves
          (validate_latest_pointer_with_existing ds lp (parse_existing js (lookup key ds.entries)))
  ]

  -- A round of the loop that no other call interrupts; the flag says that it is the last.
  unfoldable pub store_round :
      DataStore → KademliaId → Bytes → LatestPointer → Option (DataStore × Result Bool)
  unfolding after_validation
  store_round ds key value lp =
      after_validation ds key value
        (validate_latest_pointer_with_existing ds lp (parse_existing js (lookup key ds.entries)))

  -- The loop, on fuel, for a call that is alone.
  unfoldable pub store_loop :
      ℕ → DataStore → KademliaId → Bytes → LatestPointer → Option (DataStore × Result (Unit {0}))
  store_loop zero ds key value lp = none
  store_loop (suc n) ds key value lp = elim (store_round ds key value lp) [
    | none ↦ none
    | some (ds', err e) ↦ some (ds', err e)
    | some (ds', ok true) ↦ some (ds', ok tt)
    | some (ds', ok false) ↦ store_loop n ds' key value lp
  ]

  -- Two rounds are enough when nothing else runs.
  unfoldable pub store : DataStore → KademliaId → Bytes → Option (DataStore × Result (Unit {0}))
  store ds key value = elim (check_key ds.max_val_size key value) [
    | err e ↦ some (ds, err e)
    | ok none ↦ some (record ds { entries = insert key value ds.entries }, ok tt)
    | ok (some lp) ↦ store_loop 2 ds key value lp
  ]

unfoldable pub store_unchecked : DataStore → KademliaId → Bytes → DataStore
store_unchecked ds key value = record ds { entries = insert key value ds.entries }

unfoldable pub get : DataStore → KademliaId → Option Bytes
get ds key = lookup key ds.entries

unfoldable pub has_key : DataStore → KademliaId → Bool
has_key ds key = has key ds.entries

unfoldable pub delete : DataStore → KademliaId → DataStore × Bool
delete ds key =
    if has key ds.entries
    then (record ds { entries = remove key ds.entries }, true)
    else (ds, false)

-- In the order of the entries; Go gives any order.
unfoldable pub get_all_keys : DataStore → List KademliaId
get_all_keys ds = map (λ e. e.0) ds.entries

unfoldable pub len : DataStore → ℕ
len ds = length ds.entries
