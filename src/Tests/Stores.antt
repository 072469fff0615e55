-- ===== src/Tests/Stores.antt =====
-- The store: the properties at a store with one latest pointer.
use d7024e_lab.Kademlia.DataStore.Writers
use d7024e_lab.Kademlia.DataStore.Sound
use d7024e_lab.Prelude.{
  All, All-append, All-replicate, All-take, [], arith, inl, inr, length-append, length-take, map,
  none, refl, replicate, some, subst, ◌%◌, ◌++◌, ◌∷◌, ◌≡◌,
}
use d7024e_lab.Kademlia.DataStore.{DataStore, get, new_data_store, store}
use d7024e_lab.Kademlia.DataStore.Reachable.{Writes-IsSound}
use d7024e_lab.Kademlia.DataStore.Rollback.{Forward, Holds, Writes-Forward}
use d7024e_lab.Kademlia.DataStore.Round.{store-returns}
use d7024e_lab.Kademlia.DataStore.Sound.{AreEntries, IsEntry, IsPointerAt, IsWriter}
use d7024e_lab.Kademlia.DataStore.Writers.{reading}
use d7024e_lab.Kademlia.Id.{KademliaId}
use d7024e_lab.Prelude.Bytes.{
  Bytes, Bytes-cases, IsByte, bytes_eq, bytes_eq_iff, bytes_eq_ne, bytes_eq_self,
}
use d7024e_lab.Prelude.Bytes.Dict.{lookup}
use d7024e_lab.Prelude.Bytes.Text.{contains, split, to_lower, trim_left, trim_right, trim_space}
use d7024e_lab.Registry.Crypto.{HasSizes}
use d7024e_lab.Registry.Domain.{is_valid_domain, is_valid_package_name}
use d7024e_lab.Registry.Outcome.{Result, ok}
use d7024e_lab.Registry.Record.{dht_key_bytes, parse_latest_pointer, validate_pointer}
use d7024e_lab.Registry.Version.{parse_version}
use d7024e_lab.Tests.Chains.{
  hash_of_one, toy_crypto, toy_getter, toy_json, toy_pointer, toy_pointer-Accepted, toy_resolver,
}

toy-IsByte : (s : Bytes) → All IsByte (map (λ b. b % 256) s)
toy-IsByte [] = tt
toy-IsByte (b ∷ bs) = (omega arith, toy-IsByte bs)

pub toy_crypto-HasSizes : HasSizes toy_crypto
toy_crypto-HasSizes = record {
  sha256_size = λ s. omega (
    arith,
    length-take 32 (map (λ b. b % 256) s ++ replicate 32 0),
    length-append (map (λ b. b % 256) s) (replicate 32 0),
  );
  sha256_bytes = λ s. All-take IsByte 32 (map (λ b. b % 256) s ++ replicate 32 0) (
      All-append IsByte (map (λ b. b % 256) s) (replicate 32 0) (toy-IsByte s)
        (All-replicate IsByte 32 0 (omega arith)));
  sign_size = λ priv msg. refl;
  sign_bytes = λ priv msg. All-replicate IsByte 64 0 (omega arith);
}

abbrev pointer_key : KademliaId
pointer_key = dht_key_bytes toy_crypto toy_json toy_pointer

-- The store that holds the pointer, while a call stores it once more.
abbrev pointer_system : Writers.System
pointer_system = record {
  entries = (pointer_key, 2 ∷ []) ∷ [];
  writers = reading pointer_key (2 ∷ []) toy_pointer ∷ [];
}

toy_pointer_is_parsed : parse_latest_pointer toy_json (2 ∷ []) ≡ ok toy_pointer
unfolding parse_latest_pointer bytes_eq validate_pointer is_valid_domain trim_right trim_left
    to_lower trim_space contains split is_valid_package_name parse_version
toy_pointer_is_parsed = refl

pointer_is_held : Holds toy_json pointer_system.entries pointer_key toy_pointer
unfolding Holds lookup
pointer_is_held = (2 ∷ [], rw (bytes_eq_self pointer_key) refl, toy_pointer_is_parsed)

pointer_is_at : IsPointerAt toy_crypto toy_json pointer_key (2 ∷ []) toy_pointer
unfolding IsPointerAt
pointer_is_at = (toy_pointer_is_parsed, refl)

pointer-IsEntry : IsEntry toy_crypto toy_json (some toy_resolver) pointer_key (2 ∷ [])
unfolding IsEntry
pointer-IsEntry = inr (
  toy_pointer,
  none,
  pointer_is_at,
  record {
    lookup_owner_key = toy_resolver;
    getter = toy_getter;
    saves = (hash_of_one, 1 ∷ []) ∷ [];
    configured = refl;
    accepted = toy_pointer-Accepted;
  },
)

pointer_system-IsSound : Sound.IsSound toy_crypto toy_json (some toy_resolver) pointer_system
unfolding AreEntries IsWriter lookup
pointer_system-IsSound = record {
  entries_sound = λ k v. elim (Bytes-cases pointer_key k) [
    | inl e ↦
        rw (lookup, (bytes_eq_iff pointer_key k).1 e)
          (λ h.
            let q : 2 ∷ [] ≡ v = cc in
            subst (λ x. IsEntry toy_crypto toy_json (some toy_resolver) x v) e
              (subst (IsEntry toy_crypto toy_json (some toy_resolver) pointer_key) q
                pointer-IsEntry))
    | inr ne ↦ rw (lookup, bytes_eq_ne pointer_key k ne) (λ h. cc)
  ];
  writers_sound = (pointer_is_at, tt);
}

-- No key may be deleted, and none written under its own hash.
abbrev Nowhere : KademliaId → Type 0
Nowhere _ = Unit × ⊥

-- The state after the call has read the key.
abbrev moved : Writers.System
moved =
    let r =
      Writers.advance toy_crypto toy_json (some toy_resolver) toy_getter
        (reading pointer_key (2 ∷ []) toy_pointer) pointer_system.entries in
    record { entries = r.0; writers = [] ++ (r.1 ++ []) }

one_read : Writers.Writes toy_crypto toy_json (some toy_resolver) 0 Nowhere pointer_system moved
one_read =
    Writers.next Writers.here
      (Writers.move toy_getter [] (reading pointer_key (2 ∷ []) toy_pointer) [] refl)

Writes-IsSound_example : Sound.IsSound toy_crypto toy_json (some toy_resolver) moved
Writes-IsSound_example =
    Writes-IsSound toy_crypto toy_json (some toy_resolver) 0 Nowhere toy_crypto-HasSizes
      pointer_system-IsSound one_read

Writes-Forward_example :
    Forward toy_crypto toy_json (some toy_resolver) moved.entries pointer_key toy_pointer
Writes-Forward_example =
    Writes-Forward toy_crypto toy_json (some toy_resolver) 0 Nowhere toy_crypto-HasSizes pointer_key
      (λ x. x.1) toy_pointer pointer_system-IsSound pointer_is_held one_read

store-returns_example :
    (ds' : DataStore) × (x : Result (Unit {0})) × (store toy_crypto toy_json new_data_store
        pointer_key
        (2 ∷ [])
      ≡ some (ds', x))
    × (x ≡ ok tt → get ds' pointer_key ≡ some (2 ∷ []))
store-returns_example = store-returns toy_crypto toy_json new_data_store pointer_key (2 ∷ [])
