-- ===== src/Kademlia/DataStore/Writers.antt =====
-- Concurrent calls of `Store` (kademlia/datastore.go): each critical section of a call is a step.
use d7024e_lab.Prelude.{Bool, List, Option, [], false, none, some, true, ℕ, ◌++◌, ◌∷◌, ◌≡◌}
use d7024e_lab.Kademlia.DataStore.{check_key, commit, parse_existing, save_record}
use d7024e_lab.Kademlia.Id.{KademliaId}
use d7024e_lab.Prelude.Bytes.{Bytes}
use d7024e_lab.Prelude.Bytes.Dict.{Dict, insert, lookup, remove}
use d7024e_lab.Registry.Crypto.{Crypto}
use d7024e_lab.Registry.Outcome.{Result, err, ok}
use d7024e_lab.Registry.Record.{Json, LatestPointer, Resolver}
use d7024e_lab.Registry.Validator.{Getter, validate_latest_pointer_chain}

-- A call for a pointer that passed the first tests.
pub data Writer : Type 0 where
  reading : KademliaId → Bytes → LatestPointer → Writer
  validating : KademliaId → Bytes → LatestPointer → Option Bytes → Writer
  saving : KademliaId → Bytes → LatestPointer → Option Bytes → List (Bytes × Bytes) → Writer

unfoldable pub validated :
    KademliaId
    → Bytes
    → LatestPointer
    → Option Bytes
    → Option (Result (List (Bytes × Bytes)))
    → List Writer
validated key value lp snapshot (some (ok saves)) = saving key value lp snapshot saves ∷ []
validated key value lp snapshot _ = []

unfoldable pub committed :
    KademliaId → Bytes → LatestPointer → Dict Bytes × Bool → Dict Bytes × List Writer
committed key value lp (entries, true) = (entries, [])
committed key value lp (entries, false) = (entries, reading key value lp ∷ [])

unfoldable pub opened :
    KademliaId → Bytes → Dict Bytes → Result (Option LatestPointer) → Dict Bytes × List Writer
opened key value entries (err e) = (entries, [])
opened key value entries (ok none) = (insert key value entries, [])
opened key value entries (ok (some lp)) = (entries, reading key value lp ∷ [])

module _ (cr : Crypto) (js : Json) where
  -- The next critical section of a writer, and what of it is left: nothing, when the call returns.
  -- `getter` answers the reads of the validation, which go to the store and to the network while
  -- other writers run.
  unfoldable pub advance : Option Resolver → Getter → Writer → Dict Bytes → Dict Bytes × List Writer
  unfolding validated committed
  advance resolver getter (reading key value lp) entries =
      (entries, validating key value lp (lookup key entries) ∷ [])
  advance resolver getter (validating key value lp snapshot) entries = (
    entries,
    validated key value lp snapshot (
        validate_latest_pointer_chain cr js (some lp) (parse_existing js snapshot) resolver
          (some getter)),
  )
  advance resolver getter (saving key value lp snapshot (r ∷ rs)) entries =
      (save_record r entries, saving key value lp snapshot rs ∷ [])
  advance resolver getter (saving key value lp snapshot []) entries =
      committed key value lp (commit key value snapshot entries)

  -- The first critical section of a call: a value that is stored under its own hash, or a writer.
  unfoldable pub open_store : ℕ → KademliaId → Bytes → Dict Bytes → Dict Bytes × List Writer
  unfolding opened
  open_store max_size key value entries =
      opened key value entries (check_key cr js max_size key value)

-- The entries that the writers share, and the writers on their way.
pub record System : Type 0 where
  pub entries : Dict Bytes
  pub writers : List Writer

-- Any writer may go next, and new calls may come. `IsOpen` says at which keys `Delete` and the
-- storing of values under their own hash are let happen.
module _ (cr : Crypto) (js : Json) (resolver : Option Resolver) (max_size : ℕ)
    (IsOpen : KademliaId → Type 0) where
  pub data Write (s : System) : System → Type 0 where
    call :
        (key : KademliaId) (value : Bytes)
        → (cr.sha256 value ≡ key → IsOpen key)
        → Write s (record {
          entries = (open_store cr js max_size key value s.entries).0;
          writers = (open_store cr js max_size key value s.entries).1 ++ s.writers;
        })
    move :
        (getter : Getter) (before : List Writer) (w : Writer) (after : List Writer)
        → s.writers ≡ before ++ w ∷ after
        → Write s (record {
          entries = (advance cr js resolver getter w s.entries).0;
          writers = before ++ ((advance cr js resolver getter w s.entries).1 ++ after);
        })
    erase :
        (key : KademliaId)
        → IsOpen key
        → Write s (record { entries = remove key s.entries; writers = s.writers })

  pub data Writes (s : System) : System → Type 0 where
    here : Writes s s
    next : {t u : System} → Writes s t → Write t u → Writes s u
