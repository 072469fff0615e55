-- ===== src/Node/Contacts.antt =====
-- The helpers of cmd/node/main.go that find a contact by its address or by the start of its
-- identifier.
pub mod Matched
use d7024e_lab.Kademlia.Id
use d7024e_lab.Prelude.{
  List, Option, Panics, [], drop, false, if◌then◌else◌, inl, inr, leb, length, none, some, suc,
  take, true, zero, ℕ, ◌++◌, ◌+◌, ◌-◌, ◌==◌, ◌∷◌, ◌⊎◌,
}
use d7024e_lab.Kademlia.Contact.{Contact}
use d7024e_lab.Prelude.Bytes.{Bytes, bytes_eq}
use d7024e_lab.Prelude.Bytes.Text.{has_prefix, text, to_lower, trim_space}

-- The errors of the package that the callers tell apart.
pub data NodeError : Type 0 where
  incorrect_format contact_not_found ambiguous_prefix : NodeError

-- The first and the last four characters.
unfoldable pub truncate_id : Bytes → Bytes
truncate_id id =
    if leb (length id) 8 then id else take 4 id ++ (text "..." ++ drop (length id - 4) id)

-- `strings.Cut(address, ":")`: what comes before the first colon, if there is one.
unfoldable pub before_colon : Bytes → Option Bytes
before_colon [] = none
before_colon (c ∷ cs) =
    let rest = before_colon cs in
    if c == b':' then some [] else elim rest [ none ↦ none | some ip ↦ some (c ∷ ip) ]

unfoldable pub trim_port_from_address : Bytes → Bytes ⊎ NodeError
unfolding before_colon
trim_port_from_address address = elim (before_colon address) [
  | none ↦ inr incorrect_format
  | some ip ↦ if bytes_eq ip [] then inr incorrect_format else inl ip
]

unfoldable pub find_contact_by_address : List Contact → Bytes → Contact ⊎ NodeError
find_contact_by_address [] address = inr contact_not_found
find_contact_by_address (c ∷ cs) address =
    let rest = find_contact_by_address cs address in
    if bytes_eq c.address address then inl c else rest

-- The loop of `FindContactByID`: how many matched, and the last of them. A nil identifier is
-- dereferenced.
unfoldable pub count_matches :
    Bytes → List Contact → ℕ → Option Contact → Panics (ℕ × Option Contact)
count_matches prefix [] count matched = some (count, matched)
count_matches prefix (c ∷ cs) count matched = elim c.id [
  | none ↦ none
  | some id ↦ elim (has_prefix (to_lower (Id.string id)) prefix) [
    | true ↦ count_matches prefix cs (count + 1) (some c)
    | false ↦ count_matches prefix cs count matched
  ]
]

-- The outcome, by the number of matches.
unfoldable pub of_count : ℕ × Option Contact → Option Contact ⊎ NodeError
of_count (zero, matched) = inr contact_not_found
of_count (suc zero, matched) = inl matched
of_count (suc (suc n), matched) = inr ambiguous_prefix

unfoldable pub find_contact_by_id : List Contact → Bytes → Panics (Option Contact ⊎ NodeError)
unfolding count_matches of_count
find_contact_by_id contacts id_prefix =
    elim (count_matches (to_lower (trim_space id_prefix)) contacts 0 none) [
      | none ↦ none
      | some r ↦ some (of_count r)
    ]
