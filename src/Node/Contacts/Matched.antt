-- ===== src/Node/Contacts/Matched.antt =====
-- `FindContactByID` of cmd/node/main.go against the list of all contacts that match.
use d7024e_lab.Kademlia.Id
use d7024e_lab.Prelude.{
  All, Bool, Bool-cases, List, Option, [], ap, arith, if◌then◌else◌, inl, inr, length, none, refl,
  some, suc, ℕ, ◌+◌, ◌∙◌, ◌∷◌, ◌≡◌, ◌⊎◌,
}
use d7024e_lab.Kademlia.Contact.{Contact, IsKnown, key}
use d7024e_lab.Node.Contacts.{
  NodeError, ambiguous_prefix, contact_not_found, count_matches, find_contact_by_id, of_count,
}
use d7024e_lab.Prelude.Bytes.{Bytes}
use d7024e_lab.Prelude.Bytes.Text.{has_prefix, to_lower, trim_space}

-- Whether the hex form of the identifier starts with the prefix.
abbrev pub is_match : Bytes → Contact → Bool
is_match prefix c = has_prefix (to_lower (Id.string (key c))) prefix

unfoldable pub matching : Bytes → List Contact → List Contact
matching prefix [] = []
matching prefix (c ∷ cs) =
    let rest = matching prefix cs in if is_match prefix c then c ∷ rest else rest

-- Only one match is an answer.
unfoldable pub only_one : List Contact → Option Contact ⊎ NodeError
only_one [] = inr contact_not_found
only_one (c ∷ []) = inl (some c)
only_one (c ∷ d ∷ cs) = inr ambiguous_prefix

last_of : Option Contact → List Contact → Option Contact
last_of matched [] = matched
last_of matched (c ∷ cs) = last_of (some c) cs

count_matches-matching :
    (prefix : Bytes) (cs : List Contact) (count : ℕ) (matched : Option Contact)
    → All IsKnown cs
    → count_matches prefix cs count matched
      ≡ some (count + length (matching prefix cs), last_of matched (matching prefix cs))
unfolding count_matches matching last_of
count_matches-matching prefix [] count matched h =
    ap (λ n. some (n, matched)) (let e : count ≡ count + 0 = omega arith in e)
count_matches-matching prefix (c ∷ cs) count matched h = elim (Bool-cases (is_match prefix c)) [
  | inl e ↦
      simp (count_matches, h.0.has_id, e)
        (count_matches-matching prefix cs (count + 1) (some c) h.1
          ∙ ap (λ n. some (n, last_of (some c) (matching prefix cs)))
              (let o : count + 1 + length (matching prefix cs)
                    ≡ count + suc (length (matching prefix cs)) =
                  omega arith in
                o))
  | inr e ↦ simp (count_matches, h.0.has_id, e) (count_matches-matching prefix cs count matched h.1)
]

of_count-only_one : (ms : List Contact) → of_count (0 + length ms, last_of none ms) ≡ only_one ms
unfolding of_count only_one last_of
of_count-only_one [] = refl
of_count-only_one (c ∷ []) = refl
of_count-only_one (c ∷ d ∷ ms) =
    ap (λ n. of_count (n, last_of (some d) ms))
      (let o : 0 + length (c ∷ d ∷ ms) ≡ suc (suc (length ms)) = omega arith in o)

-- Among contacts with identifiers the lookup by a prefix does not panic, and gives a contact exactly
-- when it is the only one whose identifier in hex starts with the prefix, in lower case and without
-- spaces around it; no match and several matches are told apart.
pub find_contact_by_id-only_one :
    (contacts : List Contact) (id_prefix : Bytes)
    → All IsKnown contacts
    → find_contact_by_id contacts id_prefix
      ≡ some (only_one (matching (to_lower (trim_space id_prefix)) contacts))
unfolding find_contact_by_id
find_contact_by_id-only_one contacts id_prefix h =
    rw
      (
        find_contact_by_id,
        count_matches-matching (to_lower (trim_space id_prefix)) contacts 0 none h,
      )
      (ap some (of_count-only_one (matching (to_lower (trim_space id_prefix)) contacts)))
