-- ===== src/Kademlia/Shortlist/Marks.antt =====
-- What marking a contact changes (kademlia/shortlist.go).
use d7024e_lab.Kademlia.Id
use d7024e_lab.Kademlia.Shortlist.Kept
use d7024e_lab.Prelude.{
  All, Bool-cases, Option, [], ap, arith, if◌then◌else◌, inl, inr, map, none, refl, some, subst,
  sym, true, ◌∷◌, ◌≡◌,
}
use d7024e_lab.Kademlia.Bucket.Recency.{Distinct}
use d7024e_lab.Kademlia.Id.{IsId, KademliaId}
use d7024e_lab.Kademlia.Id.Order.{equals_iff, string-injective}
use d7024e_lab.Kademlia.Shortlist.{
  Candidate, CandidateStatus, Shortlist, get_candidate, mark, set_status,
}
use d7024e_lab.Kademlia.Shortlist.Kept.{IsHeld}
use d7024e_lab.Prelude.Bytes.{Bytes, bytes_eq, bytes_eq_iff, bytes_eq_ne}
use d7024e_lab.Prelude.Bytes.Dict.{Dict, lookup}

-- A candidate with another status.
abbrev pub with_status : CandidateStatus → Option Candidate → Option Candidate
with_status st none = none
with_status st (some c) = some (record c { status = st })

pub lookup-set_status :
    (st : CandidateStatus) (k j : Bytes) (m : Dict Candidate)
    → lookup j (set_status st k m)
      ≡ (if bytes_eq k j then with_status st (lookup j m) else lookup j m)
unfolding lookup set_status
lookup-set_status st k j [] = ground arith
lookup-set_status st k j ((i, c) ∷ m) =
    ground (arith, bytes_eq_iff k j, bytes_eq_iff i k, bytes_eq_iff i j, lookup-set_status st k j m)

-- A mark sets the status of the contact with the identifier, if the shortlist has it, and changes no
-- other candidate; this holds of both marks.
pub get_candidate-mark :
    (st : CandidateStatus) (s : Shortlist) (id other : KademliaId)
    → IsId id
    → IsId other
    → get_candidate (mark st s (some id)) (some other) ≡ (
        if Id.equals id other
        then with_status st (get_candidate s (some other))
        else get_candidate s (some other))
unfolding get_candidate mark
get_candidate-mark st s id other hi ho =
    rw
      (
        lookup-set_status st (Id.string id) (Id.string other) s.candidates,
        names_agree id other hi ho,
      )
      refl
  where
    names_agree :
        (a b : KademliaId) → IsId a → IsId b → bytes_eq (Id.string a) (Id.string b) ≡ Id.equals a b
    names_agree a b ha hb = elim (Bool-cases (Id.equals a b)) [
      | inl e ↦ rw e ((bytes_eq_iff _ _).1 (ap Id.string ((equals_iff a b ha hb).0 e)))
      | inr e ↦ rw e (
          bytes_eq_ne _ _ (λ p.
            let t : Id.equals a b ≡ true =
              (equals_iff a b ha hb).1 (string-injective a b ha hb p) in
            cc))
    ]

All-set_status :
    (t : KademliaId) (me_id : Option KademliaId) (st : CandidateStatus) (k : Bytes)
    (m : Dict Candidate)
    → All (IsHeld t me_id) m
    → All (IsHeld t me_id) (set_status st k m)
unfolding set_status
All-set_status t me_id st k [] h = tt
All-set_status t me_id st k ((j, c) ∷ m) h = elim (Bool-cases (bytes_eq j k)) [
  | inl e ↦ rw e (
    record { known = h.0.known; named = h.0.named; measured = h.0.measured; not_own = h.0.not_own },
    h.1,
  )
  | inr e ↦ rw e (h.0, All-set_status t me_id st k m h.1)
]

keys-set_status :
    (st : CandidateStatus) (k : Bytes) (m : Dict Candidate)
    → map (λ e. e.0) (set_status st k m) ≡ map (λ e. e.0) m
unfolding set_status
keys-set_status st k [] = refl
keys-set_status st k ((j, c) ∷ m) = ground (arith, keys-set_status st k m)

pub mark-IsValid :
    (t : KademliaId) (st : CandidateStatus) (s : Shortlist) (id : Option KademliaId)
    → Kept.IsValid t s
    → Kept.IsValid t (mark st s id)
unfolding mark
mark-IsValid t st s none h = h
mark-IsValid t st s (some id) h = record {
  has_target = h.has_target;
  target_id = h.target_id;
  held = All-set_status t s.me_id st (Id.string id) s.candidates h.held;
  distinct = subst Distinct (sym (keys-set_status st (Id.string id) s.candidates)) h.distinct;
}
