-- ===== src/Kademlia/Lookup/Probes.antt =====
-- The contacts that a round of a lookup asks (kademlia/kademlia.go): candidates of the shortlist that
-- were not asked before.
use d7024e_lab.Kademlia.Shortlist
use d7024e_lab.Kademlia.Shortlist.Kept
use d7024e_lab.Kademlia.Id
use d7024e_lab.Kademlia.Contact
use d7024e_lab.Prelude.{
  All, All-take, Bool, Bool-cases, In, List, [], inl, inr, subst, suc, take, true, zero, ℕ, ◌∷◌,
  ◌≡◌,
}
use d7024e_lab.Kademlia.Contact.{Contact, IsKnown, key}
use d7024e_lab.Kademlia.Id.{KademliaId}
use d7024e_lab.Kademlia.Lookup.Valid.{is_open}
use d7024e_lab.Kademlia.RoutingTable.{closer}
use d7024e_lab.Kademlia.Shortlist.{
  Candidate, CandidateStatus, Shortlist, get_active_candidates, get_closest_unqueried,
  insert_candidate, is_active, is_unqueried, select, sort_candidates, take_unqueried,
}
use d7024e_lab.Kademlia.Shortlist.Kept.{IsHeld}
use d7024e_lab.Kademlia.Shortlist.Nearest.{All-read, Reads}
use d7024e_lab.Prelude.Bytes.{Bytes}
use d7024e_lab.Prelude.Bytes.Dict.{Dict, has, has-lookup}

-- A candidate that may be probed.
pub record IsProbe (names : List Bytes) (s : Shortlist.Shortlist) (c : Contact.Contact)
    : Type 0 where
  pub known : IsKnown c
  pub named : In (Id.string (key c)) names
  pub found : has (Id.string (key c)) s.candidates ≡ true
  pub open_before : is_open (Id.string (key c)) s.candidates ≡ true

module _ (P : Candidate → Type 0) where
  All-insert_candidate :
      (c : Candidate) (ds : List Candidate) → P c → All P ds → All P (insert_candidate c ds)
  unfolding insert_candidate
  All-insert_candidate c [] p h = (p, tt)
  All-insert_candidate c (d ∷ ds) p h = elim (Bool-cases (closer d.contact c.contact)) [
    | inl e ↦ rw e (h.0, All-insert_candidate c ds p h.1)
    | inr e ↦ rw e (p, h)
  ]

  All-sort_candidates : (cs : List Candidate) → All P cs → All P (sort_candidates cs)
  unfolding sort_candidates
  All-sort_candidates [] h = tt
  All-sort_candidates (c ∷ cs) h =
      All-insert_candidate c (sort_candidates cs) h.0 (All-sort_candidates cs h.1)

-- The property of the candidates that were not asked.
abbrev WhenUnqueried : (Contact.Contact → Type 0) → Candidate → Type 0
WhenUnqueried P c = is_unqueried c.status ≡ true → P c.contact

All-take_unqueried :
    (P : Contact.Contact → Type 0) (room : ℕ) (cs : List Candidate)
    → All (WhenUnqueried P) cs
    → All P (take_unqueried room cs)
unfolding take_unqueried
All-take_unqueried P zero cs h = tt
All-take_unqueried P (suc room) [] h = tt
All-take_unqueried P (suc room) (c ∷ cs) h = elim (Bool-cases (is_unqueried c.status)) [
  | inl e ↦ rw e (h.0 e, All-take_unqueried P room cs h.1)
  | inr e ↦ rw e (All-take_unqueried P (suc room) cs h.1)
]

module _ (names : List Bytes) (t : KademliaId) (s : Shortlist.Shortlist) where
  entry-IsProbe :
      (e : Bytes × Candidate)
      → IsHeld t s.me_id e
      → Reads s.candidates e
      → In e.0 names
      → WhenUnqueried (IsProbe names s) e.1
  unfolding Reads is_open
  entry-IsProbe (k, c) h r n = λ u. record {
    known = h.known;
    named = subst (λ x. In x names) h.named n;
    found = subst (λ x. has x s.candidates ≡ true) h.named (has-lookup k c s.candidates r);
    open_before =
        subst (λ x. is_open x s.candidates ≡ true) h.named
          (let p : is_open k s.candidates ≡ true = rw (is_open, r) u in p);
  }

  select-IsProbe :
      (p : CandidateStatus → Bool) (m : Dict Candidate)
      → All (IsHeld t s.me_id) m
      → All (Reads s.candidates) m
      → All (λ e. In e.0 names) m
      → All (WhenUnqueried (IsProbe names s)) (select p m)
  unfolding select
  select-IsProbe p [] h r n = tt
  select-IsProbe p ((k, c) ∷ m) h r n = elim (Bool-cases (p c.status)) [
    | inl e ↦ rw e (entry-IsProbe (k, c) h.0 r.0 n.0, select-IsProbe p m h.1 r.1 n.1)
    | inr e ↦ rw e (select-IsProbe p m h.1 r.1 n.1)
  ]

  pub get_closest_unqueried-IsProbe :
      (count k : ℕ)
      → Kept.IsValid t s
      → All (λ e. In e.0 names) s.candidates
      → All (IsProbe names s) (get_closest_unqueried s count k)
  unfolding get_closest_unqueried get_active_candidates
  get_closest_unqueried-IsProbe count k h n =
      let cs = select is_active s.candidates in
      All-take_unqueried (IsProbe names s) count (take k (sort_candidates cs)) (
        All-take (WhenUnqueried (IsProbe names s)) k (sort_candidates cs) (
          All-sort_candidates (WhenUnqueried (IsProbe names s)) cs
            (select-IsProbe is_active s.candidates h.held (All-read s.candidates h.distinct) n)))
