-- ===== src/Kademlia/Shortlist/Chosen.antt =====
-- `GetClosestQueried` of kademlia/shortlist.go leaves out no contact that is nearer than one that it
-- returns.
use d7024e_lab.Kademlia.Contact
use d7024e_lab.Kademlia.Id
use d7024e_lab.Kademlia.Shortlist.Kept
use d7024e_lab.Prelude.{
  All, Bool-cases, In, List, Option, [], ap, inl, inr, map, none, refl, some, some-injective, subst,
  suc, sym, take, true, zero, ℕ, ◌∷◌, ◌≡◌, ◌≤◌, ◌⊎◌,
}
use d7024e_lab.Kademlia.Contact.{Contact}
use d7024e_lab.Kademlia.RoutingTable.{closer, insert_sorted, sort}
use d7024e_lab.Kademlia.RoutingTable.Sort.{Ascending, away}
use d7024e_lab.Kademlia.Shortlist.{
  Candidate, Shortlist, get_candidate, get_closest_queried, is_queried, queried, select,
}
use d7024e_lab.Kademlia.Shortlist.Nearest.{HasAnswered, get_closest_queried-sort, queried-Ascending}
use d7024e_lab.Prelude.Bytes.{Bytes, bytes_eq}
use d7024e_lab.Prelude.Bytes.Dict.{Dict, lookup}

In-map : (c : Candidate) (cs : List Candidate) → In c cs → In c.contact (map (λ x. x.contact) cs)
In-map c [] i = i
In-map c (d ∷ ds) (inl e) = inl (ap (λ x. x.contact) e)
In-map c (d ∷ ds) (inr i) = inr (In-map c ds i)

lookup-select :
    (k : Bytes) (c : Candidate) (m : Dict Candidate)
    → lookup k m ≡ some c
    → is_queried c.status ≡ true
    → In c (select is_queried m)
unfolding lookup select
lookup-select k c [] e q = cc
lookup-select k c ((j, d) ∷ m) e q = elim (Bool-cases (bytes_eq j k)) [
  | inl b ↦
      let p : Path (Option Candidate) (some d) (some c) = rw (lookup, b) at e in
      let o : d ≡ c = some-injective p in
      let r : is_queried d.status ≡ true = subst (λ x. is_queried x.status ≡ true) (sym o) q in
      rw (select, r) (inl o)
  | inr b ↦
      let p : lookup k m ≡ some c = rw (lookup, b) at e in
      let i = lookup-select k c m p q in
      elim (Bool-cases (is_queried d.status)) [
        | inl r ↦ rw (select, r) (inr i)
        | inr r ↦ rw (select, r) i
      ]
]

In-insert_sorted :
    (c d : Contact.Contact) (ds : List Contact.Contact) → In c (d ∷ ds) → In c (insert_sorted d ds)
unfolding insert_sorted
In-insert_sorted c d [] i = i
In-insert_sorted c d (x ∷ xs) i = elim (Bool-cases (closer x d)) [
  | inr e ↦ rw e i
  | inl e ↦ rw e (by_place (In-insert_sorted c d xs) i)
]
  where
    by_place :
        (In c (d ∷ xs) → In c (insert_sorted d xs))
        → In c (d ∷ x ∷ xs)
        → In c (x ∷ insert_sorted d xs)
    by_place later (inl p) = inr (later (inl p))
    by_place later (inr (inl p)) = inl p
    by_place later (inr (inr j)) = inr (later (inr j))

In-sort : (c : Contact.Contact) (cs : List Contact.Contact) → In c cs → In c (sort cs)
unfolding sort
In-sort c [] i = i
In-sort c (d ∷ ds) (inl e) = In-insert_sorted c d (sort ds) (inl e)
In-sort c (d ∷ ds) (inr i) = In-insert_sorted c d (sort ds) (inr (In-sort c ds i))

-- A contact is in the list, or none of the list is further away than it.
abbrev pub NotNearer : Contact.Contact → List Contact.Contact → Type 0
NotNearer c cs = In c cs ⊎ All (λ d. away d ≤ away c) cs

take-NotNearer :
    (n : ℕ) (c : Contact.Contact) (cs : List Contact.Contact)
    → Ascending cs
    → In c cs
    → NotNearer c (take n cs)
take-NotNearer zero c cs h i = inr tt
take-NotNearer (suc n) c [] h i = inr tt
take-NotNearer (suc n) c (d ∷ ds) h (inl e) = inl (inl e)
take-NotNearer (suc n) c (d ∷ ds) h (inr i) = elim (take-NotNearer n c ds h.1 i) [
  | inl j ↦ inl (inr j)
  | inr a ↦ inr (at_most ds h.0 i, a)
]
  where
    at_most :
        (xs : List Contact.Contact) → All (λ x. away d ≤ away x) xs → In c xs → away d ≤ away c
    at_most [] a j = absurd j.1
    at_most (x ∷ xs) a (inl e) = subst (λ y. away d ≤ away y) e a.0
    at_most (x ∷ xs) a (inr j) = at_most xs a.1 j

answered-select :
    (s : Shortlist) (c : Contact.Contact)
    → HasAnswered s c
    → In (record { contact = c; status = queried }) (select is_queried s.candidates)
unfolding HasAnswered get_candidate
answered-select s c h = by_id c.id h
  where
    by_id :
        (id : Option Id.KademliaId)
        → get_candidate s id ≡ some (record { contact = c; status = queried })
        → In (record { contact = c; status = queried }) (select is_queried s.candidates)
    by_id none e = cc
    by_id (some k) e = lookup-select (Id.string k) _ s.candidates e refl

pub get_closest_queried-NotNearer :
    (t : Id.KademliaId) (s : Shortlist) (k : ℕ)
    → Kept.IsValid t s
    → (c : Contact.Contact) → HasAnswered s c
    → NotNearer c (get_closest_queried s k)
get_closest_queried-NotNearer t s k h c a =
    subst (NotNearer c) (sym (get_closest_queried-sort s k)) (
      take-NotNearer _ c _ (queried-Ascending t s h)
        (In-sort c _ (In-map _ (select is_queried s.candidates) (answered-select s c a))))
