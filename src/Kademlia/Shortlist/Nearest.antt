-- ===== src/Kademlia/Shortlist/Nearest.antt =====
-- What a lookup returns: the nearest contacts that answered (kademlia/shortlist.go).
use d7024e_lab.Kademlia.Id
use d7024e_lab.Kademlia.Contact
use d7024e_lab.Kademlia.Shortlist.Kept
use d7024e_lab.Prelude.{
  All, All-take, Bool, Bool-cases, List, [], ap, arith, inl, inr, length, length-take, map, min,
  refl, some, subst, sym, take, true, ℕ, ◌∙◌, ◌∷◌, ◌≡◌, ◌≢◌,
}
use d7024e_lab.Kademlia.Bucket.Recency.{Distinct}
use d7024e_lab.Kademlia.Contact.{Contact, key}
use d7024e_lab.Kademlia.Id.{IsId, KademliaId}
use d7024e_lab.Kademlia.Id.Metric.{calc_distance-IsId}
use d7024e_lab.Kademlia.RoutingTable.{sort}
use d7024e_lab.Kademlia.RoutingTable.Sort.{
  All-sort, Ascending, Ascending-sort, Ascending-take, IsMeasured, length-sort,
}
use d7024e_lab.Kademlia.Shortlist.{
  Candidate, CandidateStatus, Shortlist, get_candidate, get_closest_queried, is_queried, queried,
  select, sort_candidates, unqueried, unresponsive,
}
use d7024e_lab.Kademlia.Shortlist.Kept.{IsHeld}
use d7024e_lab.Kademlia.Shortlist.Top.{
  length-map, length-sort_candidates, map-sort_candidates, map-take,
}
use d7024e_lab.Prelude.Bytes.{Bytes, bytes_eq_ne, bytes_eq_self}
use d7024e_lab.Prelude.Bytes.Dict.{Dict, lookup}

-- Without doubled keys each entry is what its key reads.
unfoldable pub Reads : Dict Candidate → Bytes × Candidate → Type 0
Reads m e = lookup e.0 m ≡ some e.1

Reads-later :
    (k : Bytes) (v : Candidate) (m n : Dict Candidate)
    → All (λ j. k ≢ j) (map (λ e. e.0) n)
    → All (Reads m) n
    → All (Reads ((k, v) ∷ m)) n
unfolding Reads lookup
Reads-later k v m [] d h = tt
Reads-later k v m ((j, w) ∷ n) d h =
    (rw (lookup, bytes_eq_ne k j d.0) h.0, Reads-later k v m n d.1 h.1)

pub All-read : (m : Dict Candidate) → Distinct (map (λ e. e.0) m) → All (Reads m) m
unfolding Reads lookup
All-read [] d = tt
All-read ((k, v) ∷ m) d =
    (rw (lookup, bytes_eq_self k) refl, Reads-later k v m m d.0 (All-read m d.1))

-- The shortlist says of the contact that it answered.
unfoldable pub HasAnswered : Shortlist → Contact.Contact → Type 0
HasAnswered s c = get_candidate s c.id ≡ some (record { contact = c; status = queried })

is_queried-eq : (st : CandidateStatus) → is_queried st ≡ true → st ≡ queried
is_queried-eq unqueried h = cc
is_queried-eq queried h = refl
is_queried-eq unresponsive h = cc

module _ (t : KademliaId) (s : Shortlist) where
  answered :
      (e : Bytes × Candidate)
      → IsHeld t s.me_id e
      → Reads s.candidates e
      → is_queried e.1.status ≡ true
      → HasAnswered s e.1.contact
  unfolding HasAnswered get_candidate Reads
  answered e h r q =
      ap (get_candidate s) h.known.has_id
      ∙ ap (λ k. lookup k s.candidates) (sym h.named)
      ∙ r
      ∙ ap (λ st. some (record { contact = e.1.contact; status = st })) (is_queried-eq e.1.status q)

  select-HasAnswered :
      (m : Dict Candidate)
      → All (IsHeld t s.me_id) m
      → All (Reads s.candidates) m
      → All (λ c. HasAnswered s c.contact) (select is_queried m)
  unfolding select
  select-HasAnswered [] h r = tt
  select-HasAnswered ((k, c) ∷ m) h r = elim (Bool-cases (is_queried c.status)) [
    | inl e ↦ rw e (answered (k, c) h.0 r.0 e, select-HasAnswered m h.1 r.1)
    | inr e ↦ rw e (select-HasAnswered m h.1 r.1)
  ]

  select-IsMeasured :
      (p : CandidateStatus → Bool) (m : Dict Candidate)
      → IsId t
      → All (IsHeld t s.me_id) m
      → All (λ c. IsMeasured c.contact) (select p m)
  unfolding select
  select-IsMeasured p [] ht h = tt
  select-IsMeasured p ((k, c) ∷ m) ht h = elim (Bool-cases (p c.status)) [
    | inl e ↦ rw e (
      record {
        gap = Id.calc_distance (key c.contact) t;
        filled = h.0.measured;
        gap_id = calc_distance-IsId (key c.contact) t h.0.known.key_id ht;
      },
      select-IsMeasured p m ht h.1,
    )
    | inr e ↦ rw e (select-IsMeasured p m ht h.1)
  ]

All-map :
    (P : Contact.Contact → Type 0) (cs : List Candidate)
    → All (λ c. P c.contact) cs
    → All P (map (λ c. c.contact) cs)
All-map P [] h = tt
All-map P (c ∷ cs) h = (h.0, All-map P cs h.1)

pub get_closest_queried-sort :
    (s : Shortlist) (k : ℕ)
    → get_closest_queried s k
      ≡ take
          (min k (length (select is_queried s.candidates)))
          (sort (map (λ c. c.contact) (select is_queried s.candidates)))
unfolding get_closest_queried
get_closest_queried-sort s k =
    let cs = select is_queried s.candidates in
    map-take (λ c. c.contact) (min k (length (sort_candidates cs))) (sort_candidates cs)
    ∙ ap (λ n. take (min k n) (map (λ c. c.contact) (sort_candidates cs)))
        (length-sort_candidates cs)
    ∙ ap (take (min k (length cs))) (map-sort_candidates cs)

pub queried-Ascending :
    (t : KademliaId) (s : Shortlist)
    → Kept.IsValid t s
    → Ascending (sort (map (λ c. c.contact) (select is_queried s.candidates)))
queried-Ascending t s h =
    Ascending-sort (map (λ c. c.contact) (select is_queried s.candidates))
      (All-map IsMeasured _ (select-IsMeasured t s is_queried s.candidates h.target_id h.held))

-- On a valid shortlist `GetClosestQueried` returns as many contacts as asked for, or all that
-- answered if these are fewer; each one answered, and they come nearest to the target first.
pub get_closest_queried_lem :
    (t : KademliaId) (s : Shortlist) (k : ℕ)
    → Kept.IsValid t s
    → (length (get_closest_queried s k) ≡ min k (length (select is_queried s.candidates)))
      × Ascending (get_closest_queried s k)
      × All (HasAnswered s) (get_closest_queried s k)
get_closest_queried_lem t s k h =
    let n = length (select is_queried s.candidates) in
    let cs = map (λ c. c.contact) (select is_queried s.candidates) in
    let e = sym (get_closest_queried-sort s k) in
    (
      ap length (sym e)
          ∙ omega (
            arith,
            length-take (min k n) (sort cs),
            length-sort cs,
            length-map (λ c. c.contact) (select is_queried s.candidates),
          ),
      subst Ascending e (Ascending-take (min k n) (sort cs) (queried-Ascending t s h)),
      subst (All (HasAnswered s)) e (
          All-take (HasAnswered s) (min k n) (sort cs) (
            All-sort (HasAnswered s) cs (
              All-map (HasAnswered s) _
                (select-HasAnswered t s s.candidates h.held (All-read s.candidates h.distinct))))),
    )
