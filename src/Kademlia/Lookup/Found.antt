-- ===== src/Kademlia/Lookup/Found.antt =====
-- What `LookupContactByID` of kademlia/kademlia.go returns.
use d7024e_lab.Kademlia.Shortlist
use d7024e_lab.Kademlia.RoutingTable
use d7024e_lab.Kademlia.RoutingTable.Valid
use d7024e_lab.Kademlia.Lookup
use d7024e_lab.Kademlia.Contact
use d7024e_lab.Prelude.{
  All, In, List, Option, Option-cases, [], arith, false, inl, inr, length, min, none, refl, some,
  subst, suc, sym, zero, ℕ, ◌<◌, ◌∷◌, ◌≡◌, ◌≤◌, ◌⊎◌,
}
use d7024e_lab.Kademlia.Bucket.{bucket_size}
use d7024e_lab.Kademlia.Contact.{Contact, IsTyped}
use d7024e_lab.Kademlia.Id.{IsId, KademliaId}
use d7024e_lab.Kademlia.Lookup.{
  Network, Search, conclude, find_local, iterate, look_up, look_up_from, lookup_contact_by_id,
  start,
}
use d7024e_lab.Kademlia.Lookup.Answers.{IsConfined}
use d7024e_lab.Kademlia.Lookup.Rounds.{iterate_ends, pending-length}
use d7024e_lab.Kademlia.Lookup.Valid.{Covers, IsNamed, add_one-named}
use d7024e_lab.Kademlia.RoutingTable.{RoutingTable}
use d7024e_lab.Kademlia.RoutingTable.Closest.{find_closest_contacts_lem}
use d7024e_lab.Kademlia.RoutingTable.Listed.{IsListed}
use d7024e_lab.Kademlia.RoutingTable.Sort.{Ascending}
use d7024e_lab.Kademlia.RoutingTable.Valid.{home}
use d7024e_lab.Kademlia.Shortlist.{Shortlist, add_one, get_closest_queried}
use d7024e_lab.Kademlia.Shortlist.Chosen.{NotNearer, get_closest_queried-NotNearer}
use d7024e_lab.Kademlia.Shortlist.Kept.{add-IsValid, new_shortlist-IsValid}
use d7024e_lab.Kademlia.Shortlist.Nearest.{HasAnswered, get_closest_queried_lem}
use d7024e_lab.Prelude.Bytes.{Bytes}

All-In :
    (P : Contact.Contact → Type 0) (c : Contact.Contact) (cs : List Contact.Contact)
    → All P cs
    → In c cs
    → P c
All-In P c [] h i = absurd i.1
All-In P c (d ∷ ds) h (inl e) = subst P e h.0
All-In P c (d ∷ ds) h (inr i) = All-In P c ds h.1 i

add-named :
    (names : List Bytes) (s s' : Shortlist.Shortlist) (cs : List Contact.Contact)
    → All (IsNamed names) cs
    → All (λ e. In e.0 names) s.candidates
    → Shortlist.add s cs ≡ some s'
    → All (λ e. In e.0 names) s'.candidates
unfolding Shortlist.add
add-named names s s' [] n a p =
    let o : s ≡ s' = cc in subst (λ x. All (λ e. In e.0 names) x.candidates) o a
add-named names s s' (c ∷ cs) n a p = elim (Option-cases (add_one s c)) [
  | inl e ↦
      let q : Path (Option Shortlist.Shortlist) none (some s') = rw (Shortlist.add, e) at p in cc
  | inr (x, e) ↦
      add-named names x s' cs n.1 (add_one-named (λ k. In k names) s x c n.0.named a e)
        (let q : Shortlist.add x cs ≡ some s' = rw (Shortlist.add, e) at p in q)
]

-- Where the answer of a lookup comes from: with no candidate to ask it is that of the routing table;
-- else it is of contacts that answered, where no contact that answered and is not among them is
-- nearer, as many as asked for or all of them, when each of the nearest candidates that did not fail
-- was asked.
pub data IsFound (me_id : Option KademliaId) (network : Network) (t : KademliaId) (fuel alpha : ℕ)
    (table : RoutingTable.RoutingTable) (closest : List Contact.Contact) : Type 0 where
  in_table :
      (q : Search)
      → start me_id table t ≡ some q
      → Shortlist.len q.shortlist ≡ 0
      → RoutingTable.find_closest_contacts table (some t) bucket_size ≡ some closest
      → IsFound me_id network t fuel alpha table closest
  by_asking :
      (q q' : Search)
      → start me_id table t ≡ some q
      → iterate me_id network t fuel alpha 0 q ≡ some (some q')
      → Shortlist.has_unqueried_in_top_k q'.shortlist bucket_size ≡ false
      → length closest
        ≡ min bucket_size (length (Shortlist.select Shortlist.is_queried q'.shortlist.candidates))
      → All (HasAnswered q'.shortlist) closest
      → ((c : Contact.Contact) → HasAnswered q'.shortlist c → NotNearer c closest)
      → IsFound me_id network t fuel alpha table closest

-- At most `bucket_size` contacts, the nearest first, found as above.
pub record IsAnswer (me_id : Option KademliaId) (network : Network) (t : KademliaId)
    (fuel alpha : ℕ) (table : RoutingTable.RoutingTable) (closest : List Contact.Contact)
    : Type 0 where
  pub bounded : length closest ≤ bucket_size
  pub ascending : Ascending closest
  pub found : IsFound me_id network t fuel alpha table closest

pub count_cases : (n : ℕ) → (n ≡ 0) ⊎ ((m : ℕ) × (n ≡ suc m))
count_cases zero = inl refl
count_cases (suc m) = inr (m, refl)

-- A node with a valid routing table and identifiers of the network's nodes.
module _ (names : List Bytes) (t : KademliaId) (me_id : Option KademliaId)
    (table : RoutingTable.RoutingTable) (h : Valid.IsValid table) (ht : IsId t) where
  find_local_lem :
      (closest : List Contact.Contact) × (find_local table t ≡ some (table, closest))
      × (RoutingTable.find_closest_contacts table (some t) bucket_size ≡ some closest)
      × (length closest ≤ bucket_size)
      × Ascending closest
  unfolding find_local
  find_local_lem =
      let (r, e, l, a, i, d) = find_closest_contacts_lem table t bucket_size h ht in
      (r, rw (find_local, e) refl, e, ground (arith, l), a)

  module _ (covered : Covers names table) where
    listed-IsNamed :
        (cs : List Contact.Contact) → All (IsListed table t) cs → All (IsNamed names) cs
    unfolding Covers
    listed-IsNamed [] l = tt
    listed-IsNamed (c ∷ cs) l =
        let n =
          All-In (IsNamed names) l.0.origin (table.buckets (home table l.0.origin))
            (covered (home table l.0.origin)) l.0.in_table in
        (
          subst (IsNamed names) (sym l.0.is_measured)
              (record { typed = record { id_typed = n.typed.id_typed }; named = n.named }),
          listed-IsNamed cs l.1,
        )

    All-IsTyped : (cs : List Contact.Contact) → All (IsNamed names) cs → All IsTyped cs
    All-IsTyped [] n = tt
    All-IsTyped (c ∷ cs) n = (n.0.typed, All-IsTyped cs n.1)

    pub start_lem :
        (q : Search) × (start me_id table t ≡ some q)
        × Lookup.Valid.IsValid names t q
        × (q.table ≡ table)
    unfolding start Shortlist.new_shortlist
    start_lem =
        let (r, e, l, a, i, d) = find_closest_contacts_lem table t bucket_size h ht in
        let n = listed-IsNamed r i in
        let fresh = Shortlist.new_shortlist (some t) me_id in
        let (s, p, v, k) =
          add-IsValid t fresh r (new_shortlist-IsValid t me_id ht) (All-IsTyped r n) in
        (
          record { table = table; shortlist = s },
          rw (start, e, p) refl,
          record {
            table_valid = h;
            shortlist_valid = v;
            all_named = add-named names fresh s r n tt p;
            covered = covered;
          },
          refl,
        )

    module _ (network : Network) (confined : IsConfined names network t) (fuel alpha : ℕ)
        (enough : length names < fuel) where
      -- The loop from the shortlist of the local candidates.
      iterated :
          (q : Search)
          → start me_id table t ≡ some q
          → Lookup.Valid.IsValid names t q
          → (table' : RoutingTable.RoutingTable) × (closest : List Contact.Contact) × (conclude
                (iterate me_id network t fuel (suc alpha) 0 q)
              ≡ some (some (table', closest)))
            × Valid.IsValid table'
            × Covers names table'
            × IsAnswer me_id network t fuel (suc alpha) table closest
      unfolding conclude
      iterated q s v =
          let (q', e, v', d) =
            iterate_ends names t me_id network confined fuel alpha 0 q v
              (omega (arith, enough, pending-length names q.shortlist.candidates)) in
          let (l, a, n) = get_closest_queried_lem t q'.shortlist bucket_size v'.shortlist_valid in
          let m = get_closest_queried-NotNearer t q'.shortlist bucket_size v'.shortlist_valid in
          (
            q'.table,
            get_closest_queried q'.shortlist bucket_size,
            rw (conclude, e) refl,
            v'.table_valid,
            v'.covered,
            record {
              bounded = ground (arith, l);
              ascending = a;
              found = by_asking q q' s e d l n m;
            },
          )

      pub look_up_lem :
          (table' : RoutingTable.RoutingTable) × (closest : List Contact.Contact) × (look_up me_id
              (some network)
              fuel
              (suc alpha)
              table
              t
            ≡ some (some (table', closest)))
          × Valid.IsValid table'
          × Covers names table'
          × IsAnswer me_id network t fuel (suc alpha) table closest
      unfolding look_up look_up_from
      look_up_lem =
          let (q, e, v, same) = start_lem in
          elim (count_cases (Shortlist.len q.shortlist)) [
            | inl z ↦
                let (r, p, f, l, a) = find_local_lem in
                (
                  table,
                  r,
                  rw (look_up, e, look_up_from, z, same, p) refl,
                  h,
                  covered,
                  record { bounded = l; ascending = a; found = in_table q e z f },
                )
            | inr (m, z) ↦
                let (table', r, p, v', k, a) = iterated q e v in
                (table', r, rw (look_up, e, look_up_from, z, p) refl, v', k, a)
          ]

      pub lookup_contact_by_id_lem :
          (table' : RoutingTable.RoutingTable) × (closest : List Contact.Contact)
          × (lookup_contact_by_id me_id (some network) fuel (suc alpha) (some table) (some t)
              ≡ some (some (some table', closest)))
          × Valid.IsValid table'
          × Covers names table'
          × IsAnswer me_id network t fuel (suc alpha) table closest
      unfolding lookup_contact_by_id
      lookup_contact_by_id_lem =
          let (table', r, p, v, k, a) = look_up_lem in
          (table', r, rw (lookup_contact_by_id, p) refl, v, k, a)
