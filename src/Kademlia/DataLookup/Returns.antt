-- ===== src/Kademlia/DataLookup/Returns.antt =====
-- `LookupDataByID` of kademlia/kademlia.go returns.
use d7024e_lab.Kademlia.Contact
use d7024e_lab.Kademlia.Shortlist
use d7024e_lab.Kademlia.RoutingTable
use d7024e_lab.Kademlia.RoutingTable.Valid
use d7024e_lab.Kademlia.DataStore
use d7024e_lab.Kademlia.Lookup
use d7024e_lab.Prelude.{
  All, Bool-cases, List, Option, Option-cases, arith, inl, inr, length, none, refl, some, subst,
  suc, true, zero, ℕ, ◌<◌, ◌∷◌, ◌≡◌,
}
use d7024e_lab.Kademlia.Bucket.{bucket_size}
use d7024e_lab.Kademlia.Contact.{Contact}
use d7024e_lab.Kademlia.DataLookup.{
  DataNetwork, Progress, Retrieval, found, get_local, going, iterate_data, lookup_data_by_id,
  probe_data, report, retrieved, search_from, search_network,
}
use d7024e_lab.Kademlia.DataLookup.Answers.{IsDataConfined}
use d7024e_lab.Kademlia.DataLookup.Rounds.{Shrinks, probe_data-Shrinks}
use d7024e_lab.Kademlia.DataStore.{DataStore, store}
use d7024e_lab.Kademlia.DataStore.Settled.{IsPlain}
use d7024e_lab.Kademlia.Id.{IsId, KademliaId}
use d7024e_lab.Kademlia.Lookup.{Search}
use d7024e_lab.Kademlia.Lookup.Found.{count_cases, start_lem}
use d7024e_lab.Kademlia.Lookup.Probes.{IsProbe, get_closest_unqueried-IsProbe}
use d7024e_lab.Kademlia.Lookup.Rounds.{next_probes, pending, pending-length}
use d7024e_lab.Kademlia.Lookup.Valid.{Covers}
use d7024e_lab.Kademlia.RoutingTable.{RoutingTable}
use d7024e_lab.Kademlia.Shortlist.{Shortlist, get_closest_unqueried, has_unqueried_in_top_k}
use d7024e_lab.Prelude.Bytes.{Bytes}
use d7024e_lab.Registry.Crypto.{Crypto}
use d7024e_lab.Registry.Record.{Json}

-- The routing table at the end.
abbrev LeavesValid : Progress → Type 0
LeavesValid (going q) = Valid.IsValid q.table
LeavesValid (found table kept x from) = Valid.IsValid table

-- The routing table at the end is valid, if there is one.
abbrev pub HasValidTable : Retrieval → Type 0
HasValidTable r = elim r.table [ none ↦ Unit | some table ↦ Valid.IsValid table ]

report-HasValidTable :
    (store : Option DataStore.DataStore) (p : Progress)
    → LeavesValid p
    → HasValidTable (report store p)
unfolding report
report-HasValidTable store (going q) h = h
report-HasValidTable store (found table kept x from) h = h

module _ (cr : Crypto) (js : Json) (names : List Bytes) (t : KademliaId) (me_id : Option KademliaId)
    (store : Option DataStore.DataStore) (network : DataNetwork)
    (confined : IsDataConfined names network t)
    (plain : (value : Bytes) → IsPlain cr js t value) where
  iterate_data-LeavesValid :
      (fuel alpha n : ℕ) (q : Search)
      → Lookup.Valid.IsValid names t q
      → pending names q.shortlist.candidates < fuel
      → (p : Progress) × (iterate_data cr js me_id store network t fuel (suc alpha) n q ≡ some p)
        × LeavesValid p
  unfolding iterate_data
  iterate_data-LeavesValid zero alpha n q h b = absurd (omega (arith, b))
  iterate_data-LeavesValid (suc fuel) alpha n q h b =
      elim (Bool-cases (has_unqueried_in_top_k q.shortlist bucket_size)) [
        | inr e ↦ (going q, rw (iterate_data, e) refl, h.table_valid)
        | inl e ↦
            let (c, cs, g) = next_probes q.shortlist alpha e in
            let ps : All (IsProbe names q.shortlist) (c ∷ cs) =
              subst (All (IsProbe names q.shortlist)) g (
                get_closest_unqueried-IsProbe names t q.shortlist (suc alpha) bucket_size
                  h.shortlist_valid h.all_named) in
            let (p, r, s) =
              probe_data-Shrinks cr js names t me_id store network confined plain n q c cs h ps in
            by_progress c cs e g p r s
              (λ q' h' b'. iterate_data-LeavesValid fuel alpha (suc n) q' h' b')
      ]
    where
      by_progress :
          (c : Contact.Contact) (cs : List Contact.Contact)
          → has_unqueried_in_top_k q.shortlist bucket_size ≡ true
          → get_closest_unqueried q.shortlist (suc alpha) bucket_size ≡ c ∷ cs
          → (p : Progress) → probe_data cr js me_id store network t n q (c ∷ cs) ≡ some p
          → Shrinks cr js names t me_id store network confined plain q p
          → ((q' : Search)
              → Lookup.Valid.IsValid names t q'
              → pending names q'.shortlist.candidates < fuel
              → (p' : Progress) × (iterate_data cr js me_id store network t fuel
                    (suc alpha)
                    (suc n)
                    q'
                  ≡ some p')
                × LeavesValid p')
          → (p' : Progress) × (iterate_data cr js me_id store network t (suc fuel) (suc alpha) n q
              ≡ some p')
            × LeavesValid p'
      by_progress c cs e g (going q') r s rest =
          let (p', r', v) = rest q' s.0 (omega (arith, s.1, b)) in
          (p', rw (iterate_data, e, g, r) r', v)
      by_progress c cs e g (found table kept x from) r s rest =
          (found table kept x from, rw (iterate_data, e, g, r) refl, s)

  module _ (fuel alpha : ℕ) (enough : length names < fuel) where
    search_from_lem :
        (q : Search)
        → Lookup.Valid.IsValid names t q
        → (r : Retrieval) × (search_from cr js me_id store network t fuel (suc alpha) q ≡ some r)
          × HasValidTable r
    unfolding search_from report
    search_from_lem q h = elim (count_cases (Shortlist.len q.shortlist)) [
      | inl z ↦ (report store (going q), rw (search_from, z) refl, h.table_valid)
      | inr (m, z) ↦
          let (p, e, v) =
            iterate_data-LeavesValid fuel alpha 0 q h
              (omega (arith, enough, pending-length names q.shortlist.candidates)) in
          (report store p, rw (search_from, z, e) refl, report-HasValidTable store p v)
    ]

    -- In a network whose answers, as the valid routing table, tell of finitely many named nodes only, a
    -- data lookup of a key that no latest pointer has does not panic and returns, with fuel above
    -- the number of nodes, whatever values the nodes answer, whichever fail, and in whatever order
    -- the results arrive; the routing table stays valid. No fetcher is asked on the way.
    pub lookup_data_by_id-returns :
        (me : Contact.Contact) (table : RoutingTable.RoutingTable)
        → me.id ≡ me_id
        → Valid.IsValid table
        → IsId t
        → Covers names table
        → (r : Retrieval) × (lookup_data_by_id cr js me store
              (some network)
              fuel
              (suc alpha)
              (some table)
              (some t)
            ≡ some r)
          × HasValidTable r
    unfolding lookup_data_by_id search_network
    lookup_data_by_id-returns me table mine h ht covered = elim (Option-cases (get_local store t)) [
      | inr (v, e) ↦ (
        record { table = some table; store = store; answer = retrieved v me },
        rw (lookup_data_by_id, e) refl,
        h,
      )
      | inl e ↦
          let (q, s, v, unmoved) = start_lem names t me_id table h ht covered in
          let (r, f, w) = search_from_lem q v in
          (r, rw (lookup_data_by_id, e, mine, search_network, s) f, w)
    ]
