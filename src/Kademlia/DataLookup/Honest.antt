-- ===== src/Kademlia/DataLookup/Honest.antt =====
-- The result of a data lookup (kademlia/kademlia.go): where a value comes from, and what became of
-- the local store.
use d7024e_lab.Kademlia.DataStore
use d7024e_lab.Kademlia.Shortlist
use d7024e_lab.Kademlia.RoutingTable
use d7024e_lab.Kademlia.Lookup
use d7024e_lab.Prelude.{
  Option, Option-cases, [], inl, inr, none, refl, some, subst, suc, zero, ℕ, ◌>>=◌, ◌≡◌, ◌≢◌, ◌⊎◌,
}
use d7024e_lab.Kademlia.Contact.{Contact}
use d7024e_lab.Kademlia.DataLookup.{
  DataNetwork, Progress, Retrieval, found, get_local, going, iterate_data, lookup_data_by_id,
  no_target, report, retrieved, search_from, search_network, value_not_found,
}
use d7024e_lab.Kademlia.DataLookup.Genuine.{IsGenuine, OnlyGenuine, iterate_data-OnlyGenuine}
use d7024e_lab.Kademlia.DataStore.{DataStore, store}
use d7024e_lab.Kademlia.Id.{KademliaId}
use d7024e_lab.Kademlia.Id.Order.{value}
use d7024e_lab.Kademlia.Lookup.{Search}
use d7024e_lab.Kademlia.RoutingTable.{RoutingTable}
use d7024e_lab.Kademlia.Shortlist.{Shortlist}
use d7024e_lab.Registry.Crypto.{Crypto}
use d7024e_lab.Registry.Record.{Json}

-- What a retrieval says is so: a value that is in the local store, with the node itself as its
-- source, or a genuine value of another node; without a value the store is left as it was.
abbrev pub IsHonest :
    (cr : Crypto) (js : Json) (me : Contact) (store : Option DataStore.DataStore)
    (target : KademliaId)
    → Retrieval
    → Type 0
IsHonest cr js me store target r = elim r.answer [
  | retrieved value from ↦
      ((get_local store target ≡ some value) × (from ≡ me) × (r.store ≡ store))
      ⊎ (IsGenuine cr js store target r.store value × (value ≢ []))
  | value_not_found ↦ r.store ≡ store
  | no_target ↦ ⊥
]

module _ (cr : Crypto) (js : Json) (me : Contact) (store : Option DataStore.DataStore)
    (target : KademliaId) where
  report-IsHonest :
      (p : Progress)
      → OnlyGenuine cr js store target (some p)
      → IsHonest cr js me store target (report store p)
  unfolding report
  report-IsHonest (going q) h = refl
  report-IsHonest (found table kept value from) h = inr h

  search_from-IsHonest :
      (network : DataNetwork) (fuel alpha : ℕ) (q : Search) {r : Retrieval}
      → search_from cr js me.id store network target fuel alpha q ≡ some r
      → IsHonest cr js me store target r
  unfolding search_from report
  search_from-IsHonest network fuel alpha q {r} h = by_length (Shortlist.len q.shortlist) refl
    where
      by_progress :
          (p : Option Progress)
          → OnlyGenuine cr js store target p
          → (p >>= λ x. some (report store x)) ≡ some r
          → IsHonest cr js me store target r
      by_progress none s e = cc
      by_progress (some x) s e =
          let o : report store x ≡ r = cc in
          subst (IsHonest cr js me store target) o (report-IsHonest x s)

      by_length : (n : ℕ) → Shortlist.len q.shortlist ≡ n → IsHonest cr js me store target r
      by_length zero e =
          let p : Path (Option Retrieval) (some (report store (going q))) (some r) =
            rw (search_from, e) at h in
          let o : report store (going q) ≡ r = cc in subst (IsHonest cr js me store target) o refl
      by_length (suc n) e =
          by_progress (iterate_data cr js me.id store network target fuel alpha 0 q)
            (iterate_data-OnlyGenuine cr js me.id store network target fuel alpha 0 q)
            (rw (search_from, e) at h)

  search_network-IsHonest :
      (network : Option DataNetwork) (fuel alpha : ℕ) (table : Option RoutingTable.RoutingTable)
      {r : Retrieval}
      → search_network cr js me.id store network fuel alpha table target ≡ some r
      → IsHonest cr js me store target r
  unfolding search_network
  search_network-IsHonest none fuel alpha table {r} h =
      let o : record { table = table; store = store; answer = value_not_found } ≡ r = cc in
      subst (IsHonest cr js me store target) o refl
  search_network-IsHonest (some network) fuel alpha none {r} h =
      let o : record { table = none; store = store; answer = value_not_found } ≡ r = cc in
      subst (IsHonest cr js me store target) o refl
  search_network-IsHonest (some network) fuel alpha (some table) {r} h =
      elim (Option-cases (Lookup.start me.id table target)) [
        | inl e ↦ let p : Path (Option Retrieval) none (some r) = rw (search_network, e) at h in cc
        | inr (q, e) ↦ search_from-IsHonest network fuel alpha q (rw (search_network, e) at h)
      ]

  -- What a lookup returns is honest.
  pub lookup_data_by_id-IsHonest :
      (network : Option DataNetwork) (fuel alpha : ℕ) (table : Option RoutingTable.RoutingTable)
      {r : Retrieval}
      → lookup_data_by_id cr js me store network fuel alpha table (some target) ≡ some r
      → IsHonest cr js me store target r
  unfolding lookup_data_by_id
  lookup_data_by_id-IsHonest network fuel alpha table {r} h =
      elim (Option-cases (get_local store target)) [
        | inl e ↦ search_network-IsHonest network fuel alpha table (rw (lookup_data_by_id, e) at h)
        | inr (v, e) ↦
            let p : Path (Option Retrieval)
                (some (record { table = table; store = store; answer = retrieved v me })) (some r) =
              rw (lookup_data_by_id, e) at h in
            let o : record { table = table; store = store; answer = retrieved v me } ≡ r = cc in
            subst (IsHonest cr js me store target) o (inl (e, refl, refl))
      ]
