-- ===== src/Kademlia/DataLookup/Genuine.antt =====
-- What a data lookup (kademlia/kademlia.go) returns is genuine, whatever the nodes answer.
use d7024e_lab.Kademlia.Id
use d7024e_lab.Kademlia.DataStore
use d7024e_lab.Kademlia.Shortlist
use d7024e_lab.Kademlia.RoutingTable
use d7024e_lab.Prelude.{
  Bool, Bool-cases, List, Option, Option-cases, [], false, inl, inr, none, refl, some, suc, sym,
  true, zero, ℕ, ◌∙◌, ◌∷◌, ◌≡◌, ◌≢◌,
}
use d7024e_lab.Kademlia.Bucket.{bucket_size}
use d7024e_lab.Kademlia.Contact.{Contact}
use d7024e_lab.Kademlia.DataLookup.{
  DataNetwork, Progress, accept, cache, check, found, going, iterate_data, judge, probe_data,
  receive_all_data, receive_data, take_answer,
}
use d7024e_lab.Kademlia.DataStore.{DataStore, store}
use d7024e_lab.Kademlia.DataStore.Wired.{node_validate, node_validate-some}
use d7024e_lab.Kademlia.Id.{KademliaId}
use d7024e_lab.Kademlia.Id.Order.{value}
use d7024e_lab.Kademlia.Lookup.{Search, add_found, in_order}
use d7024e_lab.Kademlia.RoutingTable.{RoutingTable}
use d7024e_lab.Kademlia.Shortlist.{Shortlist}
use d7024e_lab.Prelude.Bytes.{Bytes}
use d7024e_lab.Registry.Crypto.{Crypto}
use d7024e_lab.Registry.Outcome.{Result, err, ok}
use d7024e_lab.Registry.Record.{Json}

module _ (cr : Crypto) (js : Json) (store : Option DataStore.DataStore) (target : KademliaId) where
  -- The hash of the value is the key, and the local store was given the value to keep; or it is not,
  -- and the local store validates the value for the key.
  pub data IsGenuine (kept : Option DataStore.DataStore) (value : Bytes) : Type 0 where
    addressed :
        Id.equals (Id.new_kademlia_id_from_data cr.sha256 value) target ≡ true
        → cache cr js store target value ≡ some (true, kept)
        → IsGenuine kept value
    consented :
        (ds : DataStore.DataStore)
        → Id.equals (Id.new_kademlia_id_from_data cr.sha256 value) target ≡ false
        → store ≡ some ds
        → kept ≡ store
        → DataStore.validate cr js ds target value ≡ some (ok tt)
        → IsGenuine kept value

  check-IsGenuine :
      (value : Bytes) (st : Option DataStore.DataStore) {kept : Option DataStore.DataStore}
      → Id.equals (Id.new_kademlia_id_from_data cr.sha256 value) target ≡ false
      → store ≡ st
      → check cr js st target value ≡ some (true, kept)
      → IsGenuine kept value
  unfolding check
  check-IsGenuine value none other e h = cc
  check-IsGenuine value (some ds) {kept} other e h =
      by_result (node_validate cr js ds target value) refl h
    where
      by_result :
          (r : Option (Result (Unit {0})))
          → node_validate cr js ds target value ≡ r
          → elim r as (λ _. Option (Bool × Option DataStore.DataStore)) [
            | none ↦ none
            | some (ok _) ↦ some (true, some ds)
            | some (err _) ↦ some (false, some ds)
          ]
            ≡ some (true, kept)
          → IsGenuine kept value
      by_result none v h = cc
      by_result (some (err x)) v h = cc
      by_result (some (ok tt)) v h =
          consented ds other e (let k : some ds ≡ kept = cc in sym k ∙ sym e)
            (node_validate-some cr js ds target value (ok tt) v)

  judge-IsGenuine :
      (value : Bytes) {kept : Option DataStore.DataStore}
      → judge cr js store target value ≡ some (true, kept)
      → IsGenuine kept value
  unfolding judge
  judge-IsGenuine value {kept} h =
      elim (Bool-cases (Id.equals (Id.new_kademlia_id_from_data cr.sha256 value) target)) [
        | inl e ↦
            addressed e
              (let p : cache cr js store target value ≡ some (true, kept) = rw (judge, e) at h in p)
        | inr e ↦
            check-IsGenuine value store e refl
              (let p : check cr js store target value ≡ some (true, kept) = rw (judge, e) at h in p)
      ]

-- A value was taken only if it is not empty and genuine.
abbrev pub OnlyGenuine :
    (cr : Crypto) (js : Json) (store : Option DataStore.DataStore) (target : KademliaId)
    → Option Progress
    → Type 0
OnlyGenuine cr js store target none = Unit
OnlyGenuine cr js store target (some (going q)) = Unit
OnlyGenuine cr js store target (some (found table kept value from)) =
    IsGenuine cr js store target kept value × (value ≢ [])

accept-OnlyGenuine :
    (cr : Crypto) (js : Json) (store : Option DataStore.DataStore) (target : KademliaId)
    (q : Search) (c : Contact) (b : ℕ) (bs : Bytes) (r : Bool × Option DataStore.DataStore)
    → judge cr js store target (b ∷ bs) ≡ some r
    → OnlyGenuine cr js store target (some (accept q c (b ∷ bs) r))
unfolding accept
accept-OnlyGenuine cr js store target q c b bs (true, kept) h =
    (judge-IsGenuine cr js store target (b ∷ bs) h, λ e. cc)
accept-OnlyGenuine cr js store target q c b bs (false, kept) h = tt

module _ (cr : Crypto) (js : Json) (me_id : Option KademliaId) (store : Option DataStore.DataStore)
    (network : DataNetwork) (target : KademliaId) where
  take_answer-OnlyGenuine :
      (q : Search) (c : Contact) (value : Bytes) (contacts : List Contact)
      → OnlyGenuine cr js store target
          (take_answer cr js me_id store network target q c value contacts)
  unfolding take_answer
  take_answer-OnlyGenuine q c [] contacts =
      elim (Option-cases (add_found me_id q.shortlist contacts)) [
        | inl e ↦ rw (take_answer, e) tt
        | inr (s, e) ↦ rw (take_answer, e) tt
      ]
  take_answer-OnlyGenuine q c (b ∷ bs) contacts =
      elim (Option-cases (judge cr js store target (b ∷ bs))) [
        | inl e ↦ rw (take_answer, e) tt
        | inr (r, e) ↦ rw (take_answer, e) (accept-OnlyGenuine cr js store target q c b bs r e)
      ]

  receive_data-OnlyGenuine :
      (q : Search) (c : Contact) (answer : Option (Bytes × List Contact))
      → OnlyGenuine cr js store target (receive_data cr js me_id store network target q c answer)
  unfolding receive_data
  receive_data-OnlyGenuine q c none = tt
  receive_data-OnlyGenuine q c (some (value, contacts)) =
      elim (Option-cases (RoutingTable.add_contact q.table c)) [
        | inl e ↦ rw (receive_data, e) tt
        | inr (table, e) ↦ rw (receive_data, e) (take_answer-OnlyGenuine _ c value contacts)
      ]

  receive_all_data-OnlyGenuine :
      (n : ℕ) (q : Search) (cs : List Contact)
      → OnlyGenuine cr js store target (receive_all_data cr js me_id store network target n q cs)
  unfolding receive_all_data
  receive_all_data-OnlyGenuine n q [] = tt
  receive_all_data-OnlyGenuine n q (c ∷ cs) =
      by_result
        (receive_data cr js me_id store network target q c
          (network.send_find_data_message n target c))
        refl (receive_data-OnlyGenuine q c (network.send_find_data_message n target c))
        (λ q'. receive_all_data-OnlyGenuine n q' cs)
    where
      by_result :
          (p : Option Progress)
          → receive_data cr js me_id store network target q c
              (network.send_find_data_message n target c)
            ≡ p
          → OnlyGenuine cr js store target p
          → ((q' : Search)
              → OnlyGenuine cr js store target
                  (receive_all_data cr js me_id store network target n q' cs))
          → OnlyGenuine cr js store target
              (receive_all_data cr js me_id store network target n q (c ∷ cs))
      by_result none e h later = rw (receive_all_data, e) tt
      by_result (some (going q')) e h later = rw (receive_all_data, e) (later q')
      by_result (some (found table kept value from)) e h later = rw (receive_all_data, e) h

  pub iterate_data-OnlyGenuine :
      (fuel alpha n : ℕ) (q : Search)
      → OnlyGenuine cr js store target
          (iterate_data cr js me_id store network target fuel alpha n q)
  unfolding iterate_data probe_data
  iterate_data-OnlyGenuine zero alpha n q = tt
  iterate_data-OnlyGenuine (suc fuel) alpha n q =
      elim (Bool-cases (Shortlist.has_unqueried_in_top_k q.shortlist bucket_size)) [
        | inr e ↦ rw (iterate_data, e) tt
        | inl e ↦
            by_probes (Shortlist.get_closest_unqueried q.shortlist alpha bucket_size) refl e
              (λ q'. iterate_data-OnlyGenuine fuel alpha (suc n) q')
      ]
    where
      by_result :
          (c : Contact) (cs : List Contact) (p : Option Progress)
          → Shortlist.has_unqueried_in_top_k q.shortlist bucket_size ≡ true
          → Shortlist.get_closest_unqueried q.shortlist alpha bucket_size ≡ c ∷ cs
          → probe_data cr js me_id store network target n q (c ∷ cs) ≡ p
          → OnlyGenuine cr js store target p
          → ((q' : Search)
              → OnlyGenuine cr js store target
                  (iterate_data cr js me_id store network target fuel alpha (suc n) q'))
          → OnlyGenuine cr js store target
              (iterate_data cr js me_id store network target (suc fuel) alpha n q)
      by_result c cs none u g e h later = rw (iterate_data, u, g, e) tt
      by_result c cs (some (going q')) u g e h later = rw (iterate_data, u, g, e) (later q')
      by_result c cs (some (found table kept value from)) u g e h later =
          rw (iterate_data, u, g, e) h

      by_probes :
          (ps : List Contact)
          → Shortlist.get_closest_unqueried q.shortlist alpha bucket_size ≡ ps
          → Shortlist.has_unqueried_in_top_k q.shortlist bucket_size ≡ true
          → ((q' : Search)
              → OnlyGenuine cr js store target
                  (iterate_data cr js me_id store network target fuel alpha (suc n) q'))
          → OnlyGenuine cr js store target
              (iterate_data cr js me_id store network target (suc fuel) alpha n q)
      by_probes [] g u later = rw (iterate_data, u, g) tt
      by_probes (c ∷ cs) g u later =
          by_result c cs (probe_data cr js me_id store network target n q (c ∷ cs)) u g refl
            (receive_all_data-OnlyGenuine n q (in_order (network.arrival n) (c ∷ cs))) later
