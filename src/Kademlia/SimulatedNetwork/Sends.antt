-- ===== src/Kademlia/SimulatedNetwork/Sends.antt =====
-- What the messages of kademlia/simulated_network.go answer.
use d7024e_lab.Kademlia.DataStore
use d7024e_lab.Kademlia.RoutingTable
use d7024e_lab.Kademlia.Contact
use d7024e_lab.Prelude.{
  All, Bool-cases, List, Option, Option-cases, [], ap, arith, inl, inr, length, none, refl, some,
  subst, sym, true, ℕ, ◌&&◌, ◌>>=◌, ◌∙◌, ◌∷◌, ◌≡◌, ◌≤◌,
}
use d7024e_lab.Kademlia.Bucket.{bucket_size}
use d7024e_lab.Kademlia.Contact.{Contact, key}
use d7024e_lab.Kademlia.DataStore.{DataStore}
use d7024e_lab.Kademlia.DataStore.Settled.{IsPlain, node_store-IsPlain}
use d7024e_lab.Kademlia.Id.{IsId, KademliaId}
use d7024e_lab.Kademlia.RoutingTable.{RoutingTable}
use d7024e_lab.Kademlia.RoutingTable.Closest.{find_closest_contacts_lem}
use d7024e_lab.Kademlia.SimulatedNetwork.{
  Floats, SimulatedNetwork, World, guarded, is_other, on_arrival, reach,
}
use d7024e_lab.Kademlia.SimulatedNetwork.Rpc.{
  answer_find_contact, filter_closest, find_filtered, find_value, send_find_contact_message,
  send_find_data_message, send_ping_message, send_store_message, store_there,
}
use d7024e_lab.Kademlia.SimulatedNetwork.Valid.{
  IsValidNetwork, IsValidWorld, learn_both_lem, learn_lem, probe_hub-IsCounted,
  with_network-IsValidWorld,
}
use d7024e_lab.Prelude.Bytes.{Bytes}
use d7024e_lab.Registry.Crypto.{Crypto}
use d7024e_lab.Registry.Outcome.{Result, err, err-ne-ok, failure, ok, ok-injective}
use d7024e_lab.Registry.Record.{Json}

-- A call returns, leaves a valid world, and what it returns without an error is `P`.
abbrev pub Replies :
    {A : Type 0} → (fl : Floats) → (A → Type 0) → Option (World fl × Result A) → Type 0
Replies {A} fl P r =
    (w : World fl) × (x : Result A) × (r ≡ some (w, x))
    × IsValidWorld fl w
    × ((a : A) → x ≡ ok a → P a)

-- At most `bucket_size` contacts, all with an identifier, and not that of the requester.
pub record IsForRequester (fl : Floats) (requester : Option KademliaId)
    (contacts : List Contact.Contact) : Type 0 where
  pub bounded : length contacts ≤ bucket_size
  pub others : All (λ c. is_other fl requester c.id ≡ true) contacts

module _ (fl : Floats) where
  filter_closest_lem :
      (requester mine : Option KademliaId) (cs : List Contact.Contact)
      → (length (filter_closest fl requester mine cs) ≤ length cs)
        × All (λ c. is_other fl requester c.id ≡ true) (filter_closest fl requester mine cs)
  unfolding filter_closest
  filter_closest_lem requester mine [] = (omega arith, tt)
  filter_closest_lem requester mine (c ∷ cs) =
      let (l, a) = filter_closest_lem requester mine cs in
      elim (Bool-cases (is_other fl requester c.id && is_other fl mine c.id)) [
        | inl e ↦
            let o : is_other fl requester c.id ≡ true = ground (arith, e) in
            rw e (omega (arith, l), (o, a))
        | inr e ↦ rw e (omega (arith, l), a)
      ]

  pub find_filtered_lem :
      (net : SimulatedNetwork) (requester : Option KademliaId) (target : KademliaId)
      → IsValidNetwork net
      → IsId target
      → (contacts : List Contact.Contact) × (find_filtered fl net requester target ≡ some contacts)
        × IsForRequester fl requester contacts
  unfolding find_filtered
  find_filtered_lem net requester target h ht = elim (Option-cases net.rt) [
    | inl e ↦ ([], rw (find_filtered, e) refl, record { bounded = omega arith; others = tt })
    | inr (rt, e) ↦
        let (r, p, l, asc, listed, distinct) =
          find_closest_contacts_lem rt target bucket_size (h.table_valid rt e) ht in
        let (l', a) = filter_closest_lem requester net.me.id r in
        (
          filter_closest fl requester net.me.id r,
          rw (find_filtered, e, p) refl,
          record { bounded = ground (arith, l, l'); others = a },
        )
  ]

  pub reach-IsValidWorld :
      (w : World fl) (contact : Contact.Contact) (roll : fl.F)
      → IsValidWorld fl w
      → IsValidWorld fl (reach fl w contact roll).0
  unfolding reach
  reach-IsValidWorld w contact roll h = record {
    networks_valid = h.networks_valid;
    counted = probe_hub-IsCounted fl w.hub contact roll h.counted;
  }

  module _ {A : Type 0} (P : A → Type 0)
      (handle : World fl → ℕ → Option (World fl × Result A)) where
    on_arrival_lem :
        (r : World fl × Option ℕ)
        → IsValidWorld fl r.0
        → ((at : ℕ) → Replies fl P (handle r.0 at))
        → Replies fl P (on_arrival fl r handle)
    on_arrival_lem (w, none) h f = (w, err failure, refl, h, λ a e. absurd (err-ne-ok failure a e))
    on_arrival_lem (w, some at) h f = f at

    -- A message whose handling is sound is sound with its guards.
    guarded_lem :
        (w : World fl) (n : ℕ) (contact : Option Contact.Contact) (roll : fl.F)
        → IsValidWorld fl w
        → ((w₁ : World fl) (at : ℕ)
            → IsValidWorld fl w₁
            → w₁.networks ≡ w.networks
            → Replies fl P (handle w₁ at))
        → Replies fl P (guarded fl w n contact roll handle)
    unfolding reach
    guarded_lem w n none roll h f = (w, err failure, refl, h, λ a e. absurd (err-ne-ok failure a e))
    guarded_lem w n (some contact) roll h f = elim (Option-cases contact.id) [
      | inl e ↦ rw e (w, err failure, refl, h, λ a q. absurd (err-ne-ok failure a q))
      | inr (id, e) ↦ elim (Bool-cases (w.networks n).has_hub) [
        | inr g ↦ rw (e, g) (w, err failure, refl, h, λ a q. absurd (err-ne-ok failure a q))
        | inl g ↦
            rw (e, g)
              (let v = reach-IsValidWorld w contact roll h in
                on_arrival_lem (reach fl w contact roll) v
                  (λ at. f (reach fl w contact roll).0 at v refl))
      ]
    ]

  -- The messages on a valid world.
  module _ (w : World fl) (h : IsValidWorld fl w) (n : ℕ) (contact : Option Contact.Contact)
      (roll : fl.F) where
    ping_lem :
        (tx : Bytes)
        → Replies fl (λ m. m.transaction_id ≡ tx) (send_ping_message fl w n contact roll tx)
    unfolding send_ping_message
    ping_lem tx =
        guarded_lem (λ m. m.transaction_id ≡ tx) _ w n contact roll h
          (λ w₁ at h₁ same_networks.
            let (w₂, p, h₂, s, k) = learn_both_lem fl w₁ n at h₁ in
            rw p (w₂, _, refl, h₂, λ m e. ap (λ x. x.transaction_id) (sym (ok-injective e))))

    find_contact_lem :
        (target : Option KademliaId)
        → ((t : KademliaId) → target ≡ some t → IsId t)
        → Replies fl
            (IsForRequester fl (w.networks n).me.id)
            (send_find_contact_message fl w n target contact roll)
    unfolding send_find_contact_message answer_find_contact
    find_contact_lem none ht = (w, err failure, refl, h, λ a e. absurd (err-ne-ok failure a e))
    find_contact_lem (some t) ht =
        guarded_lem (IsForRequester fl (w.networks n).me.id) _ w n contact roll h
          (λ w₁ at h₁ same_networks.
            let (w₂, p, h₂, s, k) =
              learn_lem fl w₁ at (w₁.networks n).me h₁ (h₁.networks_valid n).typed in
            let (r, q, a) =
              find_filtered_lem (w₂.networks at) (w₂.networks n).me.id t (h₂.networks_valid at)
                (ht t refl) in
            let own_id : (w₂.networks n).me.id ≡ (w.networks n).me.id =
              ap (λ m. m.id) ((k n).0 ∙ ap (λ ns. (ns n).me) same_networks) in
            rw (answer_find_contact, p, q)
              (
                w₂,
                ok r,
                refl,
                h₂,
                λ cs e.
                    subst (IsForRequester fl (w.networks n).me.id) (ok-injective e)
                      (subst (λ i. IsForRequester fl i r) own_id a),
              ))

    find_data_lem :
        (target : Option KademliaId)
        → ((t : KademliaId) → target ≡ some t → IsId t)
        → Replies fl
            (λ r. IsForRequester fl (w.networks n).me.id r.1)
            (send_find_data_message fl w n target contact roll)
    unfolding send_find_data_message find_value
    find_data_lem none ht = (w, err failure, refl, h, λ a e. absurd (err-ne-ok failure a e))
    find_data_lem (some t) ht =
        guarded_lem (λ r. IsForRequester fl (w.networks n).me.id r.1) _ w n contact roll h
          (λ w₁ at h₁ same_networks.
            let (w₂, p, h₂, s, k) = learn_both_lem fl w₁ n at h₁ in
            let own_id : (w₂.networks n).me.id ≡ (w.networks n).me.id =
              ap (λ m. m.id) ((k n).0 ∙ ap (λ ns. (ns n).me) same_networks) in
            rw p (
              subst (λ i. Replies fl (λ r. IsForRequester fl i r.1) (find_value fl w₂ n at t))
                own_id (find_value_lem w₂ at t h₂ (ht t refl))))
      where
        find_value_lem :
            (w₂ : World fl) (at : ℕ) (t : KademliaId)
            → IsValidWorld fl w₂
            → IsId t
            → Replies fl
                (λ r. IsForRequester fl (w₂.networks n).me.id r.1)
                (find_value fl w₂ n at t)
        find_value_lem w₂ at t h₂ i =
            elim (Option-cases (do ds ← (w₂.networks at).ds; DataStore.get ds t)) [
              | inr (v, e) ↦
                  rw (find_value, e)
                    (
                      w₂,
                      ok (some v, []),
                      refl,
                      h₂,
                      λ r q.
                          subst (λ x. IsForRequester fl (w₂.networks n).me.id x.1) (ok-injective q)
                            (record { bounded = omega arith; others = tt }),
                    )
              | inl e ↦
                  let (r, q, a) =
                    find_filtered_lem (w₂.networks at) (w₂.networks n).me.id t
                      (h₂.networks_valid at) i in
                  rw (find_value, e, q)
                    (
                      w₂,
                      ok (none, r),
                      refl,
                      h₂,
                      λ x o.
                          subst (λ y. IsForRequester fl (w₂.networks n).me.id y.1) (ok-injective o)
                            a,
                    )
            ]

    store_lem :
        (cr : Crypto) (js : Json) (key : Option KademliaId) (data' : Bytes)
        → ((k : KademliaId) → key ≡ some k → IsPlain cr js k data')
        → Replies fl (λ done. done ≡ tt) (send_store_message fl cr js w n contact key data' roll)
    unfolding send_store_message store_there
    store_lem cr js none data' plain =
        (w, err failure, refl, h, λ a e. absurd (err-ne-ok failure a e))
    store_lem cr js (some key) data' plain =
        guarded_lem (λ done. done ≡ tt) _ w n contact roll h
          (λ w₁ at h₁ same_networks.
            let (w₂, p, h₂, s, k) =
              learn_lem fl w₁ at (w₁.networks n).me h₁ (h₁.networks_valid n).typed in
            rw p (store_there_lem w₂ at h₂))
      where
        with_store-IsValidWorld :
            (w₂ : World fl) (at : ℕ) (ds : DataStore.DataStore)
            → IsValidWorld fl w₂
            → IsValidWorld fl (record w₂ {
              networks =
                  RoutingTable.update w₂.networks at (record (w₂.networks at) { ds = some ds });
            })
        with_store-IsValidWorld w₂ at ds h₂ =
            with_network-IsValidWorld fl w₂ at (record (w₂.networks at) { ds = some ds }) h₂
              (record {
                typed = (h₂.networks_valid at).typed;
                table_valid = (h₂.networks_valid at).table_valid;
              })

        store_there_lem :
            (w₂ : World fl) (at : ℕ)
            → IsValidWorld fl w₂
            → Replies fl (λ done. done ≡ tt) (store_there fl cr js w₂ at key data')
        store_there_lem w₂ at h₂ = elim (Option-cases (w₂.networks at).ds) [
          | inl e ↦ rw (store_there, e) (w₂, ok tt, refl, h₂, λ a q. refl)
          | inr (ds, e) ↦ elim (node_store-IsPlain cr js ds key data' (plain key refl)) [
            | inl (x, p) ↦
                rw (store_there, e, p)
                  (_, err x, refl, with_store-IsValidWorld w₂ at ds h₂, λ a q. refl)
            | inr (p, g, l) ↦
                rw (store_there, e, p)
                  (_, ok tt, refl, with_store-IsValidWorld w₂ at _ h₂, λ a q. refl)
          ]
        ]

    -- On a valid world, in which identifiers are of 32 bytes, and for a value to store that is no
    -- latest pointer of its key, none of the four messages panics or runs for ever, whoever is asked,
    -- lost or not, and whatever the routing table and the store of the other node are. The world that
    -- a message leaves is valid: every probe was counted as successful or dropped, and the routing
    -- tables are valid. A reply to a ping has the fresh identifier; the contacts in an answer are at
    -- most `bucket_size`, have identifiers, and do not name the requester.
    pub messages_lem :
        (tx : Bytes) (target : Option KademliaId) (cr : Crypto) (js : Json)
        (key : Option KademliaId) (data' : Bytes)
        → ((t : KademliaId) → target ≡ some t → IsId t)
        → ((k : KademliaId) → key ≡ some k → IsPlain cr js k data')
        → Replies fl (λ m. m.transaction_id ≡ tx) (send_ping_message fl w n contact roll tx)
          × Replies fl
              (IsForRequester fl (w.networks n).me.id)
              (send_find_contact_message fl w n target contact roll)
          × Replies fl
              (λ r. IsForRequester fl (w.networks n).me.id r.1)
              (send_find_data_message fl w n target contact roll)
          × Replies fl (λ done. done ≡ tt) (send_store_message fl cr js w n contact key data' roll)
    messages_lem tx target cr js key data' ht plain = (
      ping_lem tx,
      find_contact_lem target ht,
      find_data_lem target ht,
      store_lem cr js key data' plain,
    )
