-- ===== src/Kademlia/SimulatedNetwork/Stored.antt =====
-- A value that was stored with `SendStoreMessage` is found with `SendFindDataMessage`
-- (kademlia/simulated_network.go).
use d7024e_lab.Kademlia.RoutingTable
use d7024e_lab.Kademlia.DataStore
use d7024e_lab.Kademlia.Contact
use d7024e_lab.Prelude.{
  ==_iff, Bool-cases, Option, [], ap, false, inl, inr, none, refl, some, some-injective, subst, sym,
  true, ℕ, ◌==◌, ◌∙◌, ◌≡◌,
}
use d7024e_lab.Kademlia.Contact.{Contact}
use d7024e_lab.Kademlia.DataStore.{DataStore}
use d7024e_lab.Kademlia.DataStore.Wired.{node_store, node_store-get}
use d7024e_lab.Kademlia.Id.{KademliaId}
use d7024e_lab.Kademlia.RoutingTable.{RoutingTable}
use d7024e_lab.Kademlia.SimulatedNetwork.{
  Floats, World, add_one_to, guarded, is_lost, learn, on_arrival, probe_hub, reach,
}
use d7024e_lab.Kademlia.SimulatedNetwork.Rpc.{
  find_value, send_find_data_message, send_store_message, store_there,
}
use d7024e_lab.Kademlia.SimulatedNetwork.Sends.{reach-IsValidWorld}
use d7024e_lab.Kademlia.SimulatedNetwork.Valid.{
  IsValidWorld, SameNodes, learn_both_lem, learn_lem, with_network-IsValidWorld,
}
use d7024e_lab.Prelude.Bytes.{Bytes}
use d7024e_lab.Prelude.Bytes.Dict.{lookup}
use d7024e_lab.Registry.Crypto.{Crypto}
use d7024e_lab.Registry.Outcome.{Result, ok}
use d7024e_lab.Registry.Record.{Json}

-- The counters after a probe that arrived.
abbrev arrived : (fl : Floats) → World fl → World fl
arrived fl w = record w {
  hub = record w.hub { total = add_one_to w.hub.total; successful = add_one_to w.hub.successful };
}

module _ (fl : Floats) (contact : Contact.Contact) (at : ℕ) where
  -- Without packet loss, a message to a registered address arrives.
  reach-arrived :
      (w : World fl) (roll : fl.F)
      → lookup contact.address w.hub.nodes ≡ some at
      → fl.f_below fl.f_zero w.hub.packet_loss ≡ false
      → reach fl w contact roll ≡ (arrived fl w, some at)
  unfolding reach probe_hub is_lost
  reach-arrived w roll e loss = rw (reach, probe_hub, is_lost, loss, e) refl

  arrived-IsValidWorld :
      (w : World fl) (roll : fl.F)
      → lookup contact.address w.hub.nodes ≡ some at
      → fl.f_below fl.f_zero w.hub.packet_loss ≡ false
      → IsValidWorld fl w
      → IsValidWorld fl (arrived fl w)
  arrived-IsValidWorld w roll e loss h =
      subst (λ r. IsValidWorld fl r.0) (reach-arrived w roll e loss)
        (reach-IsValidWorld fl w contact roll h)

  -- The guards let the message through.
  guarded-arrived :
      {A : Type 0} (handle : World fl → ℕ → Option (World fl × Result A)) (w : World fl) (n : ℕ)
      (id : KademliaId) (roll : fl.F)
      → contact.id ≡ some id
      → lookup contact.address w.hub.nodes ≡ some at
      → fl.f_below fl.f_zero w.hub.packet_loss ≡ false
      → (w.networks n).has_hub ≡ true
      → guarded fl w n (some contact) roll handle ≡ handle (arrived fl w) at
  guarded-arrived handle w n id roll i e loss hub =
      rw (i, hub) (ap (λ r. on_arrival fl r handle) (reach-arrived w roll e loss))

  -- What a node finds that has the value.
  find_there :
      (w : World fl) (n : ℕ) (id k : KademliaId) (data' : Bytes) (ds : DataStore.DataStore)
      (roll : fl.F)
      → IsValidWorld fl w
      → contact.id ≡ some id
      → lookup contact.address w.hub.nodes ≡ some at
      → fl.f_below fl.f_zero w.hub.packet_loss ≡ false
      → (w.networks n).has_hub ≡ true
      → (w.networks at).ds ≡ some ds
      → DataStore.get ds k ≡ some data'
      → (w' : World fl) × (send_find_data_message fl w n (some k) (some contact) roll
          ≡ some (w', ok (some data', [])))
  unfolding send_find_data_message find_value
  find_there w n id k data' ds roll h i e loss hub d g =
      let (w₂, p, h₂, s, kept) =
        learn_both_lem fl (arrived fl w) n at (arrived-IsValidWorld w roll e loss h) in
      let there : (w₂.networks at).ds ≡ some ds = (kept at).1 ∙ d in
      (w₂, guarded-arrived _ w n id roll i e loss hub ∙ rw (p, find_value, there, g) refl)

  -- Without packet loss, on a valid world, a value that one node stores at another one, which has a
  -- store that accepts it, is what any node gets that asks that node for the key afterwards.
  pub send_find_data_message-send_store_message :
      (cr : Crypto) (js : Json) (w w' : World fl) (m n : ℕ) (id k : KademliaId) (data' : Bytes)
      (ds : DataStore.DataStore) (roll roll' : fl.F)
      → IsValidWorld fl w
      → contact.id ≡ some id
      → lookup contact.address w.hub.nodes ≡ some at
      → fl.f_below fl.f_zero w.hub.packet_loss ≡ false
      → (w.networks m).has_hub ≡ true
      → (w.networks n).has_hub ≡ true
      → (w.networks at).ds ≡ some ds
      → send_store_message fl cr js w m (some contact) (some k) data' roll ≡ some (w', ok tt)
      → (w'' : World fl) × (send_find_data_message fl w' n (some k) (some contact) roll'
          ≡ some (w'', ok (some data', [])))
  unfolding send_store_message store_there
  send_find_data_message-send_store_message cr js w w' m n id k data' ds roll roll' h i e loss hub_m
        hub_n d sent =
      let (w₂, p, h₂, s, kept) =
        learn_lem fl (arrived fl w) at (w.networks m).me (arrived-IsValidWorld w roll e loss h)
          (h.networks_valid m).typed in
      by_result w₂ p h₂ s kept ((kept at).1 ∙ d) (node_store cr js ds k data') refl
    where
      by_result :
          (w₂ : World fl)
          → learn fl (arrived fl w) at (w.networks m).me ≡ some w₂
          → IsValidWorld fl w₂
          → w₂.hub ≡ (arrived fl w).hub
          → SameNodes fl (arrived fl w) w₂
          → (w₂.networks at).ds ≡ some ds
          → (r : Option (DataStore.DataStore × Result (Unit {0}))) → node_store cr js ds k data' ≡ r
          → (w'' : World fl) × (send_find_data_message fl w' n (some k) (some contact) roll'
              ≡ some (w'', ok (some data', [])))
      by_result w₂ p h₂ s kept there none q =
          let lost : send_store_message fl cr js w m (some contact) (some k) data' roll ≡ none =
            guarded-arrived _ w m id roll i e loss hub_m ∙ rw (p, store_there, there, q) refl in
          absurd (
            let z : Path (Option (World fl × Result (Unit {0}))) none (some (w', ok tt)) =
              sym lost ∙ sent in
            cc)
      by_result w₂ p h₂ s kept there (some (ds', x)) q =
          let g = node_store-get cr js ds k data' (ds', x) q in
          let net = record (w₂.networks at) { ds = some ds' } in
          let w₃ : World fl = record w₂ { networks = RoutingTable.update w₂.networks at net } in
          let done : send_store_message fl cr js w m (some contact) (some k) data' roll
              ≡ some (w₃, x) =
            guarded-arrived _ w m id roll i e loss hub_m ∙ rw (p, store_there, there, q) refl in
          let both : (w₃, x) ≡ (w', ok tt) = some-injective (sym done ∙ sent) in
          let hub_there : (w₃.networks n).has_hub ≡ true = elim (Bool-cases (at == n)) [
            | inl b ↦ rw b (
                (kept at).2
                ∙ subst (λ j. (w.networks j).has_hub ≡ true) (sym ((==_iff at n).0 b)) hub_n)
            | inr b ↦ rw b ((kept n).2 ∙ hub_n)
          ] in
          let h₃ = with_network-IsValidWorld fl w₂ at net h₂ (record {
            typed = (h₂.networks_valid at).typed;
            table_valid = (h₂.networks_valid at).table_valid;
          }) in
          subst
            (λ v.
              (w'' : World fl) × (send_find_data_message fl v n (some k) (some contact) roll'
                ≡ some (w'', ok (some data', []))))
            (ap (λ r. r.0) both)
            (find_there w₃ n id k data' ds' roll' h₃ i (rw s e) (rw s loss) hub_there
              (rw ((==_iff at at).1 refl) refl) (g (ap (λ r. r.1) both)))
