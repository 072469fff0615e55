-- ===== src/Kademlia/Messages/Stored.antt =====
-- A value that a node accepted by message is sent back by message (kademlia/network.go).
use d7024e_lab.Kademlia.Messages.Table
use d7024e_lab.Kademlia.DataStore
use d7024e_lab.Prelude.{
  List, Option, [], ap, none, refl, some, some-injective, subst, sym, ℕ, ◌∙◌, ◌∷◌, ◌≡◌,
}
use d7024e_lab.Kademlia.Contact.{IsTyped}
use d7024e_lab.Kademlia.DataStore.{DataStore}
use d7024e_lab.Kademlia.DataStore.Round.{store-returns}
use d7024e_lab.Kademlia.Eviction.{Thread}
use d7024e_lab.Kademlia.Id.{KademliaId}
use d7024e_lab.Kademlia.Messages.{
  RpcMessage, RpcType, UdpNetwork, answer, blank_message, dispatch, find_data, find_data_answer,
  find_data_reply, find_data_result, handle_message, local_value, store_reply, store_rpc,
  store_value, update_routing_table,
}
use d7024e_lab.Kademlia.Messages.Replies.{store_value_lem}
use d7024e_lab.Kademlia.Messages.Table.{update_routing_table_lem}
use d7024e_lab.Kademlia.Messages.Transactions.{store_value-KeepsPending}
use d7024e_lab.Prelude.Bytes.{Bytes}
use d7024e_lab.Prelude.Bytes.Dict.{lookup}
use d7024e_lab.Registry.Crypto.{Crypto}
use d7024e_lab.Registry.Outcome.{ok}
use d7024e_lab.Registry.Record.{Json}

module _ (cr : Crypto) (js : Json) where
  -- The node has the value at the key.
  pub HasValue : UdpNetwork → KademliaId → Bytes → Type 0
  HasValue n k v = (ds : DataStore.DataStore) × (n.ds ≡ some ds) × (DataStore.get ds k ≡ some v)

  stored-HasValue :
      (n : UdpNetwork) (msg : RpcMessage) (ds ds' : DataStore.DataStore) (k : KademliaId)
      (v : Bytes)
      → n.ds ≡ some ds
      → msg.target_id ≡ some k
      → msg.payload ≡ some v
      → DataStore.store cr js ds k v ≡ some (ds', ok tt)
      → (n' : UdpNetwork) × (store_value cr js n msg ≡ some n') × HasValue n' k v
  unfolding store_value HasValue
  stored-HasValue n msg ds ds' k v e f g s =
      let (ds₁, x, s', got) = store-returns cr js ds k v in
      let same_result : (ds₁, x) ≡ (ds', ok tt) = some-injective (sym s' ∙ s) in
      (
        record n { ds = some ds₁ },
        rw (store_value, e, f, g, s') refl,
        (ds₁, refl, got (ap (λ p. p.1) same_result)),
      )

  found-HasValue :
      (n : UdpNetwork) (msg : RpcMessage) (k : KademliaId) (b : ℕ) (bs : Bytes)
      → HasValue n k (b ∷ bs)
      → msg.target_id ≡ some k
      → (reply : RpcMessage) × (find_data_answer n msg ≡ some reply)
        × (find_data_result reply ≡ (b ∷ bs, []))
  unfolding HasValue find_data_answer local_value find_data_result
  found-HasValue n msg k b bs (ds, e, g) f = (
    record (blank_message msg.transaction_id find_data_reply n.me) { payload = some (b ∷ bs) },
    rw (find_data_answer, local_value, e, f, g) refl,
    refl,
  )

  dispatch-store_value :
      (n n' : UdpNetwork) (msg : RpcMessage)
      → store_value cr js n msg ≡ some n'
      → dispatch cr js store_rpc n msg
        ≡ some (n', some (blank_message msg.transaction_id store_reply n.me))
  unfolding dispatch
  dispatch-store_value n n' msg s = rw (dispatch, s) refl

  dispatch-find_data :
      (n : UdpNetwork) (msg reply : RpcMessage)
      → find_data_answer n msg ≡ some reply
      → dispatch cr js find_data n msg ≡ some (n, some reply)
  unfolding dispatch
  dispatch-find_data n msg reply s = rw (dispatch, s) refl

  -- A request whose sender is recorded, by its type.
  handle_message-dispatch :
      (n : UdpNetwork) (msg : RpcMessage) (u : UdpNetwork × List Thread)
      (a : UdpNetwork × Option RpcMessage) (ty : RpcType)
      → update_routing_table n msg.sender ≡ some u
      → lookup msg.transaction_id u.0.pending ≡ none
      → msg.rpc_type ≡ ty
      → dispatch cr js ty u.0 msg ≡ some a
      → handle_message cr js n msg ≡ some (a.0, a.1, u.1)
  unfolding handle_message answer
  handle_message-dispatch n msg u a ty e quiet t d =
      let d' : dispatch cr js msg.rpc_type u.0 msg ≡ some a =
        subst (λ x. dispatch cr js x u.0 msg ≡ some a) (sym t) d in
      rw (handle_message, e, answer, quiet, d') refl

  -- A node with a valid routing table whose store accepts the value of a STORE message, which is not
  -- empty, sends a STORE reply, and answers a FIND_DATA message for the key that comes next with this
  -- value, whoever sends it, when neither message has the transaction of a request that the node has
  -- pending.
  pub store-find_data :
      (n : UdpNetwork) (put ask : RpcMessage) (ds ds' : DataStore.DataStore) (k : KademliaId)
      (b : ℕ) (bs : Bytes)
      → Table.IsValid n
      → IsTyped put.sender
      → IsTyped ask.sender
      → n.ds ≡ some ds
      → DataStore.store cr js ds k (b ∷ bs) ≡ some (ds', ok tt)
      → put.rpc_type ≡ store_rpc
      → put.target_id ≡ some k
      → put.payload ≡ some (b ∷ bs)
      → ask.rpc_type ≡ find_data
      → ask.target_id ≡ some k
      → lookup put.transaction_id n.pending ≡ none
      → lookup ask.transaction_id n.pending ≡ none
      → (n₁ : UdpNetwork) × (ths : List Thread) × (handle_message cr js n put
          ≡ some (n₁, some (blank_message put.transaction_id store_reply n.me), ths))
        × (n₂ : UdpNetwork) × (reply : RpcMessage) × (later : List Thread) × (handle_message cr js
              n₁ ask
            ≡ some (n₂, some reply, later))
        × (find_data_result reply ≡ (b ∷ bs, []))
  unfolding HasValue
  store-find_data n put ask ds ds' k b bs h ty ty' e s is_put f g is_ask f' new new' =
      let (u, eu, v, su) = update_routing_table_lem n put.sender h ty in
      let (n₁, es, (ds₁, d, got)) =
        stored-HasValue u.0 put ds ds' k (b ∷ bs) (su.same_ds ∙ e) f g s in
      let kept = store_value-KeepsPending cr js u.0 n₁ put es in
      let (n', e', v') = store_value_lem cr js u.0 put v in
      let valid : Table.IsValid n₁ = subst Table.IsValid (some-injective (sym e' ∙ es)) v' in
      let (w, ew, vw, sw) = update_routing_table_lem n₁ ask.sender valid ty' in
      let (reply, er, found_it) = found-HasValue w.0 ask k b bs (ds₁, sw.same_ds ∙ d, got) f' in
      let quiet : lookup put.transaction_id u.0.pending ≡ none =
        subst (λ x. lookup put.transaction_id x ≡ none) (sym su.same_pending) new in
      let quiet' : lookup ask.transaction_id w.0.pending ≡ none =
        subst (λ x. lookup ask.transaction_id x ≡ none)
          (sym (sw.same_pending ∙ kept ∙ su.same_pending)) new' in
      (
        n₁,
        u.1,
        handle_message-dispatch n put u _ store_rpc eu quiet is_put
              (dispatch-store_value u.0 n₁ put es)
            ∙ ap (λ m. some (n₁, some (blank_message put.transaction_id store_reply m), u.1))
                su.same_me,
        w.0,
        reply,
        w.1,
        handle_message-dispatch n₁ ask w _ find_data ew quiet' is_ask
            (dispatch-find_data w.0 ask reply er),
        found_it,
      )
