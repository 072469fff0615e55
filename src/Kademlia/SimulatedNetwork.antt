-- ===== src/Kademlia/SimulatedNetwork.antt =====
-- kademlia/simulated_network.go: a hub that carries the messages of nodes in one process. Nodes are
-- objects of a heap, which the hub finds by their address. The floating-point numbers of the packet
-- loss are a parameter, and so are the random numbers and the fresh identifiers of messages; the
-- artificial latency is kept, but no time passes.
pub mod Rpc
pub mod Valid
pub mod Sends
pub mod Stored
use d7024e_lab.Kademlia.Id
use d7024e_lab.Kademlia.RoutingTable
use d7024e_lab.Kademlia.DataStore
use d7024e_lab.Kademlia.Contact
use d7024e_lab.Prelude.{
  Bool, Option, Panics, [], false, if◌then◌else◌, none, some, true, ℕ, ◌%◌, ◌&&◌, ◌+◌, ◌>>=◌, ◌^◌,
}
use d7024e_lab.Kademlia.Contact.{Contact}
use d7024e_lab.Kademlia.DataStore.{DataStore}
use d7024e_lab.Kademlia.Id.{KademliaId}
use d7024e_lab.Kademlia.RoutingTable.{RoutingTable}
use d7024e_lab.Prelude.Bytes.{Bytes}
use d7024e_lab.Prelude.Bytes.Dict.{Dict, insert, lookup, remove}
use d7024e_lab.Registry.Outcome.{Result, err, failure}

-- What the code uses of `float64`.
pub record Floats : Type 1 where
  pub F : Type 0
  pub f_zero : F
  pub f_one : F
  pub f_below : F → F → Bool

-- `total`, `successful` and `dropped` are the bits of an `atomic.Int64`.
pub record SimulatedHub (fl : Floats) : Type 0 where
  pub nodes : Dict ℕ
  pub packet_loss : fl.F
  pub latency : ℕ
  pub total : ℕ
  pub successful : ℕ
  pub dropped : ℕ

-- The networks of a test share one hub; `has_hub` says that `hub` is not nil.
pub record SimulatedNetwork : Type 0 where
  pub me : Contact.Contact
  pub rt : Option RoutingTable.RoutingTable
  pub ds : Option DataStore.DataStore
  pub has_hub : Bool

-- The hub and the networks, by their pointers.
pub record World (fl : Floats) : Type 0 where
  pub hub : SimulatedHub fl
  pub networks : ℕ → SimulatedNetwork

-- `Add(1)`
unfoldable pub add_one_to : ℕ → ℕ
add_one_to n = (n + 1) % 2 ^ 64

module _ (fl : Floats) where
  unfoldable pub new_simulated_hub : SimulatedHub fl
  new_simulated_hub = record {
    nodes = [];
    packet_loss = fl.f_zero;
    latency = 0;
    total = 0;
    successful = 0;
    dropped = 0;
  }

  unfoldable pub set_packet_loss : SimulatedHub fl → fl.F → SimulatedHub fl
  set_packet_loss h loss = record h {
    packet_loss =
        if fl.f_below loss fl.f_zero
        then fl.f_zero
        else if fl.f_below fl.f_one loss
        then fl.f_one
        else loss;
  }

  unfoldable pub set_latency : SimulatedHub fl → ℕ → SimulatedHub fl
  set_latency h d = record h { latency = d }

  -- `at` is the pointer to the network.
  unfoldable pub register : SimulatedHub fl → ℕ → SimulatedNetwork → SimulatedHub fl
  register h at net = record h { nodes = insert net.me.address at h.nodes }

  unfoldable pub unregister : SimulatedHub fl → Bytes → SimulatedHub fl
  unregister h address = record h { nodes = remove address h.nodes }

  unfoldable pub reset_metrics : SimulatedHub fl → SimulatedHub fl
  reset_metrics h = record h { total = 0; successful = 0; dropped = 0 }

  -- `NewSimulatedNetwork`, where `at` is the pointer to the new network.
  unfoldable pub new_simulated_network : World fl → ℕ → SimulatedNetwork → World fl
  unfolding register
  new_simulated_network w at net = record {
    hub = if net.has_hub then register w.hub at net else w.hub;
    networks = RoutingTable.update w.networks at net;
  }

  unfoldable pub close : World fl → ℕ → World fl
  unfolding unregister
  close w at =
      if (w.networks at).has_hub
      then record w { hub = unregister w.hub (w.networks at).me.address }
      else w

  -- A routing table takes in another node, but not its own: `rt != nil && other.ID != nil &&
  -- (me.ID == nil || !other.ID.Equals(me.ID))`.
  unfoldable pub is_other : Option KademliaId → Option KademliaId → Bool
  is_other me_id none = false
  is_other none (some id) = true
  is_other (some me_id) (some id) = if Id.equals id me_id then false else true

  unfoldable pub learn : World fl → ℕ → Contact.Contact → Panics (World fl)
  unfolding is_other
  learn w at other = elim (w.networks at).rt [
    | none ↦ some w
    | some rt ↦ elim (is_other (w.networks at).me.id other.id) [
      | false ↦ some w
      | true ↦ elim (RoutingTable.add_contact rt other) [
        | none ↦ none
        | some rt' ↦ some (record w {
          networks = RoutingTable.update w.networks at (record (w.networks at) { rt = some rt' });
        })
      ]
    ]
  ]

  -- The start of every message: the counters, and the network that it reaches, if any. `roll` is
  -- the result of `rng.Float64()`.
  unfoldable pub is_lost : SimulatedHub fl → fl.F → Bool
  is_lost h roll = fl.f_below fl.f_zero h.packet_loss && fl.f_below roll h.packet_loss

  unfoldable pub probe_hub : SimulatedHub fl → Contact.Contact → fl.F → SimulatedHub fl × Option ℕ
  unfolding is_lost add_one_to
  probe_hub h contact roll =
      let started = record h { total = add_one_to h.total } in
      let failed = record started { dropped = add_one_to h.dropped } in
      if is_lost h roll then (failed, none) else elim (lookup contact.address h.nodes) [
        | none ↦ (failed, none)
        | some at ↦ (record started { successful = add_one_to h.successful }, some at)
      ]

  unfoldable pub reach : World fl → Contact.Contact → fl.F → World fl × Option ℕ
  unfolding probe_hub
  reach w contact roll = let r = probe_hub w.hub contact roll in (record w { hub = r.0 }, r.1)

  -- What follows when a message from `n` reaches a network, or does not.
  abbrev pub on_arrival {ℓ} :
      {A : Type ℓ}
      → World fl × Option ℕ
      → (World fl → ℕ → Option (World fl × Result A))
      → Option (World fl × Result A)
  on_arrival (w, none) handle = some (w, err failure)
  on_arrival (w, some at) handle = handle w at

  -- The guards of every message: the contact and its identifier, and the hub.
  abbrev pub guarded {ℓ} :
      {A : Type ℓ}
      → World fl
      → ℕ
      → Option Contact.Contact
      → fl.F
      → (World fl → ℕ → Option (World fl × Result A))
      → Option (World fl × Result A)
  guarded w n none roll handle = some (w, err failure)
  guarded w n (some contact) roll handle = elim contact.id [
    | none ↦ some (w, err failure)
    | some id ↦
        if (w.networks n).has_hub
        then on_arrival (reach w contact roll) handle
        else some (w, err failure)
  ]

  -- Both sides learn of each other; the network that was reached first.
  unfoldable pub learn_both : World fl → ℕ → ℕ → Panics (World fl)
  unfolding learn
  learn_both w n at = do w' ← learn w at (w.networks n).me; learn w' n (w'.networks at).me
