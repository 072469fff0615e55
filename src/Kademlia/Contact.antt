-- ===== src/Kademlia/Contact.antt =====
-- kademlia/contact.go. A pointer that may be nil is an `Option`, and so is a call that may panic:
-- to dereference a pointer is to use it as such a call.
use d7024e_lab.Kademlia.Id
use d7024e_lab.Prelude.{
  Bool, Option, Option-cases, Panics, [], arith, inl, inr, none, some, ◌>>=◌, ◌≡◌, ◌⊎◌,
}
use d7024e_lab.Kademlia.Id.{IsId, KademliaId}
use d7024e_lab.Prelude.Bytes.{Bytes}

pub record Contact : Type 0 where
  pub id : Option KademliaId
  pub address : Bytes
  pub distance : Option KademliaId

unfoldable pub new_contact : Option KademliaId → Bytes → Contact
new_contact id address = record { id = id; address = address; distance = none }

-- Fills the field `distance`. A nil identifier or target is dereferenced.
unfoldable pub calc_distance : Contact → Option KademliaId → Panics Contact
calc_distance c target = do
  own ← c.id
  other ← target
  some (record c { distance = some (Id.calc_distance own other) })

unfoldable pub less : Contact → Contact → Panics Bool
less a b = do mine ← a.distance; other ← b.distance; some (Id.less mine other)

-- The identifier, where there is one.
abbrev pub key : Contact → KademliaId
key c = elim c.id [ none ↦ [] | some k ↦ k ]

-- The contact has an identifier.
pub record IsKnown (c : Contact) : Type 0 where
  pub has_id : c.id ≡ some (key c)
  pub key_id : IsId (key c)

-- What the Go type says of the identifier: it is nil, or points to 32 bytes.
pub record IsTyped (c : Contact) : Type 0 where
  pub id_typed : (k : KademliaId) → c.id ≡ some k → IsId k

-- A contact has no identifier, or is known.
pub IsTyped-cases : (c : Contact) → IsTyped c → (c.id ≡ none) ⊎ IsKnown c
IsTyped-cases c h = elim (Option-cases c.id) [
  | inl e ↦ inl e
  | inr (k, e) ↦
      let own : key c ≡ k = ground arith in
      inr (record { has_id = rw own e; key_id = rw own (h.id_typed k e) })
]
