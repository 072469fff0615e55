-- ===== src/Tests/Data.antt =====
-- The identifiers, contacts and tables of the tests.
use d7024e_lab.Kademlia.RoutingTable.Valid
use d7024e_lab.Kademlia.Bucket
use d7024e_lab.Kademlia.Bucket.Recency
use d7024e_lab.Prelude.{
  All-append, All-replicate, [], arith, none, refl, replicate, some, ℕ, ◌++◌, ◌<◌, ◌∷◌,
}
use d7024e_lab.Kademlia.Bucket.{Bucket}
use d7024e_lab.Kademlia.Contact.{Contact, IsKnown}
use d7024e_lab.Kademlia.Id.{IsId, KademliaId}
use d7024e_lab.Kademlia.RoutingTable.{RoutingTable, new_routing_table}
use d7024e_lab.Kademlia.RoutingTable.Valid.{
  add_contact-after_add, after_add, new_routing_table-IsValid,
}
use d7024e_lab.Prelude.Bytes.{IsByte}
use d7024e_lab.Prelude.Bytes.Text.{text}

-- An identifier that differs from zero in its last byte.
abbrev pub small : ℕ → KademliaId
small n = replicate 31 0 ++ (n ∷ [])

pub small-IsId : (n : ℕ) → n < 256 → IsId (small n)
small-IsId n h = record {
  size = refl;
  is_bytes =
      All-append IsByte (replicate 31 0) (n ∷ []) (All-replicate IsByte 31 0 (omega arith)) (h, tt);
}

abbrev pub peer : ℕ → Contact
peer n = record { id = some (small n); address = text "peer"; distance = none }

pub peer-IsKnown : (n : ℕ) → n < 256 → IsKnown (peer n)
peer-IsKnown n h = record { has_id = refl; key_id = small-IsId n h }

abbrev pub empty_table : RoutingTable
empty_table = new_routing_table (peer 0)

pub empty_table-IsValid : Valid.IsValid empty_table
empty_table-IsValid = new_routing_table-IsValid (peer 0) (peer-IsKnown 0 (omega arith))

-- The table after one contact.
abbrev pub one_table : RoutingTable
one_table = after_add empty_table (peer 5)

pub one_table-IsValid : Valid.IsValid one_table
one_table-IsValid =
    (add_contact-after_add empty_table (peer 5) empty_table-IsValid
      (peer-IsKnown 5 (omega arith))).1

-- A bucket of one contact.
abbrev pub one_bucket : Bucket.Bucket
one_bucket = peer 5 ∷ []

pub one_bucket-IsValid : Recency.IsValid one_bucket
one_bucket-IsValid = record {
  bounded = omega arith;
  known = (peer-IsKnown 5 (omega arith), tt);
  distinct = (tt, tt);
}
