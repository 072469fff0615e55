-- ===== src/Kademlia/RoutingTable/Valid.antt =====
-- The invariant of a routing table of kademlia/routingtable.go, and its operations on it.
use d7024e_lab.Kademlia.Id
use d7024e_lab.Kademlia.Bucket
use d7024e_lab.Kademlia.Bucket.Recency
use d7024e_lab.Prelude.{==_iff, All, Bool-cases, arith, inl, inr, refl, some, subst, ℕ, ◌==◌, ◌≡◌}
use d7024e_lab.Kademlia.Bucket.{Bucket, new_bucket}
use d7024e_lab.Kademlia.Bucket.Kept.{
  All-touch, All-without, is_some, remove_contact-without, touch-IsValid, without-IsValid,
}
use d7024e_lab.Kademlia.Bucket.Recency.{add_contact-touch, stored, touch, without}
use d7024e_lab.Kademlia.Contact.{Contact, IsKnown, key}
use d7024e_lab.Kademlia.RoutingTable.{
  RoutingTable, add_contact, add_known, get_bucket_index, index_of_distance, new_routing_table,
  remove_contact, remove_known, update,
}

-- The bucket that a contact with an identifier belongs to.
abbrev pub home : RoutingTable → Contact → ℕ
home rt c = index_of_distance (Id.calc_distance (key c) (key rt.me))

-- The local node is known, every bucket is valid, and every contact is in its bucket.
pub record IsValid (rt : RoutingTable) : Type 0 where
  pub me_known : IsKnown rt.me
  pub buckets_valid : (i : ℕ) → Recency.IsValid (rt.buckets i)
  pub placed : (i : ℕ) → All (λ c. home rt c ≡ i) (rt.buckets i)

pub new_routing_table-IsValid : (me : Contact) → IsKnown me → IsValid (new_routing_table me)
unfolding new_routing_table new_bucket
new_routing_table-IsValid me h = record {
  me_known = h;
  buckets_valid = λ i. record { bounded = omega arith; known = tt; distinct = tt };
  placed = λ i. tt;
}

pub get_bucket_index-home :
    (rt : RoutingTable) (c : Contact)
    → IsValid rt
    → IsKnown c
    → get_bucket_index rt c.id ≡ some (home rt c)
unfolding get_bucket_index
get_bucket_index-home rt c h hc = ground (arith, h.me_known.has_id, hc.has_id)

-- The table with one bucket replaced.
abbrev pub with_bucket : RoutingTable → ℕ → Bucket.Bucket → RoutingTable
with_bucket rt i b = record rt { buckets = update rt.buckets i b }

pub with_bucket-IsValid :
    (rt : RoutingTable) (i : ℕ) (b : Bucket.Bucket)
    → IsValid rt
    → Recency.IsValid b
    → All (λ c. home rt c ≡ i) b
    → IsValid (with_bucket rt i b)
with_bucket-IsValid rt i b h hb placed = record {
  me_known = h.me_known;
  buckets_valid =
      λ j. elim (Bool-cases (i == j)) [ inl e ↦ rw e hb | inr e ↦ rw e (h.buckets_valid j) ];
  placed = λ j. elim (Bool-cases (i == j)) [
    | inl e ↦ rw e (subst (λ k. All (λ c. home rt c ≡ k) b) ((==_iff i j).0 e) placed)
    | inr e ↦ rw e (h.placed j)
  ];
}

-- What `AddContact` does to a table: the contact's own bucket is touched, the others stay.
unfoldable pub after_add : RoutingTable → Contact → RoutingTable
after_add rt c = with_bucket rt (home rt c) (touch c (rt.buckets (home rt c))).0

-- On a valid table `AddContact` does not panic on a contact with an identifier, and leaves the table
-- valid. Only the bucket of the contact changes: a contact that it knows moves to its front, a new contact goes
-- there if there is room, and else the bucket stays as it is.
pub add_contact-after_add :
    (rt : RoutingTable) (c : Contact)
    → IsValid rt
    → IsKnown c
    → (add_contact rt c ≡ some (after_add rt c)) × IsValid (after_add rt c)
unfolding add_contact add_known after_add
add_contact-after_add rt c h hc = (
  ground (
    arith,
    hc.has_id,
    get_bucket_index-home rt c h hc,
    add_contact-touch c (rt.buckets (home rt c)) hc (h.buckets_valid (home rt c)),
  ),
  with_bucket-IsValid rt (home rt c) (touch c (rt.buckets (home rt c))).0 h
      (touch-IsValid c (rt.buckets (home rt c)) hc (h.buckets_valid (home rt c)))
      (All-touch (λ d. home rt d ≡ home rt c) c (rt.buckets (home rt c)) refl
        (h.placed (home rt c))),
)

unfoldable pub after_remove : RoutingTable → Contact → RoutingTable
after_remove rt c = with_bucket rt (home rt c) (without (key c) (rt.buckets (home rt c)))

-- `RemoveContact` takes the identifier out of its bucket, reports whether it was there, and keeps
-- the table valid.
pub remove_contact-after_remove :
    (rt : RoutingTable) (c : Contact)
    → IsValid rt
    → IsKnown c
    → (remove_contact rt c
        ≡ some (after_remove rt c, is_some (stored (key c) (rt.buckets (home rt c)))))
      × IsValid (after_remove rt c)
unfolding remove_contact remove_known after_remove
remove_contact-after_remove rt c h hc = (
  ground (
    arith,
    hc.has_id,
    get_bucket_index-home rt c h hc,
    remove_contact-without c (rt.buckets (home rt c)) hc (h.buckets_valid (home rt c)),
  ),
  with_bucket-IsValid rt (home rt c) (without (key c) (rt.buckets (home rt c))) h
      (without-IsValid (key c) (rt.buckets (home rt c)) (h.buckets_valid (home rt c)))
      (All-without (λ d. home rt d ≡ home rt c) (key c) (rt.buckets (home rt c))
        (h.placed (home rt c))),
)
