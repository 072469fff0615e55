-- ===== src/Tests/Table.antt =====
-- Buckets and the routing table: the properties at concrete tables.
use d7024e_lab.Kademlia.Id
use d7024e_lab.Kademlia.RoutingTable
use d7024e_lab.Kademlia.RoutingTable.Valid
use d7024e_lab.Kademlia.Bucket
use d7024e_lab.Kademlia.Bucket.Recency
use d7024e_lab.Prelude.{
  All, List, [], arith, false, length, min, refl, some, suc, zero, ℕ, ◌<◌, ◌≡◌,
}
use d7024e_lab.Kademlia.Bucket.{Bucket}
use d7024e_lab.Kademlia.Bucket.Kept.{touch-IsValid}
use d7024e_lab.Kademlia.Bucket.Recency.{Distinct, add_contact-touch, keys, stored, touch, without}
use d7024e_lab.Kademlia.Contact.{Contact}
use d7024e_lab.Kademlia.RoutingTable.{RoutingTable, bucket_count, find_closest_contacts}
use d7024e_lab.Kademlia.RoutingTable.Closest.{find_closest_contacts_lem}
use d7024e_lab.Kademlia.RoutingTable.Listed.{IsListed, upto}
use d7024e_lab.Kademlia.RoutingTable.Sort.{Ascending}
use d7024e_lab.Kademlia.RoutingTable.Valid.{add_contact-after_add, after_add}
use d7024e_lab.Prelude.Bytes.{bytes_eq}
use d7024e_lab.Tests.Data.{
  one_bucket, one_bucket-IsValid, one_table, one_table-IsValid, peer, peer-IsKnown, small,
  small-IsId,
}

add_contact-touch_example :
    Bucket.add_contact (peer 7) one_bucket ≡ some (touch (peer 7) one_bucket)
add_contact-touch_example =
    add_contact-touch (peer 7) one_bucket (peer-IsKnown 7 (omega arith)) one_bucket-IsValid

-- The contacts 1 to n, the latest first.
abbrev filled : ℕ → Bucket.Bucket
filled zero = []
filled (suc n) = (touch (peer (suc n)) (filled n)).0

filled-IsValid : (n : ℕ) → n < 256 → Recency.IsValid (filled n)
filled-IsValid zero h = record { bounded = omega arith; known = tt; distinct = tt }
filled-IsValid (suc n) h =
    touch-IsValid (peer (suc n)) (filled n) (peer-IsKnown (suc n) h)
      (filled-IsValid n (omega arith))

full_bucket_rejects : Bucket.add_contact (peer 20) (filled 10) ≡ some (filled 10, false)
unfolding Bucket.add_contact touch stored without Bucket.find_element bytes_eq Id.equals
full_bucket_rejects = refl

add_contact-after_add_example :
    (RoutingTable.add_contact one_table (peer 7) ≡ some (after_add one_table (peer 7)))
    × Valid.IsValid (after_add one_table (peer 7))
add_contact-after_add_example =
    add_contact-after_add one_table (peer 7) one_table-IsValid (peer-IsKnown 7 (omega arith))

find_closest_contacts_lem_example :
    (r : List Contact) × (find_closest_contacts one_table (some (small 9)) 3 ≡ some r)
    × (length r ≡ min 3 (upto one_table.buckets bucket_count))
    × Ascending r
    × All (IsListed one_table (small 9)) r
    × Distinct (keys r)
find_closest_contacts_lem_example =
    find_closest_contacts_lem one_table (small 9) 3 one_table-IsValid (small-IsId 9 (omega arith))
