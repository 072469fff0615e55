-- ===== src/Kademlia/RoutingTable/Closest.antt =====
-- `FindClosestContacts` of kademlia/routingtable.go on a valid table: how many contacts it returns,
-- which, and in which order.
use d7024e_lab.Kademlia.RoutingTable.Valid
use d7024e_lab.Kademlia.Id
use d7024e_lab.Prelude.{
  All, All-take, Bool, Bool-cases, List, [], arith, if◌then◌else◌, inl, inr, leb, length,
  length-take, ltb, map, min, refl, some, suc, take, true, zero, ℕ, ◌&&◌, ◌+◌, ◌-◌, ◌<◌, ◌||◌, ◌∙◌,
  ◌∷◌, ◌≡◌, ◌≤◌, ◌⊎◌,
}
use d7024e_lab.Kademlia.Bucket.Recency.{Distinct, keys}
use d7024e_lab.Kademlia.Contact.{Contact, key}
use d7024e_lab.Kademlia.Id.{IsId, KademliaId}
use d7024e_lab.Kademlia.Id.Metric.{calc_distance-IsId}
use d7024e_lab.Kademlia.RoutingTable.{
  RoutingTable, bucket_count, find_closest_contacts, gather, get_bucket_index, index_of_distance,
  sort,
}
use d7024e_lab.Kademlia.RoutingTable.Index.{index_of_distance-lt}
use d7024e_lab.Kademlia.RoutingTable.Listed.{
  IsCollected-append, IsListed, IsListed-IsMeasured, get_contact_and_calc_distance-map, measured,
  upto, upto_mono,
}
use d7024e_lab.Kademlia.RoutingTable.Rounds.{
  Near, Window, Window-next, length-part, next, side-part,
}
use d7024e_lab.Kademlia.RoutingTable.Sort.{
  All-sort, Ascending, Ascending-sort, Ascending-take, Distinct-sort, Distinct-take, IsMeasured,
  length-sort,
}

module _ (rt : RoutingTable) (t : KademliaId) (b : ℕ) where
  -- What the loop hands on: enough candidates, or all contacts of the table.
  record IsGathered (count : ℕ) (cands : List Contact) : Type 0 where
    size : min count (length cands) ≡ min count (upto rt.buckets bucket_count)
    listed : All (IsListed rt t) cands
    distinct : Distinct (keys cands)

  stop :
      (count i : ℕ) (cands : List Contact)
      → b < bucket_count
      → Window rt t b i cands
      → (count ≤ length cands) ⊎ ((b < i) × (bucket_count ≤ b + i))
      → IsGathered count cands
  stop count i cands hb w (inl enough) = record {
    size =
        let d = bucket_count - min (b + i) bucket_count in
        let e : d + min (b + i) bucket_count ≡ bucket_count = omega arith in
        let le : upto rt.buckets (min (b + i) bucket_count) ≤ upto rt.buckets bucket_count =
          rw e at (upto_mono rt.buckets d (min (b + i) bucket_count)) in
        omega (arith, w.size);
    listed = w.collected.listed;
    distinct = w.collected.distinct;
  }
  stop count i cands hb w (inr (below, above)) = record {
    size =
        let e1 : b + 1 - i ≡ 0 = omega arith in
        let e2 : min (b + i) bucket_count ≡ bucket_count = omega arith in
        omega (arith, (rw (e1, e2) at w.size), upto_zero);
    listed = w.collected.listed;
    distinct = w.collected.distinct;
  }
    where
      upto_zero : upto rt.buckets 0 ≡ 0
      upto_zero = unfold upto in refl

  abbrev more : ℕ → ℕ → List Contact → Bool
  more count i cands = (leb i b || ltb (b + i) bucket_count) && ltb (length cands) count

  gather_step :
      (n count i : ℕ) (cands : List Contact)
      → Valid.IsValid rt
      → gather (suc n) rt (some t) count b i cands ≡ (
          if more count i cands
          then gather n rt (some t) count b (suc i) (next rt t b i cands)
          else some cands)
  unfolding gather
  gather_step n count i cands h = elim (Bool-cases (more count i cands)) [
    | inl go ↦
        rw (go, gather)
          (rw (
            side-part rt t (b - i) (leb i b) h,
            side-part rt t (b + i) (ltb (b + i) bucket_count) h,
          ))
    | inr done ↦ rw (done, gather)
  ]

  gather_lem :
      (n count i : ℕ) (cands : List Contact)
      → n + i ≡ 257
      → 1 ≤ i
      → b < bucket_count
      → Valid.IsValid rt
      → Window rt t b i cands
      → (r : List Contact) × (gather n rt (some t) count b i cands ≡ some r) × IsGathered count r
  gather_lem zero count i cands e pos hb h w =
      (cands, unfold gather in refl, stop count i cands hb w (inr (omega arith, omega arith)))
  gather_lem (suc n) count i cands e pos hb h w = elim (Bool-cases (more count i cands)) [
    | inl go ↦
        let (r, found, gathered) =
          gather_lem n count (suc i) (next rt t b i cands) (omega arith) (omega arith) hb h
            (Window-next rt t b i cands h pos w) in
        (r, gather_step n count i cands h ∙ rw go found, gathered)
    | inr done ↦
        (cands, gather_step n count i cands h ∙ rw done, stop count i cands hb w (ground arith))
  ]

  first-Window :
      Valid.IsValid rt → b < bucket_count → Window rt t b 1 (map (measured t) (rt.buckets b))
  first-Window h hb = record {
    size =
        let e1 : b + 1 - 1 ≡ b = omega arith in
        let e2 : min (b + 1) bucket_count ≡ suc b = omega arith in
        rw (e1, e2) (unfold upto in (omega (arith, length-part rt t b true)));
    collected =
        IsCollected-append rt t b (Near b 0) (Near b 1) (λ k q. absurd (omega arith))
          (omega arith, omega arith) (λ q. omega arith) [] h
          (record { listed = tt; within = tt; distinct = tt });
  }

-- On a valid table and any target the search does not panic. It returns as many contacts as asked
-- for, or all that the table has if these are fewer; each is a contact of the table with its
-- distance to the target, none twice, nearest first.
pub find_closest_contacts_lem :
    (rt : RoutingTable) (t : KademliaId) (count : ℕ)
    → Valid.IsValid rt
    → IsId t
    → (r : List Contact) × (find_closest_contacts rt (some t) count ≡ some r)
      × (length r ≡ min count (upto rt.buckets bucket_count))
      × Ascending r
      × All (IsListed rt t) r
      × Distinct (keys r)
unfolding find_closest_contacts get_bucket_index
find_closest_contacts_lem rt t count h ht =
    let b = index_of_distance (Id.calc_distance t (key rt.me)) in
    let hb : b < bucket_count =
      index_of_distance-lt (Id.calc_distance t (key rt.me))
        (calc_distance-IsId t (key rt.me) ht h.me_known.key_id) in
    let (cands, found, g) =
      gather_lem rt t b bucket_count count 1 (map (measured t) (rt.buckets b)) (omega arith)
        (omega arith) hb h (first-Window rt t b h hb) in
    let sorted = sort cands in
    let n = min count (length sorted) in
    (
      take n sorted,
      ground (
        arith,
        h.me_known.has_id,
        get_contact_and_calc_distance-map t (rt.buckets b) (h.buckets_valid b).known,
        found,
      ),
      omega (arith, length-take n sorted, length-sort cands, g.size),
      Ascending-take n sorted (Ascending-sort cands (all_measured cands g.listed)),
      All-take (IsListed rt t) n sorted (All-sort (IsListed rt t) cands g.listed),
      Distinct-take n sorted (Distinct-sort cands g.distinct),
    )
  where
    all_measured : (cs : List Contact) → All (IsListed rt t) cs → All IsMeasured cs
    all_measured cs = elim cs as (λ l. All (IsListed rt t) l → All IsMeasured l) [
      | [] ↦ λ l. tt
      | c ∷ (ds → ih) ↦ λ l. (IsListed-IsMeasured c ht l.0, ih l.1)
    ]
