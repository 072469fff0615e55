-- ===== src/Kademlia/RoutingTable/Rounds.antt =====
-- One round of the loop in `FindClosestContacts` of kademlia/routingtable.go.
use mathlib.Core.List.{append-nil}
use d7024e_lab.Kademlia.RoutingTable.Valid
use d7024e_lab.Kademlia.Bucket
use d7024e_lab.Prelude.{
  Bool, Bool-cases, List, [], ap, arith, false, if◌then◌else◌, inl, inr, leb, length, length-append,
  ltb, map, min, refl, some, suc, true, ℕ, ◌++◌, ◌+◌, ◌-◌, ◌<◌, ◌∷◌, ◌≡◌, ◌≤◌,
}
use d7024e_lab.Kademlia.Bucket.{Bucket}
use d7024e_lab.Kademlia.Contact.{Contact}
use d7024e_lab.Kademlia.Id.{KademliaId}
use d7024e_lab.Kademlia.RoutingTable.{RoutingTable, bucket_count, side}
use d7024e_lab.Kademlia.RoutingTable.Listed.{
  IsCollected, IsCollected-append, All-grow, get_contact_and_calc_distance-map, measured, upto,
}

module _ (rt : RoutingTable) (t : KademliaId) (j : ℕ) where
  -- The candidates that one side of a round adds.
  abbrev pub part : Bool → List Contact
  part q = if q then map (measured t) (rt.buckets j) else []

  pub side-part : (q : Bool) → Valid.IsValid rt → side rt (some t) q j ≡ some (part q)
  unfolding side
  side-part true h = get_contact_and_calc_distance-map t (rt.buckets j) (h.buckets_valid j).known
  side-part false h = refl

  pub IsCollected-part :
      (Q Q' : ℕ → Type 0) (q : Bool) (xs : List Contact)
      → ((i : ℕ) → Q i → Q' i)
      → (q ≡ true → Q' j × (¬ Q j))
      → Valid.IsValid rt
      → IsCollected rt t Q xs
      → IsCollected rt t Q' (xs ++ part q)
  IsCollected-part Q Q' true xs grow new h w =
      IsCollected-append rt t j Q Q' grow (new refl).0 (new refl).1 xs h w
  IsCollected-part Q Q' false xs grow new h w = rw append-nil (record {
    listed = w.listed;
    within = All-grow rt Q Q' grow xs w.within;
    distinct = w.distinct;
  })

  pub length-part : (q : Bool) → length (part q) ≡ (if q then length (rt.buckets j) else 0)
  length-part true = length-map (rt.buckets j)
    where
      length-map : (ys : Bucket.Bucket) → length (map (measured t) ys) ≡ length ys
      length-map ys = elim ys as (λ l. length (map (measured t) l) ≡ length l) [
        | [] ↦ refl
        | y ∷ (l → ih) ↦ ap suc ih
      ]
  length-part false = refl

-- After the rounds below `i`: the candidates are all contacts of the buckets less than `i` from `b`.
abbrev pub Near : ℕ → ℕ → ℕ → Type 0
Near b i k = (b + 1 ≤ k + i) × (k < b + i)

pub record Window (rt : RoutingTable) (t : KademliaId) (b i : ℕ) (cands : List Contact)
    : Type 0 where
  pub size : length cands + upto rt.buckets (b + 1 - i) ≡ upto rt.buckets (min (b + i) bucket_count)
  pub collected : IsCollected rt t (Near b i) cands

module _ (rt : RoutingTable) (t : KademliaId) (b : ℕ) where
  abbrev pub next : ℕ → List Contact → List Contact
  next i cands =
      (cands ++ part rt t (b - i) (leb i b)) ++ part rt t (b + i) (ltb (b + i) bucket_count)

  pub low_size :
      (i : ℕ)
      → 1 ≤ i
      → upto rt.buckets (b + 1 - i)
        ≡ upto rt.buckets (b + 1 - suc i) + length (part rt t (b - i) (leb i b))
  unfolding upto
  low_size i pos = elim (Bool-cases (leb i b)) [
    | inl le ↦
        let e1 : b + 1 - i ≡ suc (b - i) = ground arith in
        let e2 : b + 1 - suc i ≡ b - i = ground arith in
        rw (length-part rt t (b - i) (leb i b), le, e1, e2)
    | inr gt ↦
        let e1 : b + 1 - i ≡ 0 = ground arith in
        let e2 : b + 1 - suc i ≡ 0 = ground arith in
        rw (length-part rt t (b - i) (leb i b), gt, e1, e2)
  ]

  pub high_size :
      (i : ℕ)
      → upto rt.buckets (min (b + suc i) bucket_count)
        ≡ upto rt.buckets (min (b + i) bucket_count)
          + length (part rt t (b + i) (ltb (b + i) bucket_count))
  unfolding upto
  high_size i = elim (Bool-cases (ltb (b + i) bucket_count)) [
    | inl lt ↦
        let e1 : min (b + suc i) bucket_count ≡ suc (b + i) = ground arith in
        let e2 : min (b + i) bucket_count ≡ b + i = ground arith in
        rw (length-part rt t (b + i) (ltb (b + i) bucket_count), lt, e1, e2)
    | inr ge ↦
        let e1 : min (b + suc i) bucket_count ≡ bucket_count = ground arith in
        let e2 : min (b + i) bucket_count ≡ bucket_count = ground arith in
        rw (length-part rt t (b + i) (ltb (b + i) bucket_count), ge, e1, e2) (omega arith)
  ]

  pub Window-next :
      (i : ℕ) (cands : List Contact)
      → Valid.IsValid rt
      → 1 ≤ i
      → Window rt t b i cands
      → Window rt t b (suc i) (next i cands)
  Window-next i cands h pos w = record {
    size = omega (
      arith,
      w.size,
      low_size i pos,
      high_size i,
      length-append cands (part rt t (b - i) (leb i b)),
      length-append (cands ++ part rt t (b - i) (leb i b))
          (part rt t (b + i) (ltb (b + i) bucket_count)),
    );
    collected =
        IsCollected-part rt t (b + i) (λ k. (b ≤ k + i) × (k < b + i)) (Near b (suc i))
          (ltb (b + i) bucket_count) (cands ++ part rt t (b - i) (leb i b))
          (λ k q. (omega arith, omega arith)) (λ lt. ((omega arith, omega arith), λ q. omega arith))
          h
          (IsCollected-part rt t (b - i) (Near b i) (λ k. (b ≤ k + i) × (k < b + i)) (leb i b) cands
            (λ k q. (omega arith, q.1))
            (λ le. let le' : i ≤ b = ground arith in ((omega arith, omega arith), λ q. omega arith))
            h w.collected);
  }
