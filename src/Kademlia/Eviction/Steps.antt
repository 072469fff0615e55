-- ===== src/Kademlia/Eviction/Steps.antt =====
-- Every locked part of a thread of `UpdateWithPing` keeps the invariant, and none panics.
use d7024e_lab.Kademlia.Bucket
use d7024e_lab.Kademlia.RoutingTable.Valid
use d7024e_lab.Prelude.{
  All, Bool, List, [], arith, false, length, refl, some, subst, true, ℕ, ◌∷◌, ◌≡◌, ◌≤◌,
}
use d7024e_lab.Kademlia.Bucket.{Bucket}
use d7024e_lab.Kademlia.Bucket.Kept.{All-touch, touch-IsValid}
use d7024e_lab.Kademlia.Bucket.Recency.{add_contact-touch, touch, without}
use d7024e_lab.Kademlia.Contact.{Contact, IsKnown, key}
use d7024e_lab.Kademlia.Eviction.{
  Thread, advance, enqueuing, evicted, finishing, pop_replacement, probing, queue_candidate,
  replacement_cache_size, replacing,
}
use d7024e_lab.Kademlia.Eviction.Safe.{
  HasQueues, IsGood, Keeps, at_index, flag, probe_of, probes, queue_candidate-Keeps, with_queue,
}
use d7024e_lab.Kademlia.RoutingTable.{RoutingTable, update}
use d7024e_lab.Kademlia.RoutingTable.Valid.{
  add_contact-after_add, after_add, after_remove, home, remove_contact-after_remove, with_bucket,
  with_bucket-IsValid,
}

module _ (rt : RoutingTable) (table : Valid.IsValid rt) (queues : HasQueues rt) where
  pub keep_table :
      (i : ℕ) (b : Bucket.Bucket) (ths : List Thread) (p : ℕ → ℕ)
      → Valid.IsValid (with_bucket rt i b)
      → All (IsGood rt) ths
      → ((j : ℕ) → probes j ths ≡ p j)
      → Keeps rt p (with_bucket rt i b, ths)
  keep_table i b ths p valid good count = record {
    table = valid;
    queues = record { bounded = queues.bounded; known = queues.known };
    same_me = refl;
    good = All-same ths good;
    count = λ j. omega (arith, count j);
  }
    where
      same_good : (th : Thread) → IsGood rt th → IsGood (with_bucket rt i b) th
      same_good th = elim th as (λ x. IsGood rt x → IsGood (with_bucket rt i b) x) [
        | enqueuing k c o ↦ λ h. h
        | probing k c ↦ λ h. h
        | evicted k ↦ λ h. h
        | replacing k c ↦ λ h. h
        | finishing k ↦ λ h. h
      ]

      All-same : (xs : List Thread) → All (IsGood rt) xs → All (IsGood (with_bucket rt i b)) xs
      All-same xs = elim xs as (λ l. All (IsGood rt) l → All (IsGood (with_bucket rt i b)) l) [
        | [] ↦ λ h. tt
        | x ∷ (l → ih) ↦ λ h. (same_good x h.0, ih h.1)
      ]

  pop_replacement-Keeps : (i : ℕ) → Keeps rt (λ j. at_index i j) (pop_replacement rt i)
  unfolding pop_replacement probes
  pop_replacement-Keeps i = go (rt.replacements i) refl
    where
      same_table :
          (q : List Contact)
          → Valid.IsValid (record rt { replacements = update rt.replacements i q })
      same_table q = record {
        me_known = table.me_known;
        buckets_valid = table.buckets_valid;
        placed = table.placed;
      }

      pop : List Contact → RoutingTable × List Thread
      pop q = elim q [
        | [] ↦ (rt, finishing i ∷ [])
        | c ∷ cs ↦ (record rt { replacements = update rt.replacements i cs }, replacing i c ∷ [])
      ]

      go : (q : List Contact) → rt.replacements i ≡ q → Keeps rt (λ j. at_index i j) (pop q)
      go [] e = record {
        table = table;
        queues = queues;
        same_me = refl;
        good = (tt, tt);
        count = λ j. omega arith;
      }
      go (c ∷ cs) e =
          let all : All IsKnown (c ∷ cs) = subst (All IsKnown) e (queues.known i) in
          let size : length (c ∷ cs) ≤ replacement_cache_size =
            subst (λ q. length q ≤ replacement_cache_size) e (queues.bounded i) in
          record {
            table = same_table cs;
            queues = with_queue rt table queues i cs (omega arith) all.1;
            same_me = refl;
            good = (all.0, tt);
            count = λ j. omega arith;
          }

  pub advance-Keeps :
      (answered : Bool) (th : Thread)
      → IsGood rt th
      → ((j : ℕ) → probe_of j th ≤ flag rt j)
      → (r : RoutingTable × List Thread) × (advance answered th rt ≡ some r)
        × Keeps rt (λ j. probe_of j th) r
  unfolding advance probes after_add after_remove
  advance-Keeps answered (enqueuing i c oldest) g f = (
    queue_candidate rt i c oldest,
    refl,
    queue_candidate-Keeps rt table queues i c oldest g.0 g.1,
  )
  advance-Keeps true (probing i target) g f =
      let b = rt.buckets i in
      let b' = (touch target b).0 in
      let valid =
        with_bucket-IsValid rt i b' table (touch-IsValid target b g.0 (table.buckets_valid i))
          (All-touch (λ d. home rt d ≡ i) target b g.1 (table.placed i)) in
      (
        (with_bucket rt i b', finishing i ∷ []),
        ground (arith, add_contact-touch target b g.0 (table.buckets_valid i)),
        keep_table i b' (finishing i ∷ []) (λ j. at_index i j) valid (tt, tt) (λ j. omega arith),
      )
  advance-Keeps false (probing i target) g f =
      let (removed, valid) = remove_contact-after_remove rt target table g.0 in
      (
        (after_remove rt target, evicted i ∷ []),
        ground (arith, removed),
        keep_table (home rt target) (without (key target) (rt.buckets (home rt target)))
            (evicted i ∷ []) (λ j. at_index i j) valid (tt, tt) (λ j. omega arith),
      )
  advance-Keeps answered (evicted i) g f = (pop_replacement rt i, refl, pop_replacement-Keeps i)
  advance-Keeps answered (replacing i c) g f =
      let (added, valid) = add_contact-after_add rt c table g in
      (
        (after_add rt c, finishing i ∷ []),
        ground (arith, added),
        keep_table (home rt c) (touch c (rt.buckets (home rt c))).0 (finishing i ∷ [])
            (λ j. at_index i j) valid (tt, tt) (λ j. omega arith),
      )
  advance-Keeps answered (finishing i) g f = (
    (record rt { in_flight = update rt.in_flight i false }, []),
    refl,
    record {
      table = record {
        me_known = table.me_known;
        buckets_valid = table.buckets_valid;
        placed = table.placed;
      };
      queues = record { bounded = queues.bounded; known = queues.known };
      same_me = refl;
      good = tt;
      count = λ j. ground (arith, f j);
    },
  )
