-- ===== src/Kademlia/Eviction/Safe.antt =====
-- Whatever the order in which the threads of `UpdateWithPing` run, the table stays valid, its
-- queues bounded, and no bucket has two probes.
use d7024e_lab.Kademlia.RoutingTable.Valid
use d7024e_lab.Prelude.{
  All, All-append, Bool-cases, List, [], arith, drop, if◌then◌else◌, inl, inr, leb, length,
  length-append, refl, ℕ, ◌+◌, ◌==◌, ◌∷◌, ◌≡◌, ◌≤◌,
}
use d7024e_lab.Kademlia.Contact.{Contact, IsKnown, key}
use d7024e_lab.Kademlia.Eviction.{
  System, Thread, enqueue, enqueuing, evicted, finishing, in_cache, probing, queue_candidate,
  replacement_cache_size, replacing,
}
use d7024e_lab.Kademlia.RoutingTable.{RoutingTable, update}
use d7024e_lab.Kademlia.RoutingTable.Valid.{home}

-- The contact belongs to bucket `i`.
abbrev pub LivesIn : RoutingTable → ℕ → Contact → Type 0
LivesIn rt i c = IsKnown c × (home rt c ≡ i)

abbrev pub IsGood : RoutingTable → Thread → Type 0
IsGood rt (enqueuing i c oldest) = IsKnown c × LivesIn rt i oldest
IsGood rt (probing i target) = LivesIn rt i target
IsGood rt (replacing i c) = IsKnown c
IsGood rt _ = Unit

abbrev pub at_index : ℕ → ℕ → ℕ
at_index i j = if i == j then 1 else 0

-- The thread is a probe of bucket `j`.
unfoldable pub probe_of : ℕ → Thread → ℕ
probe_of j (enqueuing i c oldest) = 0
probe_of j (probing i target) = at_index i j
probe_of j (evicted i) = at_index i j
probe_of j (replacing i c) = at_index i j
probe_of j (finishing i) = at_index i j

-- The number of probes of bucket `j`.
unfoldable pub probes : ℕ → List Thread → ℕ
unfolding probe_of
probes j [] = 0
probes j (th ∷ ths) = probe_of j th + probes j ths

abbrev pub flag : RoutingTable → ℕ → ℕ
flag rt j = if rt.in_flight j then 1 else 0

pub record HasQueues (rt : RoutingTable) : Type 0 where
  pub bounded : (i : ℕ) → length (rt.replacements i) ≤ replacement_cache_size
  pub known : (i : ℕ) → All IsKnown (rt.replacements i)

pub record IsSound (s : System) : Type 0 where
  pub table : Valid.IsValid s.rt
  pub queues : HasQueues s.rt
  pub good : All (IsGood s.rt) s.threads
  pub one_probe : (j : ℕ) → probes j s.threads ≡ flag s.rt j

-- What one part of a thread must keep: the table valid, its queues, the node itself, and the count
-- of the probes, where `p` counts those of the thread.
pub record Keeps (rt : RoutingTable) (p : ℕ → ℕ) (r : RoutingTable × List Thread) : Type 0 where
  pub table : Valid.IsValid r.0
  pub queues : HasQueues r.0
  pub same_me : r.0.me ≡ rt.me
  pub good : All (IsGood r.0) r.1
  pub count : (j : ℕ) → probes j r.1 + flag rt j ≡ p j + flag r.0 j

length-enqueue :
    (c : Contact) (q : List Contact)
    → length q ≤ replacement_cache_size
    → length (enqueue c q) ≤ replacement_cache_size
unfolding enqueue
length-enqueue c [] h = ground arith
length-enqueue c (d ∷ ds) h = ground (arith, length-append ds (c ∷ []), length-append ds (c ∷ []))

enqueue-IsKnown :
    (c : Contact) (q : List Contact) → IsKnown c → All IsKnown q → All IsKnown (enqueue c q)
unfolding enqueue
enqueue-IsKnown c q hc h = elim (Bool-cases (in_cache (key c) q)) [
  | inl e ↦ rw e h
  | inr e ↦ rw e (elim (Bool-cases (leb replacement_cache_size (length q))) [
    | inl f ↦ rw f (All-append IsKnown (drop 1 q) (c ∷ []) (All-tail q h) (hc, tt))
    | inr f ↦ rw f (All-append IsKnown q (c ∷ []) h (hc, tt))
  ])
]
  where
    All-tail : (q : List Contact) → All IsKnown q → All IsKnown (drop 1 q)
    All-tail q = elim q as (λ l. All IsKnown l → All IsKnown (drop 1 l)) [
      | [] ↦ λ h. h
      | c ∷ cs ↦ λ h. h.1
    ]

module _ (rt : RoutingTable) (table : Valid.IsValid rt) (queues : HasQueues rt) where
  pub with_queue :
      (i : ℕ) (q : List Contact)
      → length q ≤ replacement_cache_size
      → All IsKnown q
      → HasQueues (record rt { replacements = update rt.replacements i q })
  with_queue i q hl hk = record {
    bounded = λ j. ground (arith, queues.bounded j);
    known = λ j. elim (Bool-cases (i == j)) [ inl e ↦ rw e hk | inr e ↦ rw e (queues.known j) ];
  }

  pub queue_candidate-Keeps :
      (i : ℕ) (c oldest : Contact)
      → IsKnown c
      → LivesIn rt i oldest
      → Keeps rt (λ j. 0) (queue_candidate rt i c oldest)
  unfolding queue_candidate probes
  queue_candidate-Keeps i c oldest hc ho =
      let q = enqueue c (rt.replacements i) in
      let qs =
        with_queue i q (length-enqueue c (rt.replacements i) (queues.bounded i))
          (enqueue-IsKnown c (rt.replacements i) hc (queues.known i)) in
      elim (Bool-cases (rt.in_flight i)) [
        | inl e ↦ rw e (record {
          table = record {
            me_known = table.me_known;
            buckets_valid = table.buckets_valid;
            placed = table.placed;
          };
          queues = qs;
          same_me = refl;
          good = tt;
          count = λ j. omega arith;
        })
        | inr e ↦ rw e (record {
          table = record {
            me_known = table.me_known;
            buckets_valid = table.buckets_valid;
            placed = table.placed;
          };
          queues = record { bounded = qs.bounded; known = qs.known };
          same_me = refl;
          good = (ho, tt);
          count = λ j. ground (arith, e);
        })
      ]
