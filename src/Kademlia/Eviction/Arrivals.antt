-- ===== src/Kademlia/Eviction/Arrivals.antt =====
-- The calls that change the shared table of kademlia/routingtable.go from outside: the first part
-- of `UpdateWithPing`, `AddContact` and `RemoveContact`.
use d7024e_lab.Kademlia.Bucket
use d7024e_lab.Kademlia.RoutingTable
use d7024e_lab.Kademlia.RoutingTable.Valid
use d7024e_lab.Prelude.{
  All, Bool, Bool-cases, List, Option, [], arith, false, inl, inr, none, refl, some, subst, true, ℕ,
  ◌∷◌, ◌≡◌,
}
use d7024e_lab.Kademlia.Bucket.{Bucket, get_oldest_contact}
use d7024e_lab.Kademlia.Bucket.Kept.{All-touch, is_some, touch-IsValid}
use d7024e_lab.Kademlia.Bucket.Recency.{add_contact-touch, stored, touch, without}
use d7024e_lab.Kademlia.Contact.{Contact, IsKnown, IsTyped, IsTyped-cases, key}
use d7024e_lab.Kademlia.Eviction.{Thread, enqueuing, is_me, settle, try_add, wait_for}
use d7024e_lab.Kademlia.Eviction.Safe.{HasQueues, IsGood, Keeps, LivesIn, probes}
use d7024e_lab.Kademlia.Eviction.Steps.{keep_table}
use d7024e_lab.Kademlia.RoutingTable.{RoutingTable}
use d7024e_lab.Kademlia.RoutingTable.Valid.{
  add_contact-after_add, after_add, after_remove, get_bucket_index-home, home,
  remove_contact-after_remove, with_bucket, with_bucket-IsValid,
}

All-oldest :
    (P : Contact → Type 0) (b : Bucket.Bucket) (c : Contact)
    → All P b
    → get_oldest_contact b ≡ some c
    → P c
unfolding get_oldest_contact
All-oldest P [] c h e = cc
All-oldest P (x ∷ []) c h e = subst P (let e' : x ≡ c = cc in e') h.0
All-oldest P (x ∷ y ∷ ys) c h e = All-oldest P (y ∷ ys) c h.1 e

both : (P Q : Contact → Type 0) (b : Bucket.Bucket) → All P b → All Q b → All (λ c. P c × Q c) b
both P Q [] p q = tt
both P Q (c ∷ cs) p q = ((p.0, q.0), both P Q cs p.1 q.1)

module _ (rt : RoutingTable) (table : Valid.IsValid rt) (queues : HasQueues rt) where
  unchanged :
      (ths : List Thread)
      → All (IsGood rt) ths
      → ((j : ℕ) → probes j ths ≡ 0)
      → Keeps rt (λ j. 0) (rt, ths)
  unchanged ths g p = record {
    table = table;
    queues = queues;
    same_me = refl;
    good = g;
    count = λ j. omega (arith, p j);
  }

  wait_for-Keeps :
      (i : ℕ) (c : Contact) (has_pinger : Bool) (o : Option Contact)
      → IsKnown c
      → ((d : Contact) → o ≡ some d → LivesIn rt i d)
      → Keeps rt (λ j. 0) (rt, wait_for i c has_pinger o)
  unfolding wait_for probes
  wait_for-Keeps i c has_pinger none hc lives = unchanged [] tt (λ j. refl)
  wait_for-Keeps i c true (some o) hc lives =
      unchanged (enqueuing i c o ∷ []) ((hc, lives o refl), tt) (λ j. omega arith)
  wait_for-Keeps i c false (some o) hc lives = unchanged [] tt (λ j. refl)

  settle-Keeps :
      (i : ℕ) (c : Contact) (has_pinger : Bool) (r : Bucket.Bucket × Bool)
      → IsKnown c
      → Valid.IsValid (with_bucket rt i r.0)
      → Keeps rt (λ j. 0) (settle rt i c has_pinger r)
  unfolding settle probes
  settle-Keeps i c has_pinger (b, true) hc valid =
      keep_table rt table queues i b [] (λ j. 0) valid tt (λ j. refl)
  settle-Keeps i c has_pinger (b, false) hc valid =
      wait_for-Keeps i c has_pinger (get_oldest_contact (rt.buckets i)) hc (λ d e.
        All-oldest (LivesIn rt i) (rt.buckets i) d
          (both IsKnown (λ x. home rt x ≡ i) (rt.buckets i) (table.buckets_valid i).known
            (table.placed i))
          e)

  -- The part of `UpdateWithPing` under `mu` does not panic, and keeps the invariant.
  pub try_add-Keeps :
      (c : Contact) (has_pinger : Bool)
      → IsTyped c
      → (r : RoutingTable × List Thread) × (try_add rt c has_pinger ≡ some r) × Keeps rt (λ j. 0) r
  unfolding try_add probes
  try_add-Keeps c has_pinger ty = elim (IsTyped-cases c ty) [
    | inl e ↦ ((rt, []), rw (e, try_add), unchanged [] tt (λ j. refl))
    | inr hc ↦ elim (Bool-cases (is_me rt (key c))) [
      | inl e ↦ ((rt, []), ground (arith, hc.has_id, e), unchanged [] tt (λ j. refl))
      | inr e ↦
          let i = home rt c in
          let r = touch c (rt.buckets i) in
          (
            settle rt i c has_pinger r,
            ground (
              arith,
              hc.has_id,
              e,
              get_bucket_index-home rt c table hc,
              add_contact-touch c (rt.buckets i) hc (table.buckets_valid i),
            ),
            settle-Keeps i c has_pinger r hc (
                with_bucket-IsValid rt i r.0 table
                  (touch-IsValid c (rt.buckets i) hc (table.buckets_valid i))
                  (All-touch (λ d. home rt d ≡ i) c (rt.buckets i) refl (table.placed i))),
          )
    ]
  ]

  -- So do `AddContact` and `RemoveContact`, also on a contact with no identifier.
  pub add_contact-Keeps :
      (c : Contact)
      → IsTyped c
      → (rt' : RoutingTable) × (RoutingTable.add_contact rt c ≡ some rt')
        × Keeps rt (λ j. 0) (rt', [])
  unfolding RoutingTable.add_contact after_add probes
  add_contact-Keeps c ty = elim (IsTyped-cases c ty) [
    | inl e ↦ (rt, rw (e, RoutingTable.add_contact), unchanged [] tt (λ j. refl))
    | inr hc ↦
        let (added, valid) = add_contact-after_add rt c table hc in
        (
          after_add rt c,
          added,
          keep_table rt table queues (home rt c) (touch c (rt.buckets (home rt c))).0 [] (λ j. 0)
              valid tt (λ j. refl),
        )
  ]

  pub remove_contact-Keeps :
      (c : Contact)
      → IsTyped c
      → (r : RoutingTable × Bool) × (RoutingTable.remove_contact rt c ≡ some r)
        × Keeps rt (λ j. 0) (r.0, [])
  unfolding RoutingTable.remove_contact after_remove probes
  remove_contact-Keeps c ty = elim (IsTyped-cases c ty) [
    | inl e ↦ ((rt, false), rw (e, RoutingTable.remove_contact), unchanged [] tt (λ j. refl))
    | inr hc ↦
        let (removed, valid) = remove_contact-after_remove rt c table hc in
        (
          (after_remove rt c, is_some (stored (key c) (rt.buckets (home rt c)))),
          removed,
          keep_table rt table queues (home rt c) (without (key c) (rt.buckets (home rt c))) []
              (λ j. 0) valid tt (λ j. refl),
        )
  ]
