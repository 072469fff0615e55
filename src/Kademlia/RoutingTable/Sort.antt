-- ===== src/Kademlia/RoutingTable/Sort.antt =====
-- The sort of contacts by their distance: it keeps the contacts and puts them in order.
use d7024e_lab.Kademlia.Contact
use d7024e_lab.Prelude.{
  All, All-take, Bool-cases, List, [], ap, arith, inl, inr, length, ltb, none, refl, some, suc, sym,
  take, zero, ℕ, ◌∙◌, ◌∷◌, ◌≡◌, ◌≢◌, ◌≤◌,
}
use d7024e_lab.Kademlia.Bucket.Recency.{Distinct, keys}
use d7024e_lab.Kademlia.Contact.{Contact, key}
use d7024e_lab.Kademlia.Id.{IsId, KademliaId}
use d7024e_lab.Kademlia.Id.Order.{less-value, value}
use d7024e_lab.Kademlia.RoutingTable.{closer, insert_sorted, sort}

-- The distance field as a number.
abbrev pub away : Contact → ℕ
away c = elim c.distance [ none ↦ 0 | some d ↦ value d ]

-- The distance is filled in.
pub record IsMeasured (c : Contact) : Type 0 where
  pub gap : KademliaId
  pub filled : c.distance ≡ some gap
  pub gap_id : IsId gap

pub closer-away : (a b : Contact) → IsMeasured a → IsMeasured b → closer a b ≡ ltb (away a) (away b)
unfolding closer Contact.less
closer-away a b ha hb =
    ground (arith, ha.filled, hb.filled, less-value ha.gap hb.gap ha.gap_id hb.gap_id)

abbrev pub Ascending : List Contact → Type 0
Ascending [] = Unit
Ascending (c ∷ cs) = All (λ d. away c ≤ away d) cs × Ascending cs

module _ (P : Contact → Type 0) where
  All-insert_sorted :
      (c : Contact) (cs : List Contact) → P c → All P cs → All P (insert_sorted c cs)
  unfolding insert_sorted
  All-insert_sorted c [] hc h = (hc, tt)
  All-insert_sorted c (d ∷ ds) hc h = elim (Bool-cases (closer d c)) [
    | inl e ↦ rw e (h.0, All-insert_sorted c ds hc h.1)
    | inr e ↦ rw e (hc, h)
  ]

  pub All-sort : (cs : List Contact) → All P cs → All P (sort cs)
  unfolding sort
  All-sort [] h = tt
  All-sort (c ∷ cs) h = All-insert_sorted c (sort cs) h.0 (All-sort cs h.1)

length-insert_sorted :
    (c : Contact) (cs : List Contact) → length (insert_sorted c cs) ≡ suc (length cs)
unfolding insert_sorted
length-insert_sorted c [] = refl
length-insert_sorted c (d ∷ ds) = ground (arith, length-insert_sorted c ds)

pub length-sort : (cs : List Contact) → length (sort cs) ≡ length cs
unfolding sort
length-sort [] = refl
length-sort (c ∷ cs) = length-insert_sorted c (sort cs) ∙ ap suc (length-sort cs)

All-weaken :
    (c d : Contact) (cs : List Contact)
    → away c ≤ away d
    → All (λ e. away d ≤ away e) cs
    → All (λ e. away c ≤ away e) cs
All-weaken c d [] h hs = tt
All-weaken c d (e ∷ es) h hs = (omega arith, All-weaken c d es h hs.1)

Ascending-insert_sorted :
    (c : Contact) (cs : List Contact)
    → IsMeasured c
    → All IsMeasured cs
    → Ascending cs
    → Ascending (insert_sorted c cs)
unfolding insert_sorted
Ascending-insert_sorted c [] hc h s = (tt, tt)
Ascending-insert_sorted c (d ∷ ds) hc h s = elim (Bool-cases (closer d c)) [
  | inl e ↦
      let le : away d ≤ away c = ground (arith, closer-away d c h.0 hc) in
      rw e (
        All-insert_sorted (λ x. away d ≤ away x) c ds le s.0,
        Ascending-insert_sorted c ds hc h.1 s.1,
      )
  | inr e ↦
      let le : away c ≤ away d = ground (arith, closer-away d c h.0 hc) in
      rw e ((le, All-weaken c d ds le s.0), s)
]

pub Ascending-sort : (cs : List Contact) → All IsMeasured cs → Ascending (sort cs)
unfolding sort
Ascending-sort [] h = tt
Ascending-sort (c ∷ cs) h =
    Ascending-insert_sorted c (sort cs) h.0 (All-sort IsMeasured cs h.1) (Ascending-sort cs h.1)

keys-insert_sorted-All :
    (P : KademliaId → Type 0) (c : Contact) (cs : List Contact)
    → P (key c)
    → All P (keys cs)
    → All P (keys (insert_sorted c cs))
unfolding insert_sorted
keys-insert_sorted-All P c [] hc h = (hc, tt)
keys-insert_sorted-All P c (d ∷ ds) hc h = elim (Bool-cases (closer d c)) [
  | inl e ↦ rw e (h.0, keys-insert_sorted-All P c ds hc h.1)
  | inr e ↦ rw e (hc, h)
]

Distinct-insert_sorted :
    (c : Contact) (cs : List Contact)
    → All (λ k. key c ≢ k) (keys cs)
    → Distinct (keys cs)
    → Distinct (keys (insert_sorted c cs))
unfolding insert_sorted
Distinct-insert_sorted c [] h d = (tt, tt)
Distinct-insert_sorted c (x ∷ xs) h d = elim (Bool-cases (closer x c)) [
  | inl e ↦ rw e (
    keys-insert_sorted-All (λ k. key x ≢ k) c xs (λ p. h.0 (sym p)) d.0,
    Distinct-insert_sorted c xs h.1 d.1,
  )
  | inr e ↦ rw e (h, d)
]

keys-sort-All :
    (P : KademliaId → Type 0) (cs : List Contact) → All P (keys cs) → All P (keys (sort cs))
unfolding sort
keys-sort-All P [] h = tt
keys-sort-All P (c ∷ cs) h = keys-insert_sorted-All P c (sort cs) h.0 (keys-sort-All P cs h.1)

pub Distinct-sort : (cs : List Contact) → Distinct (keys cs) → Distinct (keys (sort cs))
unfolding sort
Distinct-sort [] d = tt
Distinct-sort (c ∷ cs) d =
    Distinct-insert_sorted c (sort cs) (keys-sort-All (λ k. key c ≢ k) cs d.0)
      (Distinct-sort cs d.1)

pub Ascending-take : (n : ℕ) (cs : List Contact) → Ascending cs → Ascending (take n cs)
Ascending-take zero cs h = tt
Ascending-take (suc n) [] h = tt
Ascending-take (suc n) (c ∷ cs) h =
    (All-take (λ d. away c ≤ away d) n cs h.0, Ascending-take n cs h.1)

keys-take-All :
    (P : KademliaId → Type 0) (n : ℕ) (cs : List Contact)
    → All P (keys cs)
    → All P (keys (take n cs))
keys-take-All P zero cs h = tt
keys-take-All P (suc n) [] h = tt
keys-take-All P (suc n) (c ∷ cs) h = (h.0, keys-take-All P n cs h.1)

pub Distinct-take : (n : ℕ) (cs : List Contact) → Distinct (keys cs) → Distinct (keys (take n cs))
Distinct-take zero cs h = tt
Distinct-take (suc n) [] h = tt
Distinct-take (suc n) (c ∷ cs) h = (keys-take-All (λ k. key c ≢ k) n cs h.0, Distinct-take n cs h.1)
