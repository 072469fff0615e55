-- ===== src/Kademlia/RoutingTable/Listed.antt =====
-- `GetContactAndCalcDistance` of kademlia/bucket.go on valid buckets: contacts of several buckets of
-- kademlia/routingtable.go, with their distances and none twice.
use native.Mathlib.Nat.{zero-add, suc-add}
use d7024e_lab.Kademlia.RoutingTable.Valid
use d7024e_lab.Kademlia.Id
use d7024e_lab.Kademlia.Contact
use d7024e_lab.Kademlia.Bucket
use d7024e_lab.Prelude.{
  All, All-append, In, List, [], ap, arith, inl, inr, length, map, refl, some, subst, suc, zero, ℕ,
  ◌++◌, ◌+◌, ◌∙◌, ◌∷◌, ◌≡◌, ◌≢◌, ◌≤◌,
}
use d7024e_lab.Kademlia.Bucket.{Bucket, get_contact_and_calc_distance}
use d7024e_lab.Kademlia.Bucket.Recency.{Distinct, keys}
use d7024e_lab.Kademlia.Contact.{Contact, IsKnown, key}
use d7024e_lab.Kademlia.Id.{IsId, KademliaId}
use d7024e_lab.Kademlia.Id.Metric.{calc_distance-IsId}
use d7024e_lab.Kademlia.RoutingTable.{RoutingTable, index_of_distance}
use d7024e_lab.Kademlia.RoutingTable.Sort.{IsMeasured}
use d7024e_lab.Kademlia.RoutingTable.Valid.{home}

-- The contact with its distance to `t`.
abbrev pub measured : KademliaId → Contact → Contact
measured t c = record c { distance = some (Id.calc_distance (key c) t) }

pub get_contact_and_calc_distance-map :
    (t : KademliaId) (b : Bucket.Bucket)
    → All IsKnown b
    → get_contact_and_calc_distance b (some t) ≡ some (map (measured t) b)
unfolding get_contact_and_calc_distance Contact.calc_distance
get_contact_and_calc_distance-map t [] h = refl
get_contact_and_calc_distance-map t (c ∷ cs) h =
    ground (arith, h.0.has_id, get_contact_and_calc_distance-map t cs h.1)

-- The contacts in the buckets below `n`.
unfoldable pub upto : (ℕ → Bucket.Bucket) → ℕ → ℕ
upto f zero = 0
upto f (suc n) = upto f n + length (f n)

pub upto_mono : (f : ℕ → Bucket.Bucket) (d n : ℕ) → upto f n ≤ upto f (d + n)
unfolding upto
upto_mono f zero n = rw zero-add (omega arith)
upto_mono f (suc d) n = rw suc-add (omega (arith, upto_mono f d n))

-- The contact is one of the table, with its distance to `t`.
pub record IsListed (rt : RoutingTable) (t : KademliaId) (c : Contact) : Type 0 where
  pub origin : Contact
  pub in_table : In origin (rt.buckets (home rt origin))
  pub known : IsKnown origin
  pub is_measured : c ≡ measured t origin

pub IsListed-IsMeasured :
    {rt : RoutingTable} {t : KademliaId} (c : Contact) → IsId t → IsListed rt t c → IsMeasured c
IsListed-IsMeasured {rt} {t} c ht l = record {
  gap = Id.calc_distance (key l.origin) t;
  filled = ap (λ (x : Contact). x.distance) l.is_measured;
  gap_id = calc_distance-IsId (key l.origin) t l.known.key_id ht;
}

pub bucket-IsListed :
    (rt : RoutingTable) (t : KademliaId) (i : ℕ) (b : Bucket.Bucket)
    → ((c : Contact) → In c b → In c (rt.buckets i))
    → All IsKnown b
    → All (λ c. home rt c ≡ i) b
    → All (IsListed rt t) (map (measured t) b)
bucket-IsListed rt t i [] sub h p = tt
bucket-IsListed rt t i (c ∷ cs) sub h p = (
  record { origin = c; in_table = rw p.0 (sub c (inl refl)); known = h.0; is_measured = refl },
  bucket-IsListed rt t i cs (λ d m. sub d (inr m)) h.1 p.1,
)

-- Contacts of the buckets whose index satisfies `Q`, none twice.
pub record IsCollected (rt : RoutingTable) (t : KademliaId) (Q : ℕ → Type 0) (cands : List Contact)
    : Type 0 where
  pub listed : All (IsListed rt t) cands
  pub within : All (λ c. Q (home rt c)) cands
  pub distinct : Distinct (keys cands)

pub Distinct-append :
    (xs ys : List Contact)
    → Distinct (keys xs)
    → Distinct (keys ys)
    → All (λ x. All (λ k. key x ≢ k) (keys ys)) xs
    → Distinct (keys (xs ++ ys))
Distinct-append [] ys dx dy h = dy
Distinct-append (x ∷ xs) ys dx dy h =
    (keys_append (λ k. key x ≢ k) xs ys dx.0 h.0, Distinct-append xs ys dx.1 dy h.1)
  where
    keys_append :
        (P : KademliaId → Type 0) (as' bs : List Contact)
        → All P (keys as')
        → All P (keys bs)
        → All P (keys (as' ++ bs))
    keys_append P as' bs =
        elim as' as (λ l. All P (keys l) → All P (keys bs) → All P (keys (l ++ bs))) [
          | [] ↦ λ ha hb. hb
          | a ∷ (l → ih) ↦ λ ha hb. (ha.0, ih ha.1 hb)
        ]

pub All-grow :
    (rt : RoutingTable) (Q Q' : ℕ → Type 0)
    → ((i : ℕ) → Q i → Q' i)
    → (xs : List Contact) → All (λ c. Q (home rt c)) xs
    → All (λ c. Q' (home rt c)) xs
All-grow rt Q Q' grow [] h = tt
All-grow rt Q Q' grow (x ∷ xs) h = (grow (home rt x) h.0, All-grow rt Q Q' grow xs h.1)

module _ (rt : RoutingTable) (t : KademliaId) (j : ℕ) where
  -- A contact of another bucket has another identifier.
  pub apart :
      (x : Contact) (ys : Bucket.Bucket)
      → home rt x ≢ j
      → All (λ c. home rt c ≡ j) ys
      → All (λ k. key x ≢ k) (keys (map (measured t) ys))
  apart x [] ne h = tt
  apart x (y ∷ ys) ne h = (
    (λ e. ne (ap (λ k. index_of_distance (Id.calc_distance k (key rt.me))) e ∙ h.0)),
    apart x ys ne h.1,
  )

  pub keys-measured : (ys : Bucket.Bucket) → keys (map (measured t) ys) ≡ keys ys
  keys-measured [] = refl
  keys-measured (y ∷ ys) = ap (◌∷◌ (key y)) (keys-measured ys)

  module _ (Q Q' : ℕ → Type 0) (grow : (i : ℕ) → Q i → Q' i) (at_j : Q' j) (new : ¬ Q j) where
    pub All-apart :
        (xs : List Contact)
        → Valid.IsValid rt
        → All (λ c. Q (home rt c)) xs
        → All (λ x. All (λ k. key x ≢ k) (keys (map (measured t) (rt.buckets j)))) xs
    All-apart [] h w = tt
    All-apart (x ∷ xs) h w =
        (apart x (rt.buckets j) (λ e. new (subst Q e w.0)) (h.placed j), All-apart xs h w.1)

    pub All-at_j :
        (ys : Bucket.Bucket)
        → All (λ c. home rt c ≡ j) ys
        → All (λ c. Q' (home rt c)) (map (measured t) ys)
    All-at_j [] h = tt
    All-at_j (y ∷ ys) h = (rw h.0 at_j, All-at_j ys h.1)

    pub IsCollected-append :
        (xs : List Contact)
        → Valid.IsValid rt
        → IsCollected rt t Q xs
        → IsCollected rt t Q' (xs ++ map (measured t) (rt.buckets j))
    IsCollected-append xs h w = record {
      listed =
          All-append (IsListed rt t) xs (map (measured t) (rt.buckets j)) w.listed (
            bucket-IsListed rt t j (rt.buckets j) (λ c m. m) (h.buckets_valid j).known
              (h.placed j));
      within =
          All-append (λ c. Q' (home rt c)) xs (map (measured t) (rt.buckets j))
            (All-grow rt Q Q' grow xs w.within) (All-at_j (rt.buckets j) (h.placed j));
      distinct =
          Distinct-append xs (map (measured t) (rt.buckets j)) w.distinct
            (rw (keys-measured (rt.buckets j)) (h.buckets_valid j).distinct)
            (All-apart xs h w.within);
    }
