-- ===== src/Kademlia/Bucket/Recency.antt =====
-- `AddContact` and `RemoveContact` of kademlia/bucket.go against a list ordered by recency.
use d7024e_lab.Prelude.{
  All, Bool, Bool-cases, List, Option, [], ap, arith, false, get_elem?, if◌then◌else◌, inl, inr,
  length, ltb, map, none, refl, some, subst, suc, sym, true, ℕ, ◌<◌, ◌>>=◌, ◌∙◌, ◌∷◌, ◌≡◌, ◌≢◌, ◌≤◌,
  ◌⊎◌,
}
use d7024e_lab.Kademlia.Bucket.{
  Bucket, add_contact, bucket_size, find_element, later, place, remove_at,
}
use d7024e_lab.Kademlia.Contact.{Contact, IsKnown, key}
use d7024e_lab.Kademlia.Id.{IsId, KademliaId, equals}
use d7024e_lab.Kademlia.Id.Order.{equals_iff}
use d7024e_lab.Prelude.Bytes.{Bytes-cases, bytes_eq, bytes_eq_iff}

abbrev pub keys : Bucket → List KademliaId
keys = map key

-- No identifier twice.
abbrev pub Distinct : List KademliaId → Type 0
Distinct [] = Unit
Distinct (k ∷ ks) = All (λ j. k ≢ j) ks × Distinct ks

-- At most `bucketSize` contacts, each with an identifier, none twice.
pub record IsValid (b : Bucket) : Type 0 where
  pub bounded : length b ≤ bucket_size
  pub known : All IsKnown b
  pub distinct : Distinct (keys b)

-- The contact that the list holds under an identifier.
unfoldable pub stored : KademliaId → Bucket → Option Contact
stored k [] = none
stored k (c ∷ cs) = if bytes_eq (key c) k then some c else stored k cs

-- The list with that identifier left out.
unfoldable pub without : KademliaId → Bucket → Bucket
without k [] = []
without k (c ∷ cs) = let rest = without k cs in if bytes_eq (key c) k then rest else c ∷ rest

pub absent :
    (k : KademliaId) (b : Bucket)
    → All (λ j. k ≢ j) (keys b)
    → (stored k b ≡ none) × (without k b ≡ b)
unfolding stored without
absent k [] h = (refl, refl)
absent k (c ∷ cs) h = ground (arith, absent k cs h.1, bytes_eq_iff (key c) k)

pub record Missing (k : KademliaId) (b : Bucket) : Type 0 where
  pub not_stored : stored k b ≡ none
  pub same : without k b ≡ b
  pub not_found : find_element (some k) b ≡ some none

pub record Found (k : KademliaId) (b : Bucket) : Type 0 where
  pub contact : Contact
  pub index : ℕ
  pub is_stored : stored k b ≡ some contact
  pub found : find_element (some k) b ≡ some (some index)
  pub at_index : get_elem? b index ≡ some contact
  pub others : remove_at index b ≡ without k b

pub equals_known :
    (k : KademliaId) (c : Contact) → IsId k → IsKnown c → equals k (key c) ≡ bytes_eq (key c) k
equals_known k c hk h = ground (arith, equals_iff k (key c) hk h.key_id, bytes_eq_iff (key c) k)

module _ (k : KademliaId) (c : Contact) (cs : Bucket) (hk : IsId k) (h : IsKnown c) where
  find_here : key c ≡ k → All (λ j. key c ≢ j) (keys cs) → Missing k cs → Found k (c ∷ cs)
  unfolding stored without find_element remove_at later
  find_here e d m = record {
    contact = c;
    index = 0;
    is_stored = ground (arith, bytes_eq_iff (key c) k);
    found =
        rw h.has_id (ground (arith, equals_known k c hk h, bytes_eq_iff (key c) k, m.not_found));
    at_index = refl;
    others = ground (arith, bytes_eq_iff (key c) k, m.same);
  }

  find_further : key c ≢ k → Found k cs → Found k (c ∷ cs)
  unfolding stored without find_element remove_at later
  find_further ne f = record {
    contact = f.contact;
    index = suc f.index;
    is_stored = ground (arith, bytes_eq_iff (key c) k, f.is_stored);
    found = rw h.has_id (ground (arith, equals_known k c hk h, bytes_eq_iff (key c) k, f.found));
    at_index = f.at_index;
    others = ground (arith, bytes_eq_iff (key c) k, f.others);
  }

  find_nowhere : key c ≢ k → Missing k cs → Missing k (c ∷ cs)
  unfolding stored without find_element remove_at later
  find_nowhere ne m = record {
    not_stored = ground (arith, bytes_eq_iff (key c) k, m.not_stored);
    same = ground (arith, bytes_eq_iff (key c) k, m.same);
    not_found =
        rw h.has_id (ground (arith, equals_known k c hk h, bytes_eq_iff (key c) k, m.not_found));
  }

join :
    (k : KademliaId) (c : Contact) (cs : Bucket)
    → IsId k
    → IsKnown c
    → All (λ j. key c ≢ j) (keys cs)
    → (key c ≡ k) ⊎ (key c ≢ k)
    → Missing k cs ⊎ Found k cs
    → Missing k (c ∷ cs) ⊎ Found k (c ∷ cs)
join k c cs hk h d (inl e) (inl m) = inr (find_here k c cs hk h e d m)
join k c cs hk h d (inl e) (inr f) =
    absurd
      (ground (arith, f.is_stored, (absent k cs (subst (λ i. All (λ j. i ≢ j) (keys cs)) e d)).0))
join k c cs hk h d (inr ne) (inl m) = inl (find_nowhere k c cs hk h ne m)
join k c cs hk h d (inr ne) (inr f) = inr (find_further k c cs hk h ne f)

find :
    (k : KademliaId) (b : Bucket)
    → IsId k
    → All IsKnown b
    → Distinct (keys b)
    → Missing k b ⊎ Found k b
unfolding stored without find_element
find k [] hk h d = inl (record { not_stored = refl; same = refl; not_found = refl })
find k (c ∷ cs) hk h d = join k c cs hk h.0 d.0 (Bytes-cases (key c) k) (find k cs hk h.1 d.1)

-- What `AddContact` should do: a known identifier moves to the front with the contact that was
-- stored; a new one goes to the front if there is room; else nothing changes.
unfoldable pub touch : Contact → Bucket → Bucket × Bool
touch contact b = elim (stored (key contact) b) [
  | some old ↦ (old ∷ without (key contact) b, true)
  | none ↦ if ltb (length b) bucket_size then (contact ∷ b, true) else (b, false)
]

-- On a valid bucket `AddContact` never panics, and it does what the list ordered by recency says.
pub add_contact-touch :
    (contact : Contact) (b : Bucket)
    → IsKnown contact
    → IsValid b
    → add_contact contact b ≡ some (touch contact b)
unfolding add_contact touch
add_contact-touch contact b hc hb =
    ap (λ id. find_element id b >>= λ element. some (place contact b element)) hc.has_id
    ∙ split (find (key contact) b hc.key_id hb.known hb.distinct)
  where
    split :
        Missing (key contact) b ⊎ Found (key contact) b
        → (find_element (some (key contact)) b >>= λ element. some (place contact b element))
          ≡ some (touch contact b)
    split (inl m) = ground (arith, m.not_found, m.not_stored)
    split (inr f) = ground (arith, f.found, f.is_stored, f.at_index, f.others)

keys-without-All :
    (k : KademliaId) (P : KademliaId → Type 0) (b : Bucket)
    → All P (keys b)
    → All P (keys (without k b))
unfolding without
keys-without-All k P [] h = tt
keys-without-All k P (c ∷ cs) h = elim (Bool-cases (bytes_eq (key c) k)) [
  | inl e ↦ rw e (keys-without-All k P cs h.1)
  | inr e ↦ rw e (h.0, keys-without-All k P cs h.1)
]

pub without-IsKnown : (k : KademliaId) (b : Bucket) → All IsKnown b → All IsKnown (without k b)
unfolding without
without-IsKnown k [] h = tt
without-IsKnown k (c ∷ cs) h = elim (Bool-cases (bytes_eq (key c) k)) [
  | inl e ↦ rw e (without-IsKnown k cs h.1)
  | inr e ↦ rw e (h.0, without-IsKnown k cs h.1)
]

pub without-Distinct :
    (k : KademliaId) (b : Bucket) → Distinct (keys b) → Distinct (keys (without k b))
unfolding without
without-Distinct k [] h = tt
without-Distinct k (c ∷ cs) h = elim (Bool-cases (bytes_eq (key c) k)) [
  | inl e ↦ rw e (without-Distinct k cs h.1)
  | inr e ↦ rw e (keys-without-All k (λ j. key c ≢ j) cs h.0, without-Distinct k cs h.1)
]

pub without-absent : (k : KademliaId) (b : Bucket) → All (λ j. k ≢ j) (keys (without k b))
unfolding without
without-absent k [] = tt
without-absent k (c ∷ cs) = elim (Bool-cases (bytes_eq (key c) k)) [
  | inl e ↦ rw e (without-absent k cs)
  | inr e ↦ rw e ((λ p. cc (e, (bytes_eq_iff (key c) k).1 (sym p))), without-absent k cs)
]

pub length-without-le : (k : KademliaId) (b : Bucket) → length (without k b) ≤ length b
unfolding without
length-without-le k [] = omega arith
length-without-le k (c ∷ cs) = ground (arith, length-without-le k cs)

-- A contact that is stored under `k` has the identifier `k`, and leaves room when it is taken out.
pub stored_facts :
    (k : KademliaId) (b : Bucket) (c : Contact)
    → All IsKnown b
    → stored k b ≡ some c
    → IsKnown c × (key c ≡ k) × (length (without k b) < length b)
unfolding stored without
stored_facts k [] c h e = cc
stored_facts k (d ∷ ds) c h e = elim (Bool-cases (bytes_eq (key d) k)) [
  | inl same ↦
      let e' : d ≡ c = ground arith in
      (
        subst IsKnown e' h.0,
        rw (← e') ((bytes_eq_iff (key d) k).0 same),
        rw same (omega (arith, length-without-le k ds)),
      )
  | inr ne ↦
      let (known, at_key, room) = stored_facts k ds c h.1 (ground arith) in
      (known, at_key, rw ne (omega arith))
]

pub not_stored_absent :
    (k : KademliaId) (b : Bucket) → stored k b ≡ none → All (λ j. k ≢ j) (keys b)
unfolding stored
not_stored_absent k [] h = tt
not_stored_absent k (c ∷ cs) h = elim (Bool-cases (bytes_eq (key c) k)) [
  | inl e ↦ absurd (ground arith)
  | inr e ↦
      ((λ p. cc (e, (bytes_eq_iff (key c) k).1 (sym p))), not_stored_absent k cs (ground arith))
]
