-- ===== src/Kademlia/Bucket/Kept.antt =====
-- The operations of kademlia/bucket.go keep a bucket valid.
use d7024e_lab.Kademlia.Bucket.Recency
use d7024e_lab.Prelude.{
  All, Bool, Bool-cases, Option, Option-cases, [], arith, false, inl, inr, length, ltb, none, refl,
  some, subst, true, ◌∷◌, ◌≡◌, ◌≢◌,
}
use d7024e_lab.Kademlia.Bucket.{
  Bucket, add_contact, bucket_size, matches, remove_contact, remove_first,
}
use d7024e_lab.Kademlia.Bucket.Recency.{
  Distinct, absent, add_contact-touch, equals_known, keys, length-without-le, not_stored_absent,
  stored, stored_facts, touch, without, without-absent, without-Distinct, without-IsKnown,
}
use d7024e_lab.Kademlia.Contact.{Contact, IsKnown, key}
use d7024e_lab.Kademlia.Id.{IsId, KademliaId}
use d7024e_lab.Prelude.Bytes.{Bytes-cases, bytes_eq, bytes_eq_iff}

-- `AddContact` keeps a bucket valid: at most ten contacts, each known, none twice.
pub touch-IsValid :
    (contact : Contact) (b : Bucket)
    → IsKnown contact
    → Recency.IsValid b
    → Recency.IsValid (touch contact b).0
unfolding touch
touch-IsValid contact b hc hb = elim (Option-cases (stored (key contact) b)) [
  | inl e ↦
      rw (e, touch)
        (elim (Bool-cases (ltb (length b) bucket_size)) [
          | inl room ↦ rw room (record {
            bounded = ground arith;
            known = (hc, hb.known);
            distinct = (not_stored_absent (key contact) b e, hb.distinct);
          })
          | inr full ↦ rw full hb
        ])
  | inr (old, e) ↦
      let (known, at_key, room) = stored_facts (key contact) b old hb.known e in
      rw (e, touch)
        (record {
          bounded = omega (arith, hb.bounded);
          known = (known, without-IsKnown (key contact) b hb.known);
          distinct = (
            rw at_key (without-absent (key contact) b),
            without-Distinct (key contact) b hb.distinct,
          );
        })
]

abbrev pub is_some {ℓ} : {A : Type ℓ} → Option A → Bool
is_some none = false
is_some (some a) = true

remove_first-without :
    (k : KademliaId) (b : Bucket)
    → IsId k
    → All IsKnown b
    → Distinct (keys b)
    → remove_first k b ≡ (without k b, is_some (stored k b))
unfolding remove_first without stored matches
remove_first-without k [] hk h d = refl
remove_first-without k (c ∷ cs) hk h d = rw h.0.has_id (elim (Bytes-cases (key c) k) [
  | inl e ↦ ground (
    arith,
    equals_known k c hk h.0,
    bytes_eq_iff (key c) k,
    (absent k cs (subst (λ i. All (λ j. i ≢ j) (keys cs)) e d.0)).1,
  )
  | inr ne ↦
      ground (
        arith,
        equals_known k c hk h.0,
        bytes_eq_iff (key c) k,
        remove_first-without k cs hk h.1 d.1,
      )
])

-- `RemoveContact` takes out the contact with that identifier, says whether there was one, and
-- leaves the others in their order.
pub remove_contact-without :
    (contact : Contact) (b : Bucket)
    → IsKnown contact
    → Recency.IsValid b
    → remove_contact contact b ≡ (without (key contact) b, is_some (stored (key contact) b))
unfolding remove_contact
remove_contact-without contact b hc hb =
    ground (arith, hc.has_id, remove_first-without (key contact) b hc.key_id hb.known hb.distinct)

pub without-IsValid :
    (k : KademliaId) (b : Bucket) → Recency.IsValid b → Recency.IsValid (without k b)
without-IsValid k b h = record {
  bounded = omega (arith, h.bounded, length-without-le k b);
  known = without-IsKnown k b h.known;
  distinct = without-Distinct k b h.distinct;
}

-- A bucket that rejects a contact is full, lacks its identifier, and stays as it is.
pub add_contact_rejects :
    (contact : Contact) (b : Bucket) (b' : Bucket)
    → IsKnown contact
    → Recency.IsValid b
    → add_contact contact b ≡ some (b', false)
    → (length b ≡ bucket_size) × (stored (key contact) b ≡ none) × (b' ≡ b)
unfolding touch
add_contact_rejects contact b b' hc hb e =
    ground (arith, add_contact-touch contact b hc hb, hb.bounded)

-- What holds of every contact of a bucket holds of the one stored, and of those that stay.
module _ (P : Contact → Type 0) where
  All-stored : (k : KademliaId) (b : Bucket) (c : Contact) → All P b → stored k b ≡ some c → P c
  unfolding stored
  All-stored k [] c h e = cc
  All-stored k (d ∷ ds) c h e = elim (Bool-cases (bytes_eq (key d) k)) [
    | inl found ↦ subst P (let e' : d ≡ c = ground arith in e') h.0
    | inr ne ↦ All-stored k ds c h.1 (ground arith)
  ]

  pub All-without : (k : KademliaId) (b : Bucket) → All P b → All P (without k b)
  unfolding without
  All-without k [] h = tt
  All-without k (d ∷ ds) h = elim (Bool-cases (bytes_eq (key d) k)) [
    | inl e ↦ rw e (All-without k ds h.1)
    | inr e ↦ rw e (h.0, All-without k ds h.1)
  ]

  pub All-touch : (c : Contact) (b : Bucket) → P c → All P b → All P (touch c b).0
  unfolding touch
  All-touch c b hc hb = elim (Option-cases (stored (key c) b)) [
    | inl e ↦
        rw (e, touch)
          (elim (Bool-cases (ltb (length b) bucket_size)) [
            | inl room ↦ rw room (hc, hb)
            | inr full ↦ rw full hb
          ])
    | inr (old, e) ↦ rw (e, touch) (All-stored (key c) b old hb e, All-without (key c) b hb)
  ]
