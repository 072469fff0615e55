-- ===== src/Kademlia/Shortlist/Kept.antt =====
-- The invariant of a shortlist (kademlia/shortlist.go) and that adding contacts keeps it.
use d7024e_lab.Kademlia.Id
use d7024e_lab.Kademlia.Contact
use d7024e_lab.Prelude.{
  All, Bool-cases, List, Option, [], arith, false, inl, inr, map, refl, some, subst, sym, true,
  ◌||◌, ◌∙◌, ◌∷◌, ◌≡◌, ◌≢◌,
}
use d7024e_lab.Kademlia.Bucket.Recency.{Distinct}
use d7024e_lab.Kademlia.Contact.{Contact, IsKnown, IsTyped, IsTyped-cases, key}
use d7024e_lab.Kademlia.Id.{IsId, KademliaId}
use d7024e_lab.Kademlia.Shortlist.{
  Candidate, Shortlist, add, add_one, is_own, new_shortlist, put_candidate, unqueried,
}
use d7024e_lab.Prelude.Bytes.{Bytes, bytes_eq, bytes_eq_iff}
use d7024e_lab.Prelude.Bytes.Dict.{Dict, has, has-lookup, insert, lookup, lookup-insert}

-- A candidate is under the hex form of its identifier, with its distance to the target, and is not
-- the local node.
pub record IsHeld (t : KademliaId) (me_id : Option KademliaId) (e : Bytes × Candidate)
    : Type 0 where
  pub known : IsKnown e.1.contact
  pub named : e.0 ≡ Id.string (key e.1.contact)
  pub measured : e.1.contact.distance ≡ some (Id.calc_distance (key e.1.contact) t)
  pub not_own : is_own me_id (key e.1.contact) ≡ false

pub record IsValid (t : KademliaId) (s : Shortlist) : Type 0 where
  pub has_target : s.target ≡ some t
  pub target_id : IsId t
  pub held : All (IsHeld t s.me_id) s.candidates
  pub distinct : Distinct (map (λ e. e.0) s.candidates)

pub All-insert :
    (P : Bytes × Candidate → Type 0) (k : Bytes) (v : Candidate) (m : Dict Candidate)
    → P (k, v)
    → All P m
    → All P (insert k v m)
unfolding insert
All-insert P k v [] p h = (p, tt)
All-insert P k v ((j, w) ∷ m) p h = elim (Bool-cases (bytes_eq j k)) [
  | inl e ↦ rw e (subst (λ x. P (x, v)) (sym ((bytes_eq_iff j k).0 e)) p, h.1)
  | inr e ↦ rw e (h.0, All-insert P k v m p h.1)
]

apart-insert :
    (i k : Bytes) (v : Candidate) (m : Dict Candidate)
    → i ≢ k
    → All (λ j. i ≢ j) (map (λ e. e.0) m)
    → All (λ j. i ≢ j) (map (λ e. e.0) (insert k v m))
unfolding insert
apart-insert i k v [] ne h = (ne, tt)
apart-insert i k v ((j, w) ∷ m) ne h = elim (Bool-cases (bytes_eq j k)) [
  | inl e ↦ rw e h
  | inr e ↦ rw e (h.0, apart-insert i k v m ne h.1)
]

Distinct-insert :
    (k : Bytes) (v : Candidate) (m : Dict Candidate)
    → Distinct (map (λ e. e.0) m)
    → Distinct (map (λ e. e.0) (insert k v m))
unfolding insert
Distinct-insert k v [] d = (tt, tt)
Distinct-insert k v ((j, w) ∷ m) d = elim (Bool-cases (bytes_eq j k)) [
  | inl e ↦ rw e d
  | inr e ↦ rw e (
    apart-insert j k v m (λ p. let t : bytes_eq j k ≡ true = (bytes_eq_iff j k).1 p in cc) d.0,
    Distinct-insert k v m d.1,
  )
]

-- The statuses that were recorded stay.
unfoldable pub Keeps : Shortlist → Shortlist → Type 0
Keeps s s' =
    (s'.me_id ≡ s.me_id)
    × ((k : Bytes) (c : Candidate)
        → lookup k s.candidates ≡ some c
        → lookup k s'.candidates ≡ some c)

keeps_others :
    (j : Bytes) (v : Candidate) (m : Dict Candidate)
    → has j m ≡ false
    → (k : Bytes) (c : Candidate) → lookup k m ≡ some c
    → lookup k (insert j v m) ≡ some c
keeps_others j v m new k c l = elim (Bool-cases (bytes_eq j k)) [
  | inl e ↦
      let t : has k m ≡ true = has-lookup k c m l in
      let f : has k m ≡ false = subst (λ x. has x m ≡ false) ((bytes_eq_iff j k).0 e) new in
      absurd (let q : true ≡ false = sym t ∙ f in cc)
  | inr e ↦ rw (lookup-insert j k v m, e) l
]

Keeps-trans : (a b c : Shortlist) → Keeps a b → Keeps b c → Keeps a c
unfolding Keeps
Keeps-trans a b c (m, f) (m', f') = (m' ∙ m, λ k d l. f' k d (f k d l))

-- The contact with its distance to `t`.
abbrev measure : KademliaId → Contact.Contact → Contact.Contact
measure t c = record c { distance = some (Id.calc_distance (key c) t) }

add_new :
    (t : KademliaId) (s : Shortlist) (c : Contact.Contact)
    → IsValid t s
    → IsKnown c
    → is_own s.me_id (key c) ≡ false
    → has (Id.string (key c)) s.candidates ≡ false
    → (s' : Shortlist) × (put_candidate s (Id.string (key c)) c ≡ some s')
      × IsValid t s'
      × Keeps s s'
unfolding put_candidate Keeps Contact.calc_distance
add_new t s c h hc own new = (
  record s {
    candidates =
        insert (Id.string (key c)) (record { contact = measure t c; status = unqueried })
          s.candidates;
  },
  ground (arith, hc.has_id, h.has_target),
  record {
    has_target = h.has_target;
    target_id = h.target_id;
    held =
        All-insert (IsHeld t s.me_id) _ _ s.candidates
          (record {
            known = record { has_id = hc.has_id; key_id = hc.key_id };
            named = refl;
            measured = refl;
            not_own = own;
          })
          h.held;
    distinct = Distinct-insert _ _ s.candidates h.distinct;
  },
  (refl, keeps_others (Id.string (key c)) _ s.candidates new),
)

add_one-IsValid :
    (t : KademliaId) (s : Shortlist) (c : Contact.Contact)
    → IsValid t s
    → IsTyped c
    → (s' : Shortlist) × (add_one s c ≡ some s') × IsValid t s' × Keeps s s'
unfolding add_one Keeps
add_one-IsValid t s c h ty = elim (IsTyped-cases c ty) [
  | inl e ↦ (s, rw (add_one, e) refl, h, (refl, λ k d l. l))
  | inr hc ↦ elim (Bool-cases (is_own s.me_id (key c) || has (Id.string (key c)) s.candidates)) [
    | inl e ↦ (s, ground (arith, hc.has_id, e), h, (refl, λ k d l. l))
    | inr e ↦
        let (s', p, v, k) = add_new t s c h hc (ground arith) (ground arith) in
        (s', ground (arith, hc.has_id, e, p), v, k)
  ]
]

-- `Add` on a shortlist with a target never panics and keeps it valid: each candidate is under the
-- hex form of its identifier with its distance to the target, none twice, and none is the local
-- node; what was recorded of a candidate before stays.
pub add-IsValid :
    (t : KademliaId) (s : Shortlist) (cs : List Contact.Contact)
    → IsValid t s
    → All IsTyped cs
    → (s' : Shortlist) × (add s cs ≡ some s') × IsValid t s' × Keeps s s'
unfolding add Keeps
add-IsValid t s [] h ty = (s, refl, h, (refl, λ k d l. l))
add-IsValid t s (c ∷ cs) h ty =
    let (s₁, p, v, k) = add_one-IsValid t s c h ty.0 in
    let (s₂, p', v', k') = add-IsValid t s₁ cs v ty.1 in
    (s₂, ground (arith, p, p'), v', Keeps-trans s s₁ s₂ k k')

pub new_shortlist-IsValid :
    (t : KademliaId) (me_id : Option KademliaId) → IsId t → IsValid t (new_shortlist (some t) me_id)
unfolding new_shortlist
new_shortlist-IsValid t me_id h = record {
  has_target = refl;
  target_id = h;
  held = tt;
  distinct = tt;
}
