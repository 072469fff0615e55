-- ===== src/Kademlia/Lookup/Valid.antt =====
-- The answers that a lookup receives (kademlia/kademlia.go) keep its routing table and its shortlist
-- valid, and a probed contact is not asked again.
use d7024e_lab.Kademlia.RoutingTable
use d7024e_lab.Kademlia.Shortlist
use d7024e_lab.Kademlia.Shortlist.Kept
use d7024e_lab.Kademlia.RoutingTable.Valid
use d7024e_lab.Kademlia.Id
use d7024e_lab.Kademlia.Contact
use d7024e_lab.Prelude.{
  All, Bool, Bool-cases, In, List, Option, Option-cases, Panics, [], false, inl, inr, none, refl,
  some, some-injective, subst, sym, true, ℕ, ◌==◌, ◌>>=◌, ◌||◌, ◌∙◌, ◌∷◌, ◌≡◌,
}
use d7024e_lab.Kademlia.Bucket.Kept.{All-touch}
use d7024e_lab.Kademlia.Contact.{Contact, IsKnown, IsTyped, key}
use d7024e_lab.Kademlia.Id.{IsId, KademliaId}
use d7024e_lab.Kademlia.Lookup.{Search, add_found, is_skipped}
use d7024e_lab.Kademlia.RoutingTable.{RoutingTable}
use d7024e_lab.Kademlia.RoutingTable.Valid.{after_add, home}
use d7024e_lab.Kademlia.Shortlist.{
  Candidate, CandidateStatus, Shortlist, add_one, is_own, is_unqueried, put_candidate, set_status,
  unqueried,
}
use d7024e_lab.Kademlia.Shortlist.Kept.{All-insert, add-IsValid}
use d7024e_lab.Kademlia.Shortlist.Marks.{lookup-set_status}
use d7024e_lab.Prelude.Bytes.{Bytes, bytes_eq}
use d7024e_lab.Prelude.Bytes.Dict.{Dict, has, insert, lookup}

-- Nothing was recorded under the key, or a candidate that was not asked.
unfoldable pub is_open : Bytes → Dict Candidate → Bool
is_open k m = elim (lookup k m) [ none ↦ true | some c ↦ is_unqueried c.status ]

-- No key that was asked opens again.
unfoldable pub Closes : Shortlist.Shortlist → Shortlist.Shortlist → Type 0
Closes s s' = (k : Bytes) → is_open k s.candidates ≡ false → is_open k s'.candidates ≡ false

Closes-refl : (s : Shortlist.Shortlist) → Closes s s
unfolding Closes
Closes-refl s = λ k h. h

Closes-trans : (a b c : Shortlist.Shortlist) → Closes a b → Closes b c → Closes a c
unfolding Closes
Closes-trans a b c f g = λ k h. g k (f k h)

Keeps-Closes : (s s' : Shortlist.Shortlist) → Kept.Keeps s s' → Closes s s'
unfolding Kept.Keeps Closes is_open
Keeps-Closes s s' h = λ k o. elim (Option-cases (lookup k s.candidates)) [
  | inl e ↦ let p : true ≡ false = rw (is_open, e) at o in cc
  | inr (c, e) ↦
      rw (is_open, h.1 k c e) (let p : is_unqueried c.status ≡ false = rw (is_open, e) at o in p)
]

module _ (st : CandidateStatus) (asked : is_unqueried st ≡ false) where
  pub mark-Closes :
      (s : Shortlist.Shortlist) (id : Option KademliaId) → Closes s (Shortlist.mark st s id)
  unfolding Closes is_open Shortlist.mark
  mark-Closes s none = λ k h. h
  mark-Closes s (some id) = λ k h. elim (Bool-cases (bytes_eq (Id.string id) k)) [
    | inl e ↦ elim (Option-cases (lookup k s.candidates)) [
      | inl n ↦ let p : true ≡ false = rw (is_open, n) at h in cc
      | inr (c, n) ↦ rw (is_open, lookup-set_status st (Id.string id) k s.candidates, e, n) asked
    ]
    | inr e ↦ rw (is_open, lookup-set_status st (Id.string id) k s.candidates, e) h
  ]

-- The contact's identifier, in hex, is one of `names`.
pub record IsNamed (names : List Bytes) (c : Contact.Contact) : Type 0 where
  pub typed : IsTyped c
  pub named : (k : KademliaId) → c.id ≡ some k → In (Id.string k) names

-- Every contact of the table is one of the named nodes.
unfoldable pub Covers : List Bytes → RoutingTable.RoutingTable → Type 0
Covers names table = (i : ℕ) → All (IsNamed names) (table.buckets i)

-- A known contact of the network.
pub record IsPeer (names : List Bytes) (c : Contact.Contact) : Type 0 where
  pub known : IsKnown c
  pub named : In (Id.string (key c)) names

IsPeer-IsNamed : (names : List Bytes) (c : Contact.Contact) → IsPeer names c → IsNamed names c
IsPeer-IsNamed names c h = record {
  typed = record {
    id_typed = λ k e. subst IsId (some-injective (sym h.known.has_id ∙ e)) h.known.key_id;
  };
  named =
      λ k e. subst (λ x. In (Id.string x) names) (some-injective (sym h.known.has_id ∙ e)) h.named;
}

-- Recording a contact of the network leaves none but such contacts in the table.
pub after_add-Covers :
    (names : List Bytes) (table : RoutingTable.RoutingTable) (c : Contact.Contact)
    → Covers names table
    → IsPeer names c
    → Covers names (after_add table c)
unfolding Covers after_add
after_add-Covers names table c h pc = λ i. elim (Bool-cases (home table c == i)) [
  | inl e ↦ rw e (
      All-touch (IsNamed names) c (table.buckets (home table c)) (IsPeer-IsNamed names c pc)
        (h (home table c)))
  | inr e ↦ rw e (h i)
]

-- The state of a lookup for `t` in a network with the identifiers `names`.
pub record IsValid (names : List Bytes) (t : KademliaId) (q : Search) : Type 0 where
  pub table_valid : Valid.IsValid q.table
  pub shortlist_valid : Kept.IsValid t q.shortlist
  pub all_named : All (λ e. In e.0 names) q.shortlist.candidates
  pub covered : Covers names q.table

All-set_status_key :
    (P : Bytes → Type 0) (st : CandidateStatus) (k : Bytes) (m : Dict Candidate)
    → All (λ e. P e.0) m
    → All (λ e. P e.0) (set_status st k m)
unfolding set_status
All-set_status_key P st k [] h = tt
All-set_status_key P st k ((j, c) ∷ m) h = elim (Bool-cases (bytes_eq j k)) [
  | inl e ↦ rw e h
  | inr e ↦ rw e (h.0, All-set_status_key P st k m h.1)
]

pub mark-named :
    (P : Bytes → Type 0) (st : CandidateStatus) (s : Shortlist.Shortlist) (id : Option KademliaId)
    → All (λ e. P e.0) s.candidates
    → All (λ e. P e.0) (Shortlist.mark st s id).candidates
unfolding Shortlist.mark
mark-named P st s none h = h
mark-named P st s (some id) h = All-set_status_key P st (Id.string id) s.candidates h

put-named :
    (P : Bytes → Type 0) (s s' : Shortlist.Shortlist) (k : Bytes) (c : Contact.Contact)
    → P k
    → All (λ e. P e.0) s.candidates
    → put_candidate s k c ≡ some s'
    → All (λ e. P e.0) s'.candidates
unfolding put_candidate
put-named P s s' k c n h p = elim (Option-cases (Contact.calc_distance c s.target)) [
  | inl e ↦
      let q : Path (Option Shortlist.Shortlist) none (some s') = rw (put_candidate, e) at p in cc
  | inr (d, e) ↦
      let r = record s {
        candidates = insert k (record { contact = d; status = unqueried }) s.candidates;
      } in
      let q : Path (Option Shortlist.Shortlist) (some r) (some s') = rw (put_candidate, e) at p in
      let o : r ≡ s' = cc in
      subst (λ x. All (λ e. P e.0) x.candidates) o (All-insert (λ e. P e.0) k _ s.candidates n h)
]

pub add_one-named :
    (P : Bytes → Type 0) (s s' : Shortlist.Shortlist) (c : Contact.Contact)
    → ((k : KademliaId) → c.id ≡ some k → P (Id.string k))
    → All (λ e. P e.0) s.candidates
    → add_one s c ≡ some s'
    → All (λ e. P e.0) s'.candidates
unfolding add_one
add_one-named P s s' c n h p = elim (Option-cases c.id) [
  | inl e ↦
      let q : Path (Option Shortlist.Shortlist) (some s) (some s') = rw (add_one, e) at p in
      let o : s ≡ s' = cc in subst (λ x. All (λ e. P e.0) x.candidates) o h
  | inr (k, e) ↦ elim (Bool-cases (is_own s.me_id k || has (Id.string k) s.candidates)) [
    | inl b ↦
        let q : Path (Option Shortlist.Shortlist) (some s) (some s') = rw (add_one, e, b) at p in
        let o : s ≡ s' = cc in subst (λ x. All (λ e. P e.0) x.candidates) o h
    | inr b ↦
        let q : put_candidate s (Id.string k) c ≡ some s' = rw (add_one, e, b) at p in
        put-named P s s' (Id.string k) c (n k e) h q
  ]
]

single :
    (r : Panics Shortlist.Shortlist) (s' : Shortlist.Shortlist)
    → (r >>= λ x. some x) ≡ some s'
    → r ≡ some s'
single none s' p = p
single (some x) s' p = p

-- One contact of an answer.
add-found_one :
    (names : List Bytes) (t : KademliaId) (s : Shortlist.Shortlist) (c : Contact.Contact)
    → Kept.IsValid t s
    → All (λ e. In e.0 names) s.candidates
    → IsNamed names c
    → (s' : Shortlist.Shortlist) × (Shortlist.add s (c ∷ []) ≡ some s')
      × Kept.IsValid t s'
      × All (λ e. In e.0 names) s'.candidates
      × Closes s s'
unfolding Shortlist.add
add-found_one names t s c h a n =
    let (s', p, v, k) = add-IsValid t s (c ∷ []) h (n.typed, tt) in
    let q : add_one s c ≡ some s' = single (add_one s c) s' p in
    (s', p, v, add_one-named (λ k. In k names) s s' c n.named a q, Keeps-Closes s s' k)

pub add_found-Closes :
    (names : List Bytes) (t : KademliaId) (me_id : Option KademliaId) (s : Shortlist.Shortlist)
    (found : List Contact.Contact)
    → Kept.IsValid t s
    → All (λ e. In e.0 names) s.candidates
    → All (IsNamed names) found
    → (s' : Shortlist.Shortlist) × (add_found me_id s found ≡ some s')
      × Kept.IsValid t s'
      × All (λ e. In e.0 names) s'.candidates
      × Closes s s'
unfolding add_found
add_found-Closes names t me_id s [] h a n = (s, refl, h, a, Closes-refl s)
add_found-Closes names t me_id s (c ∷ cs) h a n = elim (Bool-cases (is_skipped me_id c.id)) [
  | inl e ↦
      let (s', p, v, a', k) = add_found-Closes names t me_id s cs h a n.1 in
      (s', rw (add_found, e) p, v, a', k)
  | inr e ↦
      let (s₁, p, v, a₁, k) = add-found_one names t s c h a n.0 in
      let (s₂, p', v', a₂, k') = add_found-Closes names t me_id s₁ cs v a₁ n.1 in
      (s₂, rw (add_found, e, p) p', v', a₂, Closes-trans s s₁ s₂ k k')
]
