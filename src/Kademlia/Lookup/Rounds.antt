-- ===== src/Kademlia/Lookup/Rounds.antt =====
-- The loop of a lookup (kademlia/kademlia.go) ends, after at most as many rounds as there are nodes.
use d7024e_lab.Kademlia.Shortlist
use d7024e_lab.Kademlia.Lookup.Valid
use d7024e_lab.Kademlia.Id
use d7024e_lab.Prelude.{
  All, Bool-cases, In, List, Option, [], arith, false, if◌then◌else◌, inl, inr, length, refl, some,
  subst, suc, sym, true, zero, ℕ, ◌<◌, ◌∷◌, ◌≡◌, ◌≢◌, ◌≤◌,
}
use d7024e_lab.Kademlia.Bucket.{bucket_size}
use d7024e_lab.Kademlia.Contact.{Contact, key}
use d7024e_lab.Kademlia.Id.{KademliaId}
use d7024e_lab.Kademlia.Lookup.{Network, Search, in_order, insert_at, iterate, probe}
use d7024e_lab.Kademlia.Lookup.Answers.{IsConfined, receive_all_first}
use d7024e_lab.Kademlia.Lookup.Probes.{IsProbe, get_closest_unqueried-IsProbe}
use d7024e_lab.Kademlia.Lookup.Valid.{Closes, IsPeer, is_open}
use d7024e_lab.Kademlia.Shortlist.{
  Candidate, Shortlist, get_closest_unqueried, has_unqueried_in_top_k,
}
use d7024e_lab.Kademlia.Shortlist.Top.{has_unqueried_in_top_k-get_closest_unqueried}
use d7024e_lab.Prelude.Bytes.{Bytes}
use d7024e_lab.Prelude.Bytes.Dict.{Dict}

-- How many of the keys were not asked.
unfoldable pub pending : List Bytes → Dict Candidate → ℕ
unfolding is_open
pending [] m = 0
pending (k ∷ ks) m = let rest = pending ks m in if is_open k m then suc rest else rest

pending_mono :
    (ks : List Bytes) (s s' : Shortlist.Shortlist)
    → Closes s s'
    → pending ks s'.candidates ≤ pending ks s.candidates
unfolding pending Closes
pending_mono [] s s' h = omega arith
pending_mono (k ∷ ks) s s' h = elim (Bool-cases (is_open k s.candidates)) [
  | inl e ↦ rw e (ground (arith, pending_mono ks s s' h))
  | inr e ↦ rw (e, h k e) (pending_mono ks s s' h)
]

pub pending-lt :
    (ks : List Bytes) (k : Bytes) (s s' : Shortlist.Shortlist)
    → Closes s s'
    → In k ks
    → is_open k s.candidates ≡ true
    → is_open k s'.candidates ≡ false
    → pending ks s'.candidates < pending ks s.candidates
unfolding pending Closes
pending-lt [] k s s' h i o c = absurd i.1
pending-lt (j ∷ ks) k s s' h (inl e) o c =
    let o' : is_open j s.candidates ≡ true = subst (λ x. is_open x s.candidates ≡ true) (sym e) o in
    let c' : is_open j s'.candidates ≡ false =
      subst (λ x. is_open x s'.candidates ≡ false) (sym e) c in
    rw (o', c') (omega (arith, pending_mono ks s s' h))
pending-lt (j ∷ ks) k s s' h (inr i) o c = elim (Bool-cases (is_open j s.candidates)) [
  | inl e ↦ rw e (ground (arith, pending-lt ks k s s' h i o c))
  | inr e ↦ rw (e, h j e) (pending-lt ks k s s' h i o c)
]

module _ (P : Contact → Type 0) where
  All-insert_at :
      (n : ℕ) (c : Contact) (cs : List Contact) → P c → All P cs → All P (insert_at n c cs)
  unfolding insert_at
  All-insert_at zero c cs p h = (p, h)
  All-insert_at (suc n) c [] p h = (p, tt)
  All-insert_at (suc n) c (d ∷ ds) p h = (h.0, All-insert_at n c ds p h.1)

  pub All-in_order : (pick : ℕ → ℕ) (cs : List Contact) → All P cs → All P (in_order pick cs)
  unfolding in_order
  All-in_order pick [] h = tt
  All-in_order pick (c ∷ cs) h =
      All-insert_at (pick (length cs)) c (in_order pick cs) h.0 (All-in_order pick cs h.1)

pub insert_at_first :
    (n : ℕ) (c : Contact) (cs : List Contact)
    → (d : Contact) × (ds : List Contact) × (insert_at n c cs ≡ d ∷ ds)
unfolding insert_at
insert_at_first zero c cs = (c, cs, refl)
insert_at_first (suc n) c [] = (c, [], refl)
insert_at_first (suc n) c (d ∷ ds) = (d, insert_at n c ds, refl)

first_of : (cs : List Contact) → cs ≢ [] → (d : Contact) × (ds : List Contact) × (cs ≡ d ∷ ds)
first_of [] ne = absurd (ne refl)
first_of (d ∷ ds) ne = (d, ds, refl)

pub next_probes :
    (s : Shortlist.Shortlist) (alpha : ℕ)
    → has_unqueried_in_top_k s bucket_size ≡ true
    → (d : Contact) × (ds : List Contact) × (get_closest_unqueried s (suc alpha) bucket_size
        ≡ d ∷ ds)
next_probes s alpha e =
    first_of (get_closest_unqueried s (suc alpha) bucket_size)
      ((has_unqueried_in_top_k-get_closest_unqueried s alpha bucket_size).0 e)

pub All-IsPeer :
    (names : List Bytes) (s : Shortlist.Shortlist) (cs : List Contact)
    → All (IsProbe names s) cs
    → All (IsPeer names) cs
All-IsPeer names s [] h = tt
All-IsPeer names s (c ∷ cs) h =
    (record { known = h.0.known; named = h.0.named }, All-IsPeer names s cs h.1)

module _ (names : List Bytes) (t : KademliaId) (me_id : Option KademliaId) (network : Network)
    (confined : IsConfined names network t) where
  -- A round does not panic, keeps the state valid, and asks at least one node more.
  probe-pending :
      (n : ℕ) (q : Search) (c : Contact) (cs : List Contact)
      → Valid.IsValid names t q
      → All (IsProbe names q.shortlist) (c ∷ cs)
      → (q' : Search) × (probe me_id network t n q (c ∷ cs) ≡ some q')
        × Valid.IsValid names t q'
        × (pending names q'.shortlist.candidates < pending names q.shortlist.candidates)
  unfolding probe in_order
  probe-pending n q c cs h ps =
      let pick = network.arrival n in
      let (d, ds, e) = insert_at_first (pick (length cs)) c (in_order pick cs) in
      let all : All (IsProbe names q.shortlist) (d ∷ ds) =
        subst (All (IsProbe names q.shortlist)) e
          (All-in_order (IsProbe names q.shortlist) pick (c ∷ cs) ps) in
      let (q', p, v, k, o) =
        receive_all_first names t me_id network confined n q d ds h all.0
          (All-IsPeer names q.shortlist ds all.1) in
      (
        q',
        rw (probe, e) p,
        v,
        pending-lt names (Id.string (key d)) q.shortlist q'.shortlist k all.0.named
            all.0.open_before o,
      )

  -- Where the answers and the valid shortlist name finitely many nodes only, the loop of a lookup
  -- does not panic and ends after at most as many rounds as there are nodes that were not asked,
  -- whatever else the nodes answer, whichever fail, and in whatever order the results arrive: then
  -- each of the nearest candidates that did not fail was asked, and the routing table and the
  -- shortlist are valid.
  pub iterate_ends :
      (fuel alpha n : ℕ) (q : Search)
      → Valid.IsValid names t q
      → pending names q.shortlist.candidates < fuel
      → (q' : Search) × (iterate me_id network t fuel (suc alpha) n q ≡ some (some q'))
        × Valid.IsValid names t q'
        × (has_unqueried_in_top_k q'.shortlist bucket_size ≡ false)
  unfolding iterate
  iterate_ends zero alpha n q h b = absurd (omega (arith, b))
  iterate_ends (suc fuel) alpha n q h b =
      elim (Bool-cases (has_unqueried_in_top_k q.shortlist bucket_size)) [
        | inr e ↦ (q, rw (iterate, e) refl, h, e)
        | inl e ↦
            let (c, cs, g) = next_probes q.shortlist alpha e in
            let ps : All (IsProbe names q.shortlist) (c ∷ cs) =
              subst (All (IsProbe names q.shortlist)) g (
                get_closest_unqueried-IsProbe names t q.shortlist (suc alpha) bucket_size
                  h.shortlist_valid h.all_named) in
            let (q₁, p, v, l) = probe-pending n q c cs h ps in
            let (q₂, p', v', d) = iterate_ends fuel alpha (suc n) q₁ v (omega (arith, l, b)) in
            (q₂, rw (iterate, e, g, p) p', v', d)
      ]

pub pending-length : (ks : List Bytes) (m : Dict Candidate) → pending ks m ≤ length ks
unfolding pending
pending-length [] m = omega arith
pending-length (k ∷ ks) m = ground (arith, pending-length ks m)
