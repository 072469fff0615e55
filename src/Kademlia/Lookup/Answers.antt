-- ===== src/Kademlia/Lookup/Answers.antt =====
-- What the results of a round do to a lookup (kademlia/kademlia.go), errors included.
use d7024e_lab.Kademlia.Shortlist
use d7024e_lab.Kademlia.Lookup.Valid
use d7024e_lab.Kademlia.Shortlist.Kept
use d7024e_lab.Kademlia.Id
use d7024e_lab.Kademlia.Contact
use d7024e_lab.Prelude.{
  All, In, List, Option, Option-cases, [], ap, false, inl, inr, none, refl, some, true, ℕ, ◌∷◌, ◌≡◌,
}
use d7024e_lab.Kademlia.Contact.{Contact, key}
use d7024e_lab.Kademlia.Id.{KademliaId}
use d7024e_lab.Kademlia.Lookup.{Network, Search, receive, receive_all}
use d7024e_lab.Kademlia.Lookup.Probes.{IsProbe}
use d7024e_lab.Kademlia.Lookup.Valid.{
  Closes, IsNamed, IsPeer, add_found-Closes, after_add-Covers, is_open, mark-Closes, mark-named,
}
use d7024e_lab.Kademlia.RoutingTable.Valid.{add_contact-after_add, after_add}
use d7024e_lab.Kademlia.Shortlist.{CandidateStatus, Shortlist, is_unqueried, queried, unresponsive}
use d7024e_lab.Kademlia.Shortlist.Marks.{lookup-set_status, mark-IsValid}
use d7024e_lab.Prelude.Bytes.{Bytes, bytes_eq, bytes_eq_iff}
use d7024e_lab.Prelude.Bytes.Dict.{has, lookup}

pub mark-closed :
    (st : CandidateStatus) (s : Shortlist.Shortlist) (id : Option KademliaId) (k : KademliaId)
    → is_unqueried st ≡ false
    → id ≡ some k
    → has (Id.string k) s.candidates ≡ true
    → is_open (Id.string k) (Shortlist.mark st s id).candidates ≡ false
unfolding is_open Shortlist.mark has
mark-closed st s none k u e h = cc
mark-closed st s (some i) k u e h =
    let o : i ≡ k = cc in
    let b : bytes_eq (Id.string i) (Id.string k) ≡ true =
      (bytes_eq_iff (Id.string i) (Id.string k)).1 (ap Id.string o) in
    elim (Option-cases (lookup (Id.string k) s.candidates)) [
      | inl n ↦ let p : false ≡ true = rw (has, n) at h in cc
      | inr (c, n) ↦
          rw (is_open, lookup-set_status st (Id.string i) (Id.string k) s.candidates, b, n) u
    ]

-- The nodes of the network are named `names`: an answer tells of no other.
unfoldable pub IsConfined : List Bytes → Network → KademliaId → Type 0
IsConfined names network t =
    (n : ℕ) (c : Contact.Contact) (found : List Contact.Contact)
    → network.send_find_contact_message n t c ≡ some found
    → All (IsNamed names) found

module _ (names : List Bytes) (t : KademliaId) (me_id : Option KademliaId) where
  -- A mark that says that the contact was asked.
  pub after_mark :
      (st : CandidateStatus) (s : Shortlist.Shortlist) (c : Contact.Contact)
      → is_unqueried st ≡ false
      → Kept.IsValid t s
      → All (λ e. In e.0 names) s.candidates
      → Kept.IsValid t (Shortlist.mark st s c.id)
        × All (λ e. In e.0 names) (Shortlist.mark st s c.id).candidates
        × Closes s (Shortlist.mark st s c.id)
  after_mark st s c u h a = (
    mark-IsValid t st s c.id h,
    mark-named (λ k. In k names) st s c.id a,
    mark-Closes st u s c.id,
  )

  receive_lem :
      (q : Search) (c : Contact.Contact) (answer : Option (List Contact.Contact))
      → Valid.IsValid names t q
      → IsPeer names c
      → ((found : List Contact.Contact) → answer ≡ some found → All (IsNamed names) found)
      → (q' : Search) × (receive me_id q c answer ≡ some q')
        × Valid.IsValid names t q'
        × Closes q.shortlist q'.shortlist
        × (has (Id.string (key c)) q.shortlist.candidates ≡ true
            → is_open (Id.string (key c)) q'.shortlist.candidates ≡ false)
  unfolding receive Shortlist.mark_unresponsive Shortlist.mark_queried Closes
  receive_lem q c none h hc n =
      let (v, a, k) = after_mark unresponsive q.shortlist c refl h.shortlist_valid h.all_named in
      (
        record q { shortlist = Shortlist.mark unresponsive q.shortlist c.id },
        refl,
        record {
          table_valid = h.table_valid;
          shortlist_valid = v;
          all_named = a;
          covered = h.covered;
        },
        k,
        mark-closed unresponsive q.shortlist c.id (key c) refl hc.known.has_id,
      )
  receive_lem q c (some found) h hc n =
      let (v, a, k) = after_mark queried q.shortlist c refl h.shortlist_valid h.all_named in
      let (e, tv) = add_contact-after_add q.table c h.table_valid hc.known in
      let (s', p, v', a', k') =
        add_found-Closes names t me_id (Shortlist.mark queried q.shortlist c.id) found v a
          (n found refl) in
      (
        record { table = after_add q.table c; shortlist = s' },
        rw (receive, e, p) refl,
        record {
          table_valid = tv;
          shortlist_valid = v';
          all_named = a';
          covered = after_add-Covers names q.table c h.covered hc;
        },
        λ i o. k' i (k i o),
        λ f.
            k' (Id.string (key c))
              (mark-closed queried q.shortlist c.id (key c) refl hc.known.has_id f),
      )

  module _ (network : Network) (confined : IsConfined names network t) where
    pub receive_all_lem :
        (n : ℕ) (q : Search) (cs : List Contact.Contact)
        → Valid.IsValid names t q
        → All (IsPeer names) cs
        → (q' : Search) × (receive_all me_id network t n q cs ≡ some q')
          × Valid.IsValid names t q'
          × Closes q.shortlist q'.shortlist
    unfolding receive_all Closes IsConfined
    receive_all_lem n q [] h k = (q, refl, h, λ i o. o)
    receive_all_lem n q (c ∷ cs) h k =
        let (q₁, p, v, d, f) =
          receive_lem q c (network.send_find_contact_message n t c) h k.0 (confined n c) in
        let (q₂, p', v', d') = receive_all_lem n q₁ cs v k.1 in
        (q₂, rw (receive_all, p) p', v', λ i o. d' i (d i o))

    -- After a round its first result, at least, is recorded.
    pub receive_all_first :
        (n : ℕ) (q : Search) (c : Contact.Contact) (cs : List Contact.Contact)
        → Valid.IsValid names t q
        → IsProbe names q.shortlist c
        → All (IsPeer names) cs
        → (q' : Search) × (receive_all me_id network t n q (c ∷ cs) ≡ some q')
          × Valid.IsValid names t q'
          × Closes q.shortlist q'.shortlist
          × (is_open (Id.string (key c)) q'.shortlist.candidates ≡ false)
    unfolding receive_all Closes IsConfined
    receive_all_first n q c cs h pr k =
        let (q₁, p, v, d, f) =
          receive_lem q c (network.send_find_contact_message n t c) h
            (record { known = pr.known; named = pr.named }) (confined n c) in
        let (q₂, p', v', d') = receive_all_lem n q₁ cs v k in
        (q₂, rw (receive_all, p) p', v', λ i o. d' i (d i o), d' (Id.string (key c)) (f pr.found))
