-- ===== src/Kademlia/DataLookup/Answers.antt =====
-- What a result of a round does to a data lookup (kademlia/kademlia.go), errors included: no result
-- makes it panic.
use d7024e_lab.Kademlia.Id
use d7024e_lab.Kademlia.Contact
use d7024e_lab.Kademlia.Shortlist
use d7024e_lab.Kademlia.RoutingTable.Valid
use d7024e_lab.Kademlia.DataStore
use d7024e_lab.Kademlia.Lookup
use d7024e_lab.Prelude.{
  All, Bool, Bool-cases, List, Option, [], false, inl, inr, none, refl, some, true, ℕ, ◌∷◌, ◌≡◌,
}
use d7024e_lab.Kademlia.Contact.{Contact, key}
use d7024e_lab.Kademlia.DataLookup.{
  DataNetwork, Progress, accept, cache, check, found, going, judge, receive_data, take_answer,
}
use d7024e_lab.Kademlia.DataStore.{DataStore, store}
use d7024e_lab.Kademlia.DataStore.Settled.{IsPlain, node_validate-IsPlain, store-IsPlain}
use d7024e_lab.Kademlia.Id.{KademliaId}
use d7024e_lab.Kademlia.Id.Order.{value}
use d7024e_lab.Kademlia.Lookup.{Search}
use d7024e_lab.Kademlia.Lookup.Answers.{after_mark, mark-closed}
use d7024e_lab.Kademlia.Lookup.Valid.{
  Closes, IsNamed, IsPeer, add_found-Closes, after_add-Covers, is_open,
}
use d7024e_lab.Kademlia.RoutingTable.Valid.{add_contact-after_add, after_add}
use d7024e_lab.Kademlia.Shortlist.{Shortlist, queried, unresponsive}
use d7024e_lab.Prelude.Bytes.{Bytes}
use d7024e_lab.Prelude.Bytes.Dict.{has, insert}
use d7024e_lab.Registry.Crypto.{Crypto}
use d7024e_lab.Registry.Record.{Json}

module _ (cr : Crypto) (js : Json) (target : KademliaId) (value : Bytes)
    (plain : IsPlain cr js target value) where
  cache_returns :
      (store : Option DataStore.DataStore)
      → (r : Bool × Option DataStore.DataStore) × (cache cr js store target value ≡ some r)
  unfolding cache
  cache_returns none = ((true, none), refl)
  cache_returns (some ds) = elim (store-IsPlain cr js ds target value plain) [
    | inl (x, e, m) ↦ ((true, some ds), rw (cache, e) refl)
    | inr (e, h, l) ↦
        ((true, some (record ds { entries = insert target value ds.entries })), rw (cache, e) refl)
  ]

  check_returns :
      (store : Option DataStore.DataStore)
      → (r : Bool × Option DataStore.DataStore) × (check cr js store target value ≡ some r)
  unfolding check
  check_returns none = ((false, none), refl)
  check_returns (some ds) = elim (node_validate-IsPlain cr js ds target value plain) [
    | inl (x, e) ↦ ((false, some ds), rw (check, e) refl)
    | inr (e, h) ↦ ((true, some ds), rw (check, e) refl)
  ]

  judge_returns :
      (store : Option DataStore.DataStore)
      → (r : Bool × Option DataStore.DataStore) × (judge cr js store target value ≡ some r)
  unfolding judge
  judge_returns store =
      elim (Bool-cases (Id.equals (Id.new_kademlia_id_from_data cr.sha256 value) target)) [
        | inl e ↦ rw e (cache_returns store)
        | inr e ↦ rw e (check_returns store)
      ]

-- The nodes of the network are named `names`: an answer tells of no other.
unfoldable pub IsDataConfined : List Bytes → DataNetwork → KademliaId → Type 0
IsDataConfined names network t =
    (n : ℕ) (c : Contact.Contact) (value : Bytes) (contacts : List Contact.Contact)
    → network.send_find_data_message n t c ≡ some (value, contacts)
    → All (IsNamed names) contacts

-- What holds after results that came while the shortlist was `s`.
abbrev pub After : List Bytes → KademliaId → Shortlist.Shortlist → Progress → Type 0
After names t s (going q) = Lookup.Valid.IsValid names t q × Closes s q.shortlist
After names t s (found table kept value from) = Valid.IsValid table

-- The contact will not be asked again.
abbrev pub IsAsked : KademliaId → Progress → Type 0
IsAsked k (going q) = is_open (Id.string k) q.shortlist.candidates ≡ false
IsAsked k (found table kept value from) = Unit

module _ (cr : Crypto) (js : Json) (names : List Bytes) (t : KademliaId) (me_id : Option KademliaId)
    (store : Option DataStore.DataStore) (network : DataNetwork)
    (plain : (value : Bytes) → IsPlain cr js t value) where
  take_answer_lem :
      (q : Search) (c : Contact.Contact) (value : Bytes) (contacts : List Contact.Contact)
      → Lookup.Valid.IsValid names t q
      → All (IsNamed names) contacts
      → (p : Progress) × (take_answer cr js me_id store network t q c value contacts ≡ some p)
        × After names t q.shortlist p
        × ((k : KademliaId) → is_open (Id.string k) q.shortlist.candidates ≡ false → IsAsked k p)
  unfolding take_answer Closes accept
  take_answer_lem q c [] contacts h n =
      let (s, p, v, a, k) =
        add_found-Closes names t me_id q.shortlist contacts h.shortlist_valid h.all_named n in
      (
        going (record q { shortlist = s }),
        rw (take_answer, p) refl,
        (
          record {
            table_valid = h.table_valid;
            covered = h.covered;
            shortlist_valid = v;
            all_named = a;
          },
          k,
        ),
        λ i o. k (Id.string i) o,
      )
  take_answer_lem q c (b ∷ bs) contacts h n =
      let (r, e) = judge_returns cr js t (b ∷ bs) (plain (b ∷ bs)) store in by_verdict r e
    where
      by_verdict :
          (r : Bool × Option DataStore.DataStore)
          → judge cr js store t (b ∷ bs) ≡ some r
          → (p : Progress) × (take_answer cr js me_id store network t q c (b ∷ bs) contacts
              ≡ some p)
            × After names t q.shortlist p
            × ((k : KademliaId)
                → is_open (Id.string k) q.shortlist.candidates ≡ false
                → IsAsked k p)
      by_verdict (true, kept) e =
          (found q.table kept (b ∷ bs) c, rw (take_answer, e) refl, h.table_valid, λ i o. tt)
      by_verdict (false, kept) e = (going q, rw (take_answer, e) refl, (h, λ i o. o), λ i o. o)

  pub receive_data_lem :
      (q : Search) (c : Contact.Contact) (answer : Option (Bytes × List Contact.Contact))
      → Lookup.Valid.IsValid names t q
      → IsPeer names c
      → ((value : Bytes) (contacts : List Contact.Contact)
          → answer ≡ some (value, contacts)
          → All (IsNamed names) contacts)
      → (p : Progress) × (receive_data cr js me_id store network t q c answer ≡ some p)
        × After names t q.shortlist p
        × (has (Id.string (key c)) q.shortlist.candidates ≡ true → IsAsked (key c) p)
  unfolding receive_data Shortlist.mark_unresponsive Shortlist.mark_queried Closes
  receive_data_lem q c none h hc n =
      let (v, a, k) =
        after_mark names t me_id unresponsive q.shortlist c refl h.shortlist_valid h.all_named in
      (
        going (record q { shortlist = Shortlist.mark unresponsive q.shortlist c.id }),
        refl,
        (
          record {
            table_valid = h.table_valid;
            covered = h.covered;
            shortlist_valid = v;
            all_named = a;
          },
          k,
        ),
        mark-closed unresponsive q.shortlist c.id (key c) refl hc.known.has_id,
      )
  receive_data_lem q c (some (value, contacts)) h hc n =
      let (v, a, k) =
        after_mark names t me_id queried q.shortlist c refl h.shortlist_valid h.all_named in
      let (e, tv) = add_contact-after_add q.table c h.table_valid hc.known in
      let q' : Search = record {
        table = after_add q.table c;
        shortlist = Shortlist.mark queried q.shortlist c.id;
      } in
      let (p, r, f, o) =
        take_answer_lem q' c value contacts
          (record {
            table_valid = tv;
            covered = after_add-Covers names q.table c h.covered hc;
            shortlist_valid = v;
            all_named = a;
          })
          (n value contacts refl) in
      (
        p,
        rw (receive_data, e) r,
        later q.shortlist q'.shortlist p k f,
        λ g. o (key c) (mark-closed queried q.shortlist c.id (key c) refl hc.known.has_id g),
      )
    where
      later :
          (s s' : Shortlist.Shortlist) (p : Progress)
          → Closes s s'
          → After names t s' p
          → After names t s p
      later s s' (going q₁) k f = (f.0, λ i o. f.1 i (k i o))
      later s s' (found table kept x from) k f = f
