-- ===== src/Kademlia/DataLookup/Rounds.antt =====
-- The loop of a data lookup (kademlia/kademlia.go) ends without a panic.
use d7024e_lab.Kademlia.Id
use d7024e_lab.Kademlia.Contact
use d7024e_lab.Kademlia.Shortlist
use d7024e_lab.Kademlia.RoutingTable.Valid
use d7024e_lab.Kademlia.DataStore
use d7024e_lab.Kademlia.Lookup
use d7024e_lab.Prelude.{All, List, Option, [], false, length, refl, some, subst, ℕ, ◌<◌, ◌∷◌, ◌≡◌}
use d7024e_lab.Kademlia.Contact.{Contact, key}
use d7024e_lab.Kademlia.DataLookup.{
  DataNetwork, Progress, found, going, probe_data, receive_all_data, receive_data,
}
use d7024e_lab.Kademlia.DataLookup.Answers.{After, IsAsked, IsDataConfined, receive_data_lem}
use d7024e_lab.Kademlia.DataStore.{DataStore, store}
use d7024e_lab.Kademlia.DataStore.Settled.{IsPlain}
use d7024e_lab.Kademlia.Id.{KademliaId}
use d7024e_lab.Kademlia.Lookup.{Search, in_order}
use d7024e_lab.Kademlia.Lookup.Probes.{IsProbe}
use d7024e_lab.Kademlia.Lookup.Rounds.{
  All-IsPeer, All-in_order, insert_at_first, pending, pending-lt,
}
use d7024e_lab.Kademlia.Lookup.Valid.{Closes, IsPeer, is_open}
use d7024e_lab.Kademlia.Shortlist.{Shortlist}
use d7024e_lab.Prelude.Bytes.{Bytes}
use d7024e_lab.Registry.Crypto.{Crypto}
use d7024e_lab.Registry.Record.{Json}

After-Closes :
    (names : List Bytes) (t : KademliaId) (s s' : Shortlist.Shortlist) (p : Progress)
    → Closes s s'
    → After names t s' p
    → After names t s p
unfolding Closes
After-Closes names t s s' (going q) k f = (f.0, λ i o. f.1 i (k i o))
After-Closes names t s s' (found table kept x from) k f = f

-- A contact that was asked is not asked again by what comes later.
IsAsked-After :
    (names : List Bytes) (t : KademliaId) (s : Shortlist.Shortlist) (k : KademliaId) (p : Progress)
    → is_open (Id.string k) s.candidates ≡ false
    → After names t s p
    → IsAsked k p
unfolding Closes
IsAsked-After names t s k (going q) o f = f.1 (Id.string k) o
IsAsked-After names t s k (found table kept x from) o f = tt

module _ (cr : Crypto) (js : Json) (names : List Bytes) (t : KademliaId) (me_id : Option KademliaId)
    (store : Option DataStore.DataStore) (network : DataNetwork)
    (confined : IsDataConfined names network t)
    (plain : (value : Bytes) → IsPlain cr js t value) where
  receive_all_data_lem :
      (n : ℕ) (q : Search) (cs : List Contact.Contact)
      → Lookup.Valid.IsValid names t q
      → All (IsPeer names) cs
      → (p : Progress) × (receive_all_data cr js me_id store network t n q cs ≡ some p)
        × After names t q.shortlist p
  unfolding receive_all_data Closes IsDataConfined
  receive_all_data_lem n q [] h k = (going q, refl, (h, λ i o. o))
  receive_all_data_lem n q (c ∷ cs) h k =
      let (p, e, f, a) =
        receive_data_lem cr js names t me_id store network plain q c
          (network.send_find_data_message n t c) h k.0 (confined n c) in
      by_progress p e f (λ q'. receive_all_data_lem n q' cs)
    where
      by_progress :
          (p : Progress)
          → receive_data cr js me_id store network t q c (network.send_find_data_message n t c)
            ≡ some p
          → After names t q.shortlist p
          → ((q' : Search)
              → Lookup.Valid.IsValid names t q'
              → All (IsPeer names) cs
              → (p' : Progress) × (receive_all_data cr js me_id store network t n q' cs ≡ some p')
                × After names t q'.shortlist p')
          → (p' : Progress) × (receive_all_data cr js me_id store network t n q (c ∷ cs) ≡ some p')
            × After names t q.shortlist p'
      by_progress (going q') e f rest =
          let (p', e', f') = rest q' f.0 k.1 in
          (p', rw (receive_all_data, e) e', After-Closes names t q.shortlist q'.shortlist p' f.1 f')
      by_progress (found table kept x from) e f rest =
          (found table kept x from, rw (receive_all_data, e) refl, f)

  -- The first result that arrives settles the contact that it is from.
  receive_all_data_first :
      (n : ℕ) (q : Search) (c : Contact.Contact) (cs : List Contact.Contact)
      → Lookup.Valid.IsValid names t q
      → IsProbe names q.shortlist c
      → All (IsPeer names) cs
      → (p : Progress) × (receive_all_data cr js me_id store network t n q (c ∷ cs) ≡ some p)
        × After names t q.shortlist p
        × IsAsked (key c) p
  unfolding receive_all_data Closes IsDataConfined
  receive_all_data_first n q c cs h pr k =
      let (p, e, f, a) =
        receive_data_lem cr js names t me_id store network plain q c
          (network.send_find_data_message n t c) h (record { known = pr.known; named = pr.named })
          (confined n c) in
      by_progress p e f (a pr.found)
    where
      by_progress :
          (p : Progress)
          → receive_data cr js me_id store network t q c (network.send_find_data_message n t c)
            ≡ some p
          → After names t q.shortlist p
          → IsAsked (key c) p
          → (p' : Progress) × (receive_all_data cr js me_id store network t n q (c ∷ cs) ≡ some p')
            × After names t q.shortlist p'
            × IsAsked (key c) p'
      by_progress (going q') e f a =
          let (p', e', f') = receive_all_data_lem n q' cs f.0 k in
          (
            p',
            rw (receive_all_data, e) e',
            After-Closes names t q.shortlist q'.shortlist p' f.1 f',
            IsAsked-After names t q'.shortlist (key c) p' a f',
          )
      by_progress (found table kept x from) e f a =
          (found table kept x from, rw (receive_all_data, e) refl, f, a)

  -- Less is left to ask, or a value was taken.
  abbrev pub Shrinks : Search → Progress → Type 0
  Shrinks q (going q') =
      Lookup.Valid.IsValid names t q'
      × (pending names q'.shortlist.candidates < pending names q.shortlist.candidates)
  Shrinks q (found table kept x from) = Valid.IsValid table

  pub probe_data-Shrinks :
      (n : ℕ) (q : Search) (c : Contact.Contact) (cs : List Contact.Contact)
      → Lookup.Valid.IsValid names t q
      → All (IsProbe names q.shortlist) (c ∷ cs)
      → (p : Progress) × (probe_data cr js me_id store network t n q (c ∷ cs) ≡ some p)
        × Shrinks q p
  unfolding probe_data in_order
  probe_data-Shrinks n q c cs h ps =
      let pick = network.arrival n in
      let (d, ds, e) = insert_at_first (pick (length cs)) c (in_order pick cs) in
      let all : All (IsProbe names q.shortlist) (d ∷ ds) =
        subst (All (IsProbe names q.shortlist)) e
          (All-in_order (IsProbe names q.shortlist) pick (c ∷ cs) ps) in
      let (p, r, f, a) =
        receive_all_data_first n q d ds h all.0 (All-IsPeer names q.shortlist ds all.1) in
      (p, rw (probe_data, e) r, shrinks q d p all.0 f a)
    where
      shrinks :
          (q : Search) (d : Contact.Contact) (p : Progress)
          → IsProbe names q.shortlist d
          → After names t q.shortlist p
          → IsAsked (key d) p
          → Shrinks q p
      shrinks q d (going q') pr f a = (
        f.0,
        pending-lt names (Id.string (key d)) q.shortlist q'.shortlist f.1 pr.named pr.open_before a,
      )
      shrinks q d (found table kept x from) pr f a = f
