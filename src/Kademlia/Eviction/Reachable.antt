-- ===== src/Kademlia/Eviction/Reachable.antt =====
-- The invariant of the shared table of kademlia/routingtable.go in every reachable state.
use d7024e_lab.Kademlia.Id
use d7024e_lab.Prelude.{
  All, All-append, Bool, List, Option, [], ap, arith, refl, some, subst, sym, ℕ, ◌++◌, ◌+◌, ◌∷◌,
  ◌≡◌, ◌≤◌,
}
use d7024e_lab.Kademlia.Contact.{Contact, IsKnown, key}
use d7024e_lab.Kademlia.Eviction.{
  Reach, Step, System, Thread, advance, arrive, enqueuing, evicted, finishing, forget, here, learn,
  move, next, probing, replacing, start,
}
use d7024e_lab.Kademlia.Eviction.Arrivals.{add_contact-Keeps, remove_contact-Keeps, try_add-Keeps}
use d7024e_lab.Kademlia.Eviction.Safe.{IsGood, IsSound, Keeps, flag, probe_of, probes}
use d7024e_lab.Kademlia.Eviction.Steps.{advance-Keeps}
use d7024e_lab.Kademlia.RoutingTable.{RoutingTable, index_of_distance, new_routing_table}
use d7024e_lab.Kademlia.RoutingTable.Valid.{new_routing_table-IsValid}

probes-append : (j : ℕ) (xs ys : List Thread) → probes j (xs ++ ys) ≡ probes j xs + probes j ys
unfolding probes
probes-append j [] ys = omega arith
probes-append j (x ∷ xs) ys = omega (arith, probes-append j xs ys)

-- `IsGood` looks only at the node itself.
IsGood-me : (rt rt' : RoutingTable) → rt'.me ≡ rt.me → (th : Thread) → IsGood rt th → IsGood rt' th
IsGood-me rt rt' e (enqueuing i c o) h = (
  h.0,
  (h.1.0, subst (λ m. index_of_distance (Id.calc_distance (key o) (key m)) ≡ i) (sym e) h.1.1),
)
IsGood-me rt rt' e (probing i c) h =
    (h.0, subst (λ m. index_of_distance (Id.calc_distance (key c) (key m)) ≡ i) (sym e) h.1)
IsGood-me rt rt' e (evicted i) h = tt
IsGood-me rt rt' e (replacing i c) h = h
IsGood-me rt rt' e (finishing i) h = tt

All-IsGood :
    (rt rt' : RoutingTable)
    → rt'.me ≡ rt.me
    → (ths : List Thread) → All (IsGood rt) ths
    → All (IsGood rt') ths
All-IsGood rt rt' e [] h = tt
All-IsGood rt rt' e (th ∷ ths) h = (IsGood-me rt rt' e th h.0, All-IsGood rt rt' e ths h.1)

All-split :
    (P : Thread → Type 0) (xs : List Thread) (th : Thread) (ys : List Thread)
    → All P (xs ++ th ∷ ys)
    → All P xs × P th × All P ys
All-split P [] th ys h = (tt, h.0, h.1)
All-split P (x ∷ xs) th ys h = let (a, b, c) = All-split P xs th ys h.1 in ((h.0, a), b, c)

module _ (s : System) (sound : IsSound s) where
  -- A part of a thread, run in a sound state, gives a sound state.
  keeps_move :
      (before : List Thread) (th : Thread) (after : List Thread) (r : RoutingTable × List Thread)
      → s.threads ≡ before ++ th ∷ after
      → Keeps s.rt (λ j. probe_of j th) r
      → IsSound (record { rt = r.0; threads = before ++ (r.1 ++ after) })
  unfolding probes
  keeps_move before th after r e k =
      let (gb, gt, ga) =
        All-split (IsGood s.rt) before th after (subst (All (IsGood s.rt)) e sound.good) in
      record {
        table = k.table;
        queues = k.queues;
        good =
            All-append (IsGood r.0) before (r.1 ++ after) (All-IsGood s.rt r.0 k.same_me before gb)
              (All-append (IsGood r.0) r.1 after k.good (All-IsGood s.rt r.0 k.same_me after ga));
        one_probe = λ j. omega (
          arith,
          k.count j,
          sound.one_probe j,
          ap (probes j) e,
          probes-append j before (th ∷ after),
          probes-append j before (r.1 ++ after),
          probes-append j r.1 after,
        );
      }

  may_run :
      (before : List Thread) (th : Thread) (after : List Thread)
      → s.threads ≡ before ++ th ∷ after
      → IsGood s.rt th × ((j : ℕ) → probe_of j th ≤ flag s.rt j)
  unfolding probes
  may_run before th after e = (
    (All-split (IsGood s.rt) before th after (subst (All (IsGood s.rt)) e sound.good)).1,
    λ j. omega (arith, sound.one_probe j, ap (probes j) e, probes-append j before (th ∷ after)),
  )

  -- No part of a thread panics in a sound state.
  pub advance_runs :
      (answered : Bool) (before : List Thread) (th : Thread) (after : List Thread)
      → s.threads ≡ before ++ th ∷ after
      → (r : RoutingTable × List Thread) × (advance answered th s.rt ≡ some r)
        × Keeps s.rt (λ j. probe_of j th) r
  advance_runs answered before th after e =
      let (g, f) = may_run before th after e in
      advance-Keeps s.rt sound.table sound.queues answered th g f

  keeps_new :
      (r : RoutingTable × List Thread)
      → Keeps s.rt (λ j. 0) r
      → IsSound (record { rt = r.0; threads = r.1 ++ s.threads })
  keeps_new r k = record {
    table = k.table;
    queues = k.queues;
    good =
        All-append (IsGood r.0) r.1 s.threads k.good
          (All-IsGood s.rt r.0 k.same_me s.threads sound.good);
    one_probe = λ j. omega (arith, k.count j, sound.one_probe j, probes-append j r.1 s.threads);
  }

same_result {ℓ} : {A : Type ℓ} {o : Option A} {a b : A} → o ≡ some a → o ≡ some b → a ≡ b
same_result p q = cc

pub Step-IsSound : {s u : System} → IsSound s → Step s u → IsSound u
Step-IsSound {s} sound (arrive c has_pinger r ty e) =
    let (r', e', k) = try_add-Keeps s.rt sound.table sound.queues c has_pinger ty in
    keeps_new s sound r (subst (Keeps s.rt (λ j. 0)) (same_result e' e) k)
Step-IsSound {s} sound (learn c rt' ty e) =
    let (r', e', k) = add_contact-Keeps s.rt sound.table sound.queues c ty in
    keeps_new s sound (rt', []) (subst (λ x. Keeps s.rt (λ j. 0) (x, [])) (same_result e' e) k)
Step-IsSound {s} sound (forget c r ty e) =
    let (r', e', k) = remove_contact-Keeps s.rt sound.table sound.queues c ty in
    keeps_new s sound (r.0, []) (subst (λ x. Keeps s.rt (λ j. 0) (x.0, [])) (same_result e' e) k)
Step-IsSound {s} sound (move answered before th after r e ran) =
    let (r', e', k) = advance_runs s sound answered before th after e in
    keeps_move s sound before th after r e
      (subst (Keeps s.rt (λ j. probe_of j th)) (same_result e' ran) k)

-- From a sound state, whatever calls arrive and in whatever order the threads run, every state
-- that is reached is sound: the table valid, each replacement queue of at most ten known contacts,
-- and for every bucket exactly one probe if its flag is set, and none otherwise.
pub Reach-IsSound : {s u : System} → IsSound s → Reach s u → IsSound u
Reach-IsSound sound here = sound
Reach-IsSound sound (next r st) = Step-IsSound (Reach-IsSound sound r) st

pub IsSound-start : (me : Contact) → IsKnown me → IsSound (start (new_routing_table me))
unfolding new_routing_table probes
IsSound-start me h = record {
  table = new_routing_table-IsValid me h;
  queues = record { bounded = λ i. omega arith; known = λ i. tt };
  good = tt;
  one_probe = λ j. refl;
}
