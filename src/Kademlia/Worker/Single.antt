-- ===== src/Kademlia/Worker/Single.antt =====
-- At most one goroutine replicates, and none after the worker was stopped (kademlia/kademlia.go).
use mathlib.Core.List.{nil≢cons, tail-eq_of_cons-eq}
use d7024e_lab.Prelude.{
  List, Option, Option-cases, [], ap, arith, inl, inr, length, none, refl, some, subst, sym, ℕ,
  ◌++◌, ◌∙◌, ◌∷◌, ◌≡◌, ◌≢◌, ◌≤◌, ◌⊎◌,
}
use d7024e_lab.Kademlia.Worker.{
  Phase, Runs, Step, Worker, begin_worker, begun, end_wait, goes_on, idle, leaves, replicates,
  restarting, start_worker, starts, stepped, stop_worker, stopping, stops,
}

-- The goroutines that run: none, or the one of the current channel.
AtMostOne : Worker → Type 0
AtMostOne w = (w.live ≡ []) ⊎ ((ch : ℕ) × (w.stop ≡ some ch) × (w.live ≡ ch ∷ []))

begin_worker-AtMostOne : (d : ℕ) (w : Worker) → w.live ≡ [] → AtMostOne (begin_worker d w)
unfolding AtMostOne begin_worker
begin_worker-AtMostOne d w h = inr (w.next_channel, refl, ap (λ l. w.next_channel ∷ l) h)

start_worker-AtMostOne : (d : ℕ) (w : Worker) → AtMostOne w → AtMostOne (start_worker d w)
unfolding AtMostOne start_worker
start_worker-AtMostOne d w h = elim (Option-cases w.stop) [
  | inl e ↦
      let p : start_worker d w ≡ begin_worker d w = simp (start_worker, e) in
      subst AtMostOne (sym p) (elim h [
        | inl l ↦ begin_worker-AtMostOne d w l
        | inr (ch, s, l) ↦ absurd (let q : Path (Option ℕ) none (some ch) = sym e ∙ s in cc)
      ])
  | inr (c, e) ↦
      let p : start_worker d w ≡ record w { closed = c ∷ w.closed; phase = restarting d } =
        simp (start_worker, e) in
      subst AtMostOne (sym p) h
]

stop_worker-AtMostOne : (w : Worker) → AtMostOne w → AtMostOne (stop_worker w)
unfolding AtMostOne stop_worker
stop_worker-AtMostOne w h = elim (Option-cases w.stop) [
  | inl e ↦ let p : stop_worker w ≡ w = simp (stop_worker, e) in subst AtMostOne (sym p) h
  | inr (c, e) ↦
      let p : stop_worker w ≡ record w { closed = c ∷ w.closed; phase = stopping } =
        simp (stop_worker, e) in
      subst AtMostOne (sym p) h
]

-- The phase as a value of its own.
Phase-cases : (p : Phase) → (p ≡ idle) ⊎ ((p ≡ stopping) ⊎ ((d : ℕ) × (p ≡ restarting d)))
Phase-cases idle = inl refl
Phase-cases stopping = inr (inl refl)
Phase-cases (restarting d) = inr (inr (d, refl))

end_wait-AtMostOne : (w : Worker) → w.live ≡ [] → AtMostOne (end_wait w)
unfolding AtMostOne end_wait
end_wait-AtMostOne w l = elim (Phase-cases w.phase) [
  | inl e ↦ let p : end_wait w ≡ w = simp (end_wait, e) in subst AtMostOne (sym p) (inl l)
  | inr (inl e) ↦
      let p : end_wait w ≡ record w { stop = none; phase = idle } = simp (end_wait, e) in
      subst AtMostOne (sym p) (inl l)
  | inr (inr (d, e)) ↦
      let w' = record w { stop = none; phase = idle } in
      let p : end_wait w ≡ begin_worker d w' = simp (end_wait, e) in
      subst AtMostOne (sym p) (begin_worker-AtMostOne d w' l)
]

-- Of a list of one, the list without that one is empty.
without_one :
    (ch k : ℕ) (before after : List ℕ) → before ++ (k ∷ after) ≡ ch ∷ [] → before ++ after ≡ []
without_one ch k [] after h = tail-eq_of_cons-eq h
without_one ch k (b ∷ []) after h = absurd (nil≢cons (sym (tail-eq_of_cons-eq h)))
without_one ch k (b ∷ c ∷ before) after h = absurd (nil≢cons (sym (tail-eq_of_cons-eq h)))

leaves-AtMostOne :
    (w : Worker) (k : ℕ) (before after : List ℕ)
    → w.live ≡ before ++ (k ∷ after)
    → AtMostOne w
    → AtMostOne (record w { live = before ++ after })
unfolding AtMostOne
leaves-AtMostOne w k before after e (inl l) = absurd (not_empty before (sym e ∙ l))
  where
    not_empty : (before : List ℕ) → before ++ (k ∷ after) ≢ []
    not_empty [] = λ q. nil≢cons (sym q)
    not_empty (b ∷ bs) = λ q. nil≢cons (sym q)
leaves-AtMostOne w k before after e (inr (ch, s, l)) =
    inl (without_one ch k before after (sym e ∙ l))

Step-AtMostOne : (w w' : Worker) → Step w w' → AtMostOne w → AtMostOne w'
Step-AtMostOne _ _ (starts w d i) h = start_worker-AtMostOne d w h
Step-AtMostOne _ _ (stops w i) h = stop_worker-AtMostOne w h
Step-AtMostOne _ _ (goes_on w l) h = end_wait-AtMostOne w l
Step-AtMostOne _ _ (replicates w ch i) h = h
Step-AtMostOne _ _ (leaves w ch before after e c) h = leaves-AtMostOne w ch before after e h

Runs-AtMostOne : (w : Worker) → Runs w → AtMostOne w
unfolding AtMostOne
Runs-AtMostOne _ begun = inl refl
Runs-AtMostOne _ (stepped w w' r s) = Step-AtMostOne w w' s (Runs-AtMostOne w r)

-- However calls of `StartReplicationWorker` and `StopReplicationWorker`, replication passes and ends
-- of goroutines follow each other, at most one goroutine replicates; and while no worker is set,
-- after a stop too, none does.
pub Runs-Single : (w : Worker) → Runs w → (length w.live ≤ 1) × (w.stop ≡ none → w.live ≡ [])
unfolding AtMostOne
Runs-Single w r = elim (Runs-AtMostOne w r) [
  | inl l ↦ (subst (λ x. length x ≤ 1) (sym l) (omega arith), λ n. l)
  | inr (ch, s, l) ↦ (
    subst (λ x. length x ≤ 1) (sym l) (omega arith),
    λ n. absurd (let q : Path (Option ℕ) none (some ch) = sym n ∙ s in cc),
  )
]
