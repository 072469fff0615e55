-- ===== src/Kademlia/Shortlist/Top.antt =====
-- The loop condition of a lookup and the choice of its next contacts (kademlia/shortlist.go).
use d7024e_lab.Prelude.{
  Bool-cases, List, [], ap, arith, false, inl, inr, length, map, refl, suc, take, true, zero, ℕ,
  ◌↔◌, ◌∙◌, ◌∷◌, ◌≡◌, ◌≢◌, ◌≤◌,
}
use d7024e_lab.Kademlia.RoutingTable.{insert_sorted, sort}
use d7024e_lab.Kademlia.Shortlist.{
  Candidate, Shortlist, any_unqueried, get_active_candidates, get_closest_unqueried,
  has_unqueried_in_top_k, insert_candidate, is_unqueried, sort_candidates, take_unqueried,
}

take_unqueried-none :
    (room : ℕ) (cs : List Candidate) → any_unqueried cs ≡ false → take_unqueried room cs ≡ []
unfolding any_unqueried take_unqueried
take_unqueried-none zero cs h = refl
take_unqueried-none (suc room) [] h = refl
take_unqueried-none (suc room) (c ∷ cs) h = ground (arith, take_unqueried-none (suc room) cs)

take_unqueried-some :
    (room : ℕ) (cs : List Candidate) → any_unqueried cs ≡ true → take_unqueried (suc room) cs ≢ []
unfolding any_unqueried take_unqueried
take_unqueried-some room [] h = λ e. cc
take_unqueried-some room (c ∷ cs) h = elim (Bool-cases (is_unqueried c.status)) [
  | inl e ↦ rw e (λ q. cc)
  | inr e ↦ let h' : any_unqueried cs ≡ true = rw e at h in rw e (take_unqueried-some room cs h')
]

-- While one of the nearest `k` active candidates was not asked, there is a next contact to ask, for
-- any number of parallel requests above zero; and when there is none, the loop ends.
pub has_unqueried_in_top_k-get_closest_unqueried :
    (s : Shortlist) (count k : ℕ)
    → (has_unqueried_in_top_k s k ≡ true) ↔ (get_closest_unqueried s (suc count) k ≢ [])
unfolding has_unqueried_in_top_k get_closest_unqueried
has_unqueried_in_top_k-get_closest_unqueried s count k = (
  take_unqueried-some count (take k (get_active_candidates s)),
  λ h. elim (Bool-cases (any_unqueried (take k (get_active_candidates s)))) [
    | inl e ↦ e
    | inr e ↦ absurd (h (take_unqueried-none (suc count) (take k (get_active_candidates s)) e))
  ],
)

take_unqueried-length : (room : ℕ) (cs : List Candidate) → length (take_unqueried room cs) ≤ room
unfolding take_unqueried
take_unqueried-length zero cs = omega arith
take_unqueried-length (suc room) [] = omega arith
take_unqueried-length (suc room) (c ∷ cs) =
    ground (arith, take_unqueried-length room cs, take_unqueried-length (suc room) cs)

map-insert_candidate :
    (c : Candidate) (ds : List Candidate)
    → map (λ d. d.contact) (insert_candidate c ds)
      ≡ insert_sorted c.contact (map (λ d. d.contact) ds)
unfolding insert_candidate insert_sorted
map-insert_candidate c [] = refl
map-insert_candidate c (d ∷ ds) = ground (arith, map-insert_candidate c ds)

-- The candidates are sorted as their contacts are.
pub map-sort_candidates :
    (cs : List Candidate)
    → map (λ d. d.contact) (sort_candidates cs) ≡ sort (map (λ d. d.contact) cs)
unfolding sort_candidates sort
map-sort_candidates [] = refl
map-sort_candidates (c ∷ cs) =
    map-insert_candidate c (sort_candidates cs)
    ∙ ap (insert_sorted c.contact) (map-sort_candidates cs)

pub map-take {ℓ κ} :
    {A : Type ℓ} {B : Type κ} (f : A → B) (n : ℕ) (xs : List A)
    → map f (take n xs) ≡ take n (map f xs)
map-take f zero xs = refl
map-take f (suc n) [] = refl
map-take f (suc n) (x ∷ xs) = ap (◌∷◌ (f x)) (map-take f n xs)

length-insert_candidate :
    (c : Candidate) (ds : List Candidate) → length (insert_candidate c ds) ≡ suc (length ds)
unfolding insert_candidate
length-insert_candidate c [] = refl
length-insert_candidate c (d ∷ ds) = ground (arith, length-insert_candidate c ds)

pub length-sort_candidates : (cs : List Candidate) → length (sort_candidates cs) ≡ length cs
unfolding sort_candidates
length-sort_candidates [] = refl
length-sort_candidates (c ∷ cs) =
    length-insert_candidate c (sort_candidates cs) ∙ ap suc (length-sort_candidates cs)

pub length-map {ℓ κ} :
    {A : Type ℓ} {B : Type κ} (f : A → B) (xs : List A) → length (map f xs) ≡ length xs
length-map f [] = refl
length-map f (x ∷ xs) = ap suc (length-map f xs)
