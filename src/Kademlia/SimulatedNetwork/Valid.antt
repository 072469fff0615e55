-- ===== src/Kademlia/SimulatedNetwork/Valid.antt =====
-- The invariant of the simulated networks and their hub (kademlia/simulated_network.go), and the
-- messages that keep it.
use d7024e_lab.Kademlia.RoutingTable
use d7024e_lab.Kademlia.RoutingTable.Valid
use d7024e_lab.Kademlia.Contact
use d7024e_lab.Prelude.{
  ==_iff, Bool-cases, Option, Option-cases, ap, arith, false, inl, inr, none, refl, some,
  some-injective, subst, sym, true, ℕ, ◌%◌, ◌+◌, ◌==◌, ◌^◌, ◌∙◌, ◌≡◌,
}
use d7024e_lab.Kademlia.Contact.{Contact, IsKnown, IsTyped, IsTyped-cases}
use d7024e_lab.Kademlia.Id.{KademliaId}
use d7024e_lab.Kademlia.RoutingTable.{RoutingTable}
use d7024e_lab.Kademlia.RoutingTable.Valid.{add_contact-after_add, after_add}
use d7024e_lab.Kademlia.SimulatedNetwork.{
  Floats, SimulatedHub, SimulatedNetwork, World, add_one_to, is_lost, is_other, learn, learn_both,
  probe_hub,
}
use d7024e_lab.Prelude.Bytes.Dict.{lookup}

-- The identifier is one, and the routing table, if there is one, is valid.
pub record IsValidNetwork (n : SimulatedNetwork) : Type 0 where
  pub typed : IsTyped n.me
  pub table_valid : (rt : RoutingTable.RoutingTable) → n.rt ≡ some rt → Valid.IsValid rt

-- Every probe that was counted was successful or dropped, up to the range of an `int64`.
unfoldable pub IsCounted : (fl : Floats) → SimulatedHub fl → Type 0
IsCounted fl h = h.total % 2 ^ 64 ≡ (h.successful + h.dropped) % 2 ^ 64

pub record IsValidWorld (fl : Floats) (w : World fl) : Type 0 where
  pub networks_valid : (i : ℕ) → IsValidNetwork (w.networks i)
  pub counted : IsCounted fl w.hub

-- All but the routing tables is the same.
abbrev pub SameNodes : (fl : Floats) → World fl → World fl → Type 0
SameNodes fl w w' =
    (i : ℕ)
    → ((w'.networks i).me ≡ (w.networks i).me)
      × ((w'.networks i).ds ≡ (w.networks i).ds)
      × ((w'.networks i).has_hub ≡ (w.networks i).has_hub)

add_one_left :
    (t s d : ℕ)
    → t % 2 ^ 64 ≡ (s + d) % 2 ^ 64
    → add_one_to t % 2 ^ 64 ≡ (add_one_to s + d) % 2 ^ 64
unfolding add_one_to
add_one_left t s d h = omega (arith, h)

add_one_right :
    (t s d : ℕ)
    → t % 2 ^ 64 ≡ (s + d) % 2 ^ 64
    → add_one_to t % 2 ^ 64 ≡ (s + add_one_to d) % 2 ^ 64
unfolding add_one_to
add_one_right t s d h = omega (arith, h)

module _ (fl : Floats) where
  pub probe_hub-IsCounted :
      (h : SimulatedHub fl) (contact : Contact.Contact) (roll : fl.F)
      → IsCounted fl h
      → IsCounted fl (probe_hub fl h contact roll).0
  unfolding probe_hub IsCounted
  probe_hub-IsCounted h contact roll c = elim (Bool-cases (is_lost fl h roll)) [
    | inl e ↦ rw e (add_one_right h.total h.successful h.dropped c)
    | inr e ↦ elim (Option-cases (lookup contact.address h.nodes)) [
      | inl f ↦ rw (e, f) (add_one_right h.total h.successful h.dropped c)
      | inr (at, f) ↦ rw (e, f) (add_one_left h.total h.successful h.dropped c)
    ]
  ]

  pub with_network-IsValidWorld :
      (w : World fl) (at : ℕ) (n : SimulatedNetwork)
      → IsValidWorld fl w
      → IsValidNetwork n
      → IsValidWorld fl (record w { networks = RoutingTable.update w.networks at n })
  with_network-IsValidWorld w at n h v = record {
    networks_valid =
        λ i. elim (Bool-cases (at == i)) [ inl e ↦ rw e v | inr e ↦ rw e (h.networks_valid i) ];
    counted = h.counted;
  }

  is_other-id :
      (me_id id : Option KademliaId)
      → is_other fl me_id id ≡ true
      → (k : KademliaId) × (id ≡ some k)
  unfolding is_other
  is_other-id me_id none h = absurd (let p : false ≡ true = h in cc)
  is_other-id none (some k) h = (k, refl)
  is_other-id (some m) (some k) h = (k, refl)

  -- A node that learns of another one.
  pub learn_lem :
      (w : World fl) (at : ℕ) (other : Contact.Contact)
      → IsValidWorld fl w
      → IsTyped other
      → (w' : World fl) × (learn fl w at other ≡ some w')
        × IsValidWorld fl w'
        × (w'.hub ≡ w.hub)
        × SameNodes fl w w'
  unfolding learn
  learn_lem w at other h t = elim (Option-cases (w.networks at).rt) [
    | inl e ↦ (w, rw (learn, e) refl, h, refl, λ i. (refl, refl, refl))
    | inr (rt, e) ↦ elim (Bool-cases (is_other fl (w.networks at).me.id other.id)) [
      | inr f ↦ (w, rw (learn, e, f) refl, h, refl, λ i. (refl, refl, refl))
      | inl f ↦
          let (k, g) = is_other-id (w.networks at).me.id other.id f in
          let known : IsKnown other = elim (IsTyped-cases other t) [
            | inl n ↦ absurd (let p : Path (Option KademliaId) none (some k) = sym n ∙ g in cc)
            | inr y ↦ y
          ] in
          let (p, v) =
            add_contact-after_add rt other ((h.networks_valid at).table_valid rt e) known in
          let net = record (w.networks at) { rt = some (after_add rt other) } in
          (
            record w { networks = RoutingTable.update w.networks at net },
            rw (learn, e, f, p) refl,
            with_network-IsValidWorld w at net h (record {
              typed = (h.networks_valid at).typed;
              table_valid = λ rt' q. subst Valid.IsValid (some-injective q) v;
            }),
            refl,
            λ i. elim (Bool-cases (at == i)) [
              | inl q ↦ rw q (
                  let o : at ≡ i = (==_iff at i).0 q in
                  (
                    ap (λ j. (w.networks j).me) o,
                    ap (λ j. (w.networks j).ds) o,
                    ap (λ j. (w.networks j).has_hub) o,
                  ))
              | inr q ↦ rw q (refl, refl, refl)
            ],
          )
    ]
  ]

  pub learn_both_lem :
      (w : World fl) (n at : ℕ)
      → IsValidWorld fl w
      → (w' : World fl) × (learn_both fl w n at ≡ some w')
        × IsValidWorld fl w'
        × (w'.hub ≡ w.hub)
        × SameNodes fl w w'
  unfolding learn_both
  learn_both_lem w n at h =
      let (w₁, p, h₁, s₁, k₁) = learn_lem w at (w.networks n).me h (h.networks_valid n).typed in
      let (w₂, p', h₂, s₂, k₂) =
        learn_lem w₁ n (w₁.networks at).me h₁ (h₁.networks_valid at).typed in
      (
        w₂,
        rw (learn_both, p) p',
        h₂,
        s₂ ∙ s₁,
        λ i. ((k₂ i).0 ∙ (k₁ i).0, (k₂ i).1 ∙ (k₁ i).1, (k₂ i).2 ∙ (k₁ i).2),
      )
