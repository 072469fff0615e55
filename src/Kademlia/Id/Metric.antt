-- ===== src/Kademlia/Id/Metric.antt =====
-- `CalcDistance` of kademlia/kademliaid.go is a metric, and any two of three identifiers at hand
-- determine the third.
use native.Mathlib.Nat.{mul-le-mul_right}
use d7024e_lab.Prelude.{
  All, [], ap, arith, bit_xor, length, refl, replicate, suc, sym, zero, ℕ, ◌*◌, ◌+◌, ◌/◌, ◌<◌, ◌^◌,
  ◌↔◌, ◌∙◌, ◌∷◌, ◌≡◌, ◌≤◌,
}
use d7024e_lab.Kademlia.Id.{IsId, KademliaId, calc_distance}
use d7024e_lab.Kademlia.Id.Order.{value, value-injective}
use d7024e_lab.Prelude.Bits.{
  bit_xor_assoc, bit_xor_comm, bit_xor-lt, bit_xor_self, bit_xor_step, half-lt-pow, zero-bit_xor,
}
use d7024e_lab.Prelude.Bytes.{IsByte}

length-calc_distance :
    (a b : KademliaId) → length a ≡ length b → length (calc_distance a b) ≡ length a
unfolding calc_distance
length-calc_distance [] b e = refl
length-calc_distance (a ∷ as') [] e = absurd (omega arith)
length-calc_distance (a ∷ as') (b ∷ bs) e = ap suc (length-calc_distance as' bs (omega arith))

calc_distance_bytes :
    (a b : KademliaId) → All IsByte a → All IsByte b → All IsByte (calc_distance a b)
unfolding calc_distance
calc_distance_bytes [] b ha hb = tt
calc_distance_bytes (a ∷ as') [] ha hb = tt
calc_distance_bytes (a ∷ as') (b ∷ bs) ha hb =
    (bit_xor-lt 8 a b ha.0 hb.0, calc_distance_bytes as' bs ha.1 hb.1)

-- The distance of two identifiers is an identifier.
pub calc_distance-IsId : (a b : KademliaId) → IsId a → IsId b → IsId (calc_distance a b)
calc_distance-IsId a b ha hb = record {
  size = length-calc_distance a b (ha.size ∙ sym hb.size) ∙ ha.size;
  is_bytes = calc_distance_bytes a b ha.is_bytes hb.is_bytes;
}

pub calc_distance_comm :
    (a b : KademliaId) → All IsByte a → All IsByte b → calc_distance a b ≡ calc_distance b a
unfolding calc_distance
calc_distance_comm [] [] ha hb = refl
calc_distance_comm [] (b ∷ bs) ha hb = refl
calc_distance_comm (a ∷ as') [] ha hb = refl
calc_distance_comm (a ∷ as') (b ∷ bs) ha hb =
    cc (bit_xor_comm 8 a b ha.0 hb.0, calc_distance_comm as' bs ha.1 hb.1)

pub calc_distance_self :
    (a : KademliaId) → All IsByte a → calc_distance a a ≡ replicate (length a) 0
unfolding calc_distance
calc_distance_self [] ha = refl
calc_distance_self (a ∷ as') ha = cc (bit_xor_self 8 a ha.0, calc_distance_self as' ha.1)

calc_distance_assoc :
    (a b c : KademliaId)
    → All IsByte a
    → All IsByte b
    → All IsByte c
    → calc_distance (calc_distance a b) c ≡ calc_distance a (calc_distance b c)
unfolding calc_distance
calc_distance_assoc [] b c ha hb hc = refl
calc_distance_assoc (a ∷ as') [] c ha hb hc = refl
calc_distance_assoc (a ∷ as') (b ∷ bs) [] ha hb hc = refl
calc_distance_assoc (a ∷ as') (b ∷ bs) (c ∷ cs) ha hb hc =
    cc (bit_xor_assoc 8 a b c ha.0 hb.0 hc.0, calc_distance_assoc as' bs cs ha.1 hb.1 hc.1)

zeros-calc_distance : (n : ℕ) (a : KademliaId) → length a ≡ n → calc_distance (replicate n 0) a ≡ a
unfolding calc_distance
zeros-calc_distance zero [] e = refl
zeros-calc_distance zero (a ∷ as') e = absurd (omega arith)
zeros-calc_distance (suc n) [] e = absurd (omega arith)
zeros-calc_distance (suc n) (a ∷ as') e =
    cc (zero-bit_xor a, zeros-calc_distance n as' (omega arith))

-- The distance from `a` to `b`, measured from `a` again, is `b`.
pub calc_distance_cancel :
    (a b : KademliaId) → IsId a → IsId b → calc_distance a (calc_distance a b) ≡ b
calc_distance_cancel a b ha hb =
    sym (calc_distance_assoc a a b ha.is_bytes ha.is_bytes hb.is_bytes)
    ∙ ap (λ z. calc_distance z b) (calc_distance_self a ha.is_bytes)
    ∙ zeros-calc_distance (length a) b (hb.size ∙ sym ha.size)

-- At a given distance from an identifier there is only one other: distances to one target order
-- distinct identifiers without ties.
pub calc_distance-injective :
    (a b c : KademliaId) → IsId a → IsId b → IsId c → calc_distance a b ≡ calc_distance a c → b ≡ c
calc_distance-injective a b c ha hb hc e =
    sym (calc_distance_cancel a b ha hb) ∙ ap (calc_distance a) e ∙ calc_distance_cancel a c ha hc

bit_xor-le_add : (k a b : ℕ) → a < 2 ^ k → b < 2 ^ k → bit_xor a b ≤ a + b
bit_xor-le_add zero zero zero p q = omega (arith, zero-bit_xor 0)
bit_xor-le_add zero zero (suc b) p q = absurd (omega arith)
bit_xor-le_add zero (suc a) b p q = absurd (omega arith)
bit_xor-le_add (suc k) a b p q = omega (
  arith,
  bit_xor_step a b,
  bit_xor-le_add k (a / 2) (b / 2) (half-lt-pow k a p) (half-lt-pow k b q),
)

add_places : (x a b p u v w : ℕ) → x ≤ a + b → u ≤ v + w → x * p + u ≤ a * p + v + (b * p + w)
add_places x a b p u v w h k = grind (arith, mul-le-mul_right p h)

value-calc_distance-le :
    (a b : KademliaId)
    → length a ≡ length b
    → All IsByte a
    → All IsByte b
    → value (calc_distance a b) ≤ value a + value b
unfolding calc_distance value
value-calc_distance-le [] b e ha hb = omega arith
value-calc_distance-le (a ∷ as') [] e ha hb = absurd (omega arith)
value-calc_distance-le (a ∷ as') (b ∷ bs) e ha hb =
    let e' : length as' ≡ length bs = omega arith in
    rw (length-calc_distance as' bs e', e')
      (add_places (bit_xor a b) a b (256 ^ length bs) (value (calc_distance as' bs)) (value as')
        (value bs) (bit_xor-le_add 8 a b ha.0 hb.0) (value-calc_distance-le as' bs e' ha.1 hb.1))

through :
    (a b c : KademliaId)
    → IsId a
    → IsId b
    → IsId c
    → calc_distance (calc_distance a b) (calc_distance b c) ≡ calc_distance a c
through a b c ha hb hc =
    calc_distance_assoc a b (calc_distance b c) ha.is_bytes hb.is_bytes
      (calc_distance-IsId b c hb hc).is_bytes
    ∙ ap (calc_distance a) (calc_distance_cancel b c hb hc)

value_zeros : (n : ℕ) → value (replicate n 0) ≡ 0
unfolding value
value_zeros zero = refl
value_zeros (suc n) = omega (arith, value_zeros n)

eq_of_distance_zero : (a b : KademliaId) → IsId a → IsId b → value (calc_distance a b) ≡ 0 → a ≡ b
eq_of_distance_zero a b ha hb e = calc_distance-injective a a b ha ha hb (
    value-injective (calc_distance a a) (calc_distance a b) (calc_distance-IsId a a ha ha)
      (calc_distance-IsId a b ha hb)
      (rw (calc_distance_self a ha.is_bytes, value_zeros (length a)) (sym e)))

-- The distance is symmetric, is zero exactly between equal identifiers, and obeys the triangle
-- inequality, as the number that it writes.
pub distance_metric :
    (a b c : KademliaId)
    → IsId a
    → IsId b
    → IsId c
    → (calc_distance a b ≡ calc_distance b a)
      × ((value (calc_distance a b) ≡ 0) ↔ (a ≡ b))
      × (value (calc_distance a c) ≤ value (calc_distance a b) + value (calc_distance b c))
distance_metric a b c ha hb hc = (
  calc_distance_comm a b ha.is_bytes hb.is_bytes,
  (
    eq_of_distance_zero a b ha hb,
    λ e.
        ap (λ z. value (calc_distance a z)) (sym e)
        ∙ ap value (calc_distance_self a ha.is_bytes)
        ∙ value_zeros (length a),
  ),
  (rw (through a b c ha hb hc) at (
      let ab = calc_distance-IsId a b ha hb in
      let bc = calc_distance-IsId b c hb hc in
      value-calc_distance-le (calc_distance a b) (calc_distance b c) (ab.size ∙ sym bc.size)
        ab.is_bytes bc.is_bytes)),
)
