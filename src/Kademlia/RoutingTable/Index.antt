-- ===== src/Kademlia/RoutingTable/Index.antt =====
-- `GetBucketIndex` of kademlia/routingtable.go: the bucket is the place of the highest bit of the
-- distance.
use native.Mathlib.Nat.{
  pow-suc, one-le-pow, zero-add, one-mul, suc-add, div-lt_iff_lt-mul, div-add-mod, mod-lt,
  mul-le-mul_right, suc-mul,
}
use d7024e_lab.Prelude.{
  All, Bool-cases, [], ap, arith, inl, inr, length, ltb, none, refl, some, suc, zero, ℕ, ◌%◌, ◌*◌,
  ◌+◌, ◌-◌, ◌/◌, ◌<◌, ◌==◌, ◌^◌, ◌∷◌, ◌≡◌, ◌≤◌, ◌⊎◌,
}
use d7024e_lab.Kademlia.Id.{IsId, KademliaId}
use d7024e_lab.Kademlia.Id.Order.{value, value-lt}
use d7024e_lab.Kademlia.RoutingTable.{bucket_count, index_of_distance, scan_byte, scan_bytes}
use d7024e_lab.Prelude.Bytes.{IsByte}

two_pow-add : (a b : ℕ) → 2 ^ (a + b) ≡ 2 ^ a * 2 ^ b
two_pow-add zero b = simp (zero-add, one-mul)
two_pow-add (suc a) b =
    simp (suc-add, pow-suc) (omega (arith, ap (λ (t : ℕ). t * 2) (two_pow-add a b)))

byte_pow : (n : ℕ) → 256 ^ n ≡ 2 ^ (8 * n)
byte_pow zero = refl
byte_pow (suc n) =
    rw (ap (λ (t : ℕ). 2 ^ t) (let e : 8 * suc n ≡ 8 + 8 * n = omega arith in e))
      (omega (arith, pow-suc 256 n, two_pow-add 8 (8 * n), byte_pow n))

-- Of a number below `2 * p`, the bit worth `p` is clear exactly below `p`.
bit_test : (p x : ℕ) → 0 < p → x < 2 * p → (x / p % 2 == 0) ≡ ltb x p
bit_test p x hp h =
    let q : x / p < 2 = (div-lt_iff_lt-mul hp).1 h in
    elim (zero_or_one (x / p) q) [
      | inl e ↦ ground (arith, e, div-add-mod x p, mod-lt x hp, ap (λ (t : ℕ). p * t) e)
      | inr e ↦ ground (arith, e, div-add-mod x p, ap (λ (t : ℕ). p * t) e)
    ]
  where
    zero_or_one : (q : ℕ) → q < 2 → (q ≡ 0) ⊎ (q ≡ 1)
    zero_or_one q h = ground arith

-- The highest bit of `x`, if it has at most `n` bits.
abbrev HighBit : ℕ → ℕ → Type 0
HighBit e x = (2 ^ e ≤ x) × (x < 2 ^ suc e)

scan_byte_lem :
    (n x : ℕ)
    → n ≤ 8
    → x < 2 ^ n
    → ((scan_byte n x ≡ none) × (x ≡ 0))
      ⊎ ((e : ℕ) × (scan_byte n x ≡ some (7 - e)) × (e < n) × HighBit e x)
unfolding scan_byte
scan_byte_lem zero x le h = inl (refl, omega arith)
scan_byte_lem (suc n) x le h =
    let test = bit_test (2 ^ n) x (one-le-pow n 2 (omega arith)) (omega (arith, pow-suc 2 n)) in
    elim (Bool-cases (x / 2 ^ n % 2 == 0)) [
      | inl clear ↦
          let small : x < 2 ^ n = ground (arith, test) in
          elim (scan_byte_lem n x (omega arith) small) [
            | inl (e, z) ↦ inl (rw clear e, z)
            | inr (e, found, lt, high) ↦ inr (e, rw clear found, omega arith, high)
          ]
      | inr bit ↦
          let large : 2 ^ n ≤ x = ground (arith, test) in inr (n, rw bit, omega arith, (large, h))
    ]

scale_low : (a x p v : ℕ) → a ≤ x → a * p ≤ x * p + v
scale_low a x p v h = omega (arith, mul-le-mul_right p h)

scale_high : (a x p v : ℕ) → x < a → v < p → x * p + v < a * p
scale_high a x p v h hv = omega (arith, mul-le-mul_right p h, suc-mul x p)

-- The highest bit of a byte, with `n` bytes after it.
high_byte : (e x n v : ℕ) → HighBit e x → v < 256 ^ n → HighBit (e + 8 * n) (x * 256 ^ n + v)
high_byte e x n v h hv = (
  rw (two_pow-add e (8 * n), ← byte_pow n) (scale_low (2 ^ e) x (256 ^ n) v h.0),
  (let l : x * 256 ^ n + v < 2 ^ (suc e + 8 * n) =
        rw (two_pow-add (suc e) (8 * n), ← byte_pow n)
          (scale_high (2 ^ suc e) x (256 ^ n) v h.1 hv) in
      rw suc-add at l),
)

scan_bytes_lem :
    (i : ℕ) (d : KademliaId)
    → All IsByte d
    → ((scan_bytes i d ≡ none) × (value d ≡ 0))
      ⊎ ((m e : ℕ) × (scan_bytes i d ≡ some m)
          × (m + e + 1 ≡ 8 * i + 8 * length d)
          × HighBit e (value d))
unfolding scan_bytes value
scan_bytes_lem i [] h = inl (refl, refl)
scan_bytes_lem i (x ∷ xs) h = elim (scan_byte_lem 8 x (omega arith) h.0) [
  | inl (clear, z) ↦ elim (scan_bytes_lem (suc i) xs h.1) [
    | inl (e, zs) ↦ inl (rw (clear, scan_bytes) e, ground (arith, z, zs))
    | inr (m, e, found, sum, high) ↦ inr (
      m,
      e,
      rw (clear, scan_bytes) found,
      omega arith,
      (ground (arith, z, high), ground (arith, z, high)),
    )
  ]
  | inr (e, found, lt, high) ↦ inr (
    i * 8 + (7 - e),
    e + 8 * length xs,
    rw (found, scan_bytes),
    omega arith,
    high_byte e x (length xs) (value xs) high (value-lt xs h.1),
  )
]

-- The bucket index of a distance other than zero is the number of zero bits before its first one:
-- bucket `m` holds the distances from 2^(255-m) up to, but not including, 2^(256-m). The distance
-- zero gets the last index, 255.
pub index_of_distance_range :
    (d : KademliaId)
    → IsId d
    → ((value d ≡ 0) × (index_of_distance d ≡ 255))
      ⊎ ((index_of_distance d < bucket_count)
          × (2 ^ (255 - index_of_distance d) ≤ value d)
          × (value d < 2 ^ (256 - index_of_distance d)))
unfolding index_of_distance
index_of_distance_range d h = elim (scan_bytes_lem 0 d h.is_bytes) [
  | inl (e, z) ↦ inl (z, rw (e, index_of_distance))
  | inr (m, e, found, sum, high) ↦
      let s : m + e + 1 ≡ 256 = omega (arith, h.size) in
      rw (found, index_of_distance)
        (inr (
          omega arith,
          rw (let e1 : 255 - m ≡ e = omega arith in e1) high.0,
          rw (let e2 : 256 - m ≡ suc e = omega arith in e2) high.1,
        ))
]

-- Every index is below the number of buckets.
pub index_of_distance-lt : (d : KademliaId) → IsId d → index_of_distance d < bucket_count
index_of_distance-lt d h = elim (index_of_distance_range d h) [
  | inl (z, e) ↦ rw e (omega arith)
  | inr (lt, low, high) ↦ lt
]
