-- ===== src/Kademlia/Join/Random.antt =====
-- The identifiers that `generateRandomIDForBucket` of kademlia/kademlia.go makes.
use native.Mathlib.Nat.{
  one-le-pow, add-div_right, div-eq_of_lt, pow-le-pow_right, pow-suc, div-eq_of_eq-mul_left,
  div-le_self,
}
use d7024e_lab.Kademlia.Id
use d7024e_lab.Kademlia.RoutingTable
use d7024e_lab.Prelude.{
  All, Bool-cases, [], ap, arith, bit_xor, inl, inr, leb, length, ltb, refl, some, subst, suc, sym,
  zero, ℕ, ◌%◌, ◌*◌, ◌+◌, ◌-◌, ◌/◌, ◌<◌, ◌==◌, ◌^◌, ◌∙◌, ◌∷◌, ◌≡◌, ◌≤◌,
}
use d7024e_lab.Kademlia.Id.{IsId, KademliaId}
use d7024e_lab.Kademlia.Join.{
  clear_bit, generate_random_id_for_bucket, randomize_from, randomize_low, set_bit,
}
use d7024e_lab.Kademlia.RoutingTable.{RoutingTable, index_of_distance, scan_byte, scan_bytes}
use d7024e_lab.Prelude.Bits.{
  bit_xor-lt, bit_xor-shift, bit_xor_assoc, bit_xor_comm, bit_xor_self, half-shift, zero-bit_xor,
}
use d7024e_lab.Prelude.Bytes.{IsByte}

-- Numbers that agree but for the `n` lowest bits agree but for one more.
agree_more : (n x y : ℕ) → x / 2 ^ n ≡ y / 2 ^ n → x / 2 ^ suc n ≡ y / 2 ^ suc n
agree_more n x y e = sym (half-shift n x) ∙ ap (λ (t : ℕ). t / 2) e ∙ half-shift n y

set_bit_above : (n x : ℕ) → set_bit n x / 2 ^ suc n ≡ x / 2 ^ suc n
unfolding set_bit
set_bit_above n x = elim (Bool-cases (x / 2 ^ n % 2 == 1)) [
  | inl e ↦ rw e refl
  | inr e ↦
      let s = add-div_right x (one-le-pow n 2 (omega arith)) in
      let even : x / 2 ^ n % 2 ≡ 0 = ground (arith, e) in
      rw e (sym (half-shift n (x + 2 ^ n)) ∙ (omega (arith, s, even, half-shift n x)))
]

clear_bit_above : (n x : ℕ) → clear_bit n x / 2 ^ suc n ≡ x / 2 ^ suc n
unfolding clear_bit
clear_bit_above n x = elim (Bool-cases (x / 2 ^ n % 2 == 1)) [
  | inr e ↦ rw e refl
  | inl e ↦
      let odd : x / 2 ^ n % 2 ≡ 1 = ground (arith, e) in
      let big : 2 ^ n ≤ x = elim (Bool-cases (leb (2 ^ n) x)) [
        | inl l ↦ ground (arith, l)
        | inr l ↦
            absurd (omega (arith, odd, div-eq_of_lt (let lt : x < 2 ^ n = ground (arith, l) in lt)))
      ] in
      let s = add-div_right (x - 2 ^ n) (one-le-pow n 2 (omega arith)) in
      let back : x - 2 ^ n + 2 ^ n ≡ x = omega (arith, big) in
      let s' : x / 2 ^ n ≡ (x - 2 ^ n) / 2 ^ n + 1 =
        subst (λ (t : ℕ). t / 2 ^ n ≡ (x - 2 ^ n) / 2 ^ n + 1) back s in
      rw e (sym (half-shift n (x - 2 ^ n)) ∙ (omega (arith, s', odd, half-shift n x)))
]

-- The loop changes none but the bits below the flipped one.
randomize_low_above : (n : ℕ) (rolls : ℕ → ℕ) (x : ℕ) → randomize_low n rolls x / 2 ^ n ≡ x / 2 ^ n
unfolding randomize_low
randomize_low_above zero rolls x = refl
randomize_low_above (suc n) rolls x =
    let y = randomize_low n rolls x in
    let rest : y / 2 ^ suc n ≡ x / 2 ^ suc n = agree_more n y x (randomize_low_above n rolls x) in
    elim (Bool-cases (rolls n % 2 == 1)) [
      | inl e ↦ rw e (set_bit_above n y ∙ rest)
      | inr e ↦ rw e (clear_bit_above n y ∙ rest)
    ]

randomize_low-lt :
    (n : ℕ) (rolls : ℕ → ℕ) (x : ℕ) → n ≤ 8 → x < 2 ^ 8 → randomize_low n rolls x < 2 ^ 8
randomize_low-lt n rolls x le h =
    let y = randomize_low n rolls x in
    let e : y / 2 ^ 8 ≡ x / 2 ^ 8 =
      agree_up (8 - n) n 8 y x (omega (arith, le)) (randomize_low_above n rolls x) in
    let z : x / 2 ^ 8 ≡ 0 = div-eq_of_lt h in omega (arith, e, z)
  where
    agree_up : (k n m x y : ℕ) → m ≡ n + k → x / 2 ^ n ≡ y / 2 ^ n → x / 2 ^ m ≡ y / 2 ^ m
    agree_up zero n m x y top e =
        let o : n ≡ m = omega (arith, top) in subst (λ (i : ℕ). x / 2 ^ i ≡ y / 2 ^ i) o e
    agree_up (suc k) n m x y top e =
        agree_up k (suc n) m x y (omega (arith, top)) (agree_more n x y e)

-- Only one bit is left of a number from the place of its highest bit on, and none above it.
above_high : (off n x : ℕ) → x / 2 ^ off ≡ 1 → off < n → x / 2 ^ n ≡ 0
above_high off zero x e lt = absurd (omega (arith, lt))
above_high off (suc n) x e lt = elim (Bool-cases (ltb off n)) [
  | inl l ↦ omega (arith, above_high off n x e (ground (arith, l)), half-shift n x)
  | inr l ↦
      let same_place : off ≡ n = ground (arith, l, lt) in
      omega (arith, subst (λ (m : ℕ). x / 2 ^ m ≡ 1) same_place e, half-shift n x)
]

-- The scan of a byte stops at its highest bit.
scan_byte_high : (off n x : ℕ) → x / 2 ^ off ≡ 1 → off < n → scan_byte n x ≡ some (7 - off)
unfolding scan_byte
scan_byte_high off zero x e lt = absurd (omega (arith, lt))
scan_byte_high off (suc n) x e lt = elim (Bool-cases (ltb off n)) [
  | inl l ↦
      let below : off < n = ground (arith, l) in
      rw (above_high off n x e below) (scan_byte_high off n x e below)
  | inr l ↦ let same_place : off ≡ n = ground (arith, l, lt) in rw (← same_place, e) refl
]

-- The distance of the byte with the flipped bit.
flipped_byte :
    (off : ℕ) (rolls : ℕ → ℕ) (x : ℕ)
    → off < 8
    → x < 2 ^ 8
    → scan_byte 8 (bit_xor (randomize_low off rolls (bit_xor x (2 ^ off))) x) ≡ some (7 - off)
flipped_byte off rolls x lt h =
    let q = x / 2 ^ off in
    let y = randomize_low off rolls (bit_xor x (2 ^ off)) in
    let one_left : 2 ^ off / 2 ^ off ≡ 1 =
      div-eq_of_eq-mul_left (one-le-pow off 2 (omega arith)) (omega arith) in
    let flipped : y / 2 ^ off ≡ bit_xor q 1 =
      randomize_low_above off rolls (bit_xor x (2 ^ off))
      ∙ bit_xor-shift off x (2 ^ off)
      ∙ ap (bit_xor q) one_left in
    let small : q < 2 ^ 8 = omega (arith, div-le_self x (2 ^ off), h) in
    let back : bit_xor (bit_xor q 1) q ≡ 1 =
      bit_xor_comm 8 (bit_xor q 1) q (bit_xor-lt 8 q 1 small (omega arith)) small
      ∙ sym (bit_xor_assoc 8 q q 1 small small (omega arith))
      ∙ ap (λ (t : ℕ). bit_xor t 1) (bit_xor_self 8 q small)
      ∙ zero-bit_xor 1 in
    scan_byte_high off 8 (bit_xor y x)
      (bit_xor-shift off y x ∙ ap (λ (t : ℕ). bit_xor t q) flipped ∙ back) lt

scan_flipped :
    (n i off : ℕ) (rolls : ℕ → ℕ) (id : KademliaId)
    → n < length id
    → All IsByte id
    → off < 8
    → scan_bytes i (Id.calc_distance (randomize_from n off rolls id) id)
      ≡ some ((i + n) * 8 + (7 - off))
unfolding scan_bytes Id.calc_distance randomize_from
scan_flipped n i off rolls [] lt h b = absurd (omega (arith, lt))
scan_flipped zero i off rolls (x ∷ xs) lt h b =
    rw (scan_bytes, flipped_byte off rolls x b h.0)
      (ap some (let e : i * 8 + (7 - off) ≡ (i + 0) * 8 + (7 - off) = omega arith in e))
scan_flipped (suc n) i off rolls (x ∷ xs) lt h b =
    rw (bit_xor_self 8 x h.0, scan_byte)
      (scan_flipped n (suc i) off rolls xs (omega (arith, lt)) h.1 b
        ∙ ap some
            (let e : (suc i + n) * 8 + (7 - off) ≡ (i + suc n) * 8 + (7 - off) = omega arith in e))

-- What `rand.Intn` gives is an identifier.
new_random_from_size : (n : ℕ) (rolls : ℕ → ℕ) → length (Id.new_random_from n rolls) ≡ n
unfolding Id.new_random_from
new_random_from_size zero rolls = refl
new_random_from_size (suc n) rolls = ap suc (new_random_from_size n (λ i. rolls (suc i)))

new_random_from_bytes : (n : ℕ) (rolls : ℕ → ℕ) → All IsByte (Id.new_random_from n rolls)
unfolding Id.new_random_from
new_random_from_bytes zero rolls = tt
new_random_from_bytes (suc n) rolls = (omega arith, new_random_from_bytes n (λ i. rolls (suc i)))

randomize_from_size :
    (n off : ℕ) (rolls : ℕ → ℕ) (id : KademliaId)
    → length (randomize_from n off rolls id) ≡ length id
unfolding randomize_from
randomize_from_size n off rolls [] = refl
randomize_from_size zero off rolls (x ∷ xs) =
    ap suc (new_random_from_size (length xs) (λ i. rolls (off + i)))
randomize_from_size (suc n) off rolls (x ∷ xs) = ap suc (randomize_from_size n off rolls xs)

bit-lt : (off : ℕ) → off < 8 → 2 ^ off < 2 ^ 8
bit-lt off lt =
    let up : 2 ^ suc off ≤ 2 ^ 8 = pow-le-pow_right (omega arith) {j = 8} (omega (arith, lt)) in
    omega (arith, up, pow-suc 2 off, one-le-pow off 2 (omega arith))

randomize_from_bytes :
    (n off : ℕ) (rolls : ℕ → ℕ) (id : KademliaId)
    → off < 8
    → All IsByte id
    → All IsByte (randomize_from n off rolls id)
unfolding randomize_from
randomize_from_bytes n off rolls [] lt h = tt
randomize_from_bytes zero off rolls (x ∷ xs) lt h = (
  randomize_low-lt off rolls (bit_xor x (2 ^ off)) (omega (arith, lt))
      (bit_xor-lt 8 x (2 ^ off) h.0 (bit-lt off lt)),
  new_random_from_bytes (length xs) (λ i. rolls (off + i)),
)
randomize_from_bytes (suc n) off rolls (x ∷ xs) lt h =
    (h.0, randomize_from_bytes n off rolls xs lt h.1)

new_random_kademlia_id-IsId : (rolls : ℕ → ℕ) → IsId (Id.new_random_kademlia_id rolls)
unfolding Id.new_random_kademlia_id
new_random_kademlia_id-IsId rolls = record {
  size = new_random_from_size Id.id_length rolls;
  is_bytes = new_random_from_bytes Id.id_length rolls;
}

-- The identifier that is made for a bucket is one, and belongs into that bucket of the node's
-- routing table, whatever the random numbers are; past the last bucket it is the one that
-- `NewRandomKademliaID` makes of the random numbers.
pub generate_random_id_for_bucket_lem :
    (me_id : KademliaId) (rolls : ℕ → ℕ) (index : ℕ)
    → IsId me_id
    → IsId (generate_random_id_for_bucket (some me_id) rolls index)
      × (index < RoutingTable.bucket_count
          → index_of_distance
              (Id.calc_distance (generate_random_id_for_bucket (some me_id) rolls index) me_id)
            ≡ index)
      × (RoutingTable.bucket_count ≤ index
          → generate_random_id_for_bucket (some me_id) rolls index
            ≡ Id.new_random_kademlia_id rolls)
unfolding generate_random_id_for_bucket index_of_distance
generate_random_id_for_bucket_lem me_id rolls index h =
    elim (Bool-cases (leb RoutingTable.bucket_count index)) [
      | inl e ↦ (
        rw e (new_random_kademlia_id-IsId rolls),
        (λ l. absurd (ground (arith, e, l))),
        λ l. rw e refl,
      )
      | inr e ↦
          let lt : index < 256 = ground (arith, e) in
          let low : 7 - index % 8 < 8 = omega arith in
          let s =
            scan_flipped (index / 8) 0 (7 - index % 8) rolls me_id (omega (arith, h.size, lt))
              h.is_bytes low in
          (
            rw e (record {
              size = randomize_from_size (index / 8) (7 - index % 8) rolls me_id ∙ h.size;
              is_bytes =
                  randomize_from_bytes (index / 8) (7 - index % 8) rolls me_id low h.is_bytes;
            }),
            (λ l. rw (e, index_of_distance, s) (omega arith)),
            λ l. absurd (ground (arith, e, l)),
          )
    ]
