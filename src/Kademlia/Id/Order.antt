-- ===== src/Kademlia/Id/Order.antt =====
-- `Less` and `Equals` of kademlia/kademliaid.go as relations on identifiers.
use native.Mathlib.Nat.{pow-suc}
use d7024e_lab.Prelude.{
  All, [], ap, arith, if◌then◌else◌, length, ltb, refl, suc, sym, true, zero, ℕ, ◌*◌, ◌+◌, ◌<◌,
  ◌==◌, ◌^◌, ◌↔◌, ◌∙◌, ◌∷◌, ◌≡◌,
}
use d7024e_lab.Kademlia.Id.{
  IsId, KademliaId, equals, fill, id_length, less, new_kademlia_id, string,
}
use d7024e_lab.Prelude.Bytes.{Bytes, IsByte, bytes_eq, bytes_eq_iff}
use d7024e_lab.Prelude.Bytes.Hex.{hex_decode, hex_decode-hex_encode, hex_decode_bytes}

-- The number that an identifier writes, most significant byte first.
unfoldable pub value : KademliaId → ℕ
value [] = 0
value (b ∷ bs) = b * 256 ^ length bs + value bs

place : (b p v : ℕ) → b < 256 → v < p → b * p + v < 256 * p
place b p v h hv = grind arith

pub value-lt : (a : KademliaId) → All IsByte a → value a < 256 ^ length a
unfolding value
value-lt [] h = omega arith
value-lt (b ∷ bs) h =
    omega
      (arith, place b (256 ^ length bs) (value bs) h.0 (value-lt bs h.1), pow-suc 256 (length bs))

carry : (a b p v w : ℕ) → a < b → v < p → a * p + v < b * p + w
carry a b p v w h hv = grind arith

-- The first digit that differs decides the order of two numbers.
ltb_place :
    (a b p v w : ℕ)
    → v < p
    → w < p
    → (if a == b then ltb v w else ltb a b) ≡ ltb (a * p + v) (b * p + w)
ltb_place a b p v w hv hw = ground (arith, carry a b p v w, carry b a p w v)

pub less-eq-ltb-value :
    (a b : KademliaId)
    → length a ≡ length b
    → All IsByte a
    → All IsByte b
    → less a b ≡ ltb (value a) (value b)
unfolding less value
less-eq-ltb-value [] [] e ha hb = refl
less-eq-ltb-value [] (b ∷ bs) e ha hb = absurd (omega arith)
less-eq-ltb-value (a ∷ as') [] e ha hb = absurd (omega arith)
less-eq-ltb-value (a ∷ as') (b ∷ bs) e ha hb =
    let e' : length as' ≡ length bs = omega arith in
    rw (less-eq-ltb-value as' bs e' ha.1 hb.1, e')
      (ltb_place a b (256 ^ length bs) (value as') (value bs) (rw e' at (value-lt as' ha.1))
        (value-lt bs hb.1))

equals_bytes : (a b : KademliaId) → length a ≡ length b → equals a b ≡ bytes_eq a b
unfolding equals bytes_eq
equals_bytes [] [] e = refl
equals_bytes [] (b ∷ bs) e = absurd (omega arith)
equals_bytes (a ∷ as') [] e = absurd (omega arith)
equals_bytes (a ∷ as') (b ∷ bs) e = ground (arith, equals_bytes as' bs (omega arith))

-- `Less` is the order of the 256-bit numbers that the identifiers write, most significant byte
-- first.
pub less-value : (a b : KademliaId) → IsId a → IsId b → less a b ≡ ltb (value a) (value b)
less-value a b ha hb = less-eq-ltb-value a b (ha.size ∙ sym hb.size) ha.is_bytes hb.is_bytes

-- `Equals` holds exactly of equal identifiers.
pub equals_iff : (a b : KademliaId) → IsId a → IsId b → (equals a b ≡ true) ↔ (a ≡ b)
equals_iff a b ha hb = rw (equals_bytes a b (ha.size ∙ sym hb.size)) (bytes_eq_iff a b)

cancel_place : (a b p v w : ℕ) → v < p → w < p → a * p + v ≡ b * p + w → (a ≡ b) × (v ≡ w)
cancel_place a b p v w hv hw e = ground (arith, carry a b p v w, carry b a p w v)

eq_of_value :
    (a b : KademliaId)
    → length a ≡ length b
    → All IsByte a
    → All IsByte b
    → value a ≡ value b
    → a ≡ b
unfolding value
eq_of_value [] [] e ha hb h = refl
eq_of_value [] (b ∷ bs) e ha hb h = absurd (omega arith)
eq_of_value (a ∷ as') [] e ha hb h = absurd (omega arith)
eq_of_value (a ∷ as') (b ∷ bs) e ha hb h =
    let e' : length as' ≡ length bs = omega arith in
    let same : (a ≡ b) × (value as' ≡ value bs) =
      cancel_place a b (256 ^ length bs) (value as') (value bs) (rw e' at (value-lt as' ha.1))
        (value-lt bs hb.1) (rw (← ap (λ n. a * 256 ^ n + value as') e') h) in
    cc (same.0, eq_of_value as' bs e' ha.1 hb.1 same.1)

pub value-injective : (a b : KademliaId) → IsId a → IsId b → value a ≡ value b → a ≡ b
value-injective a b ha hb = eq_of_value a b (ha.size ∙ sym hb.size) ha.is_bytes hb.is_bytes

fill_exact : (n : ℕ) (ds : Bytes) → length ds ≡ n → fill n ds ≡ ds
unfolding fill
fill_exact zero [] e = refl
fill_exact zero (d ∷ ds) e = absurd (omega arith)
fill_exact (suc n) [] e = absurd (omega arith)
fill_exact (suc n) (d ∷ ds) e = ap (◌∷◌ d) (fill_exact n ds (omega arith))

-- Reading the hex form of an identifier gives the identifier back.
pub new_kademlia_id-string : (id : KademliaId) → IsId id → new_kademlia_id (string id) ≡ id
unfolding new_kademlia_id string
new_kademlia_id-string id h =
    rw (hex_decode-hex_encode id h.is_bytes) (fill_exact id_length id h.size)

fill_size : (n : ℕ) (ds : Bytes) → length (fill n ds) ≡ n
unfolding fill
fill_size zero ds = refl
fill_size (suc n) [] = ap suc (fill_size n [])
fill_size (suc n) (d ∷ ds) = ap suc (fill_size n ds)

fill_bytes : (n : ℕ) (ds : Bytes) → All IsByte ds → All IsByte (fill n ds)
unfolding fill
fill_bytes zero ds h = tt
fill_bytes (suc n) [] h = (omega arith, fill_bytes n [] tt)
fill_bytes (suc n) (d ∷ ds) h = (h.0, fill_bytes n ds h.1)

-- Whatever the text, `NewKademliaID` returns an identifier.
pub new_kademlia_id-IsId : (data' : Bytes) → IsId (new_kademlia_id data')
unfolding new_kademlia_id
new_kademlia_id-IsId data' = record {
  size = fill_size id_length (hex_decode data').0;
  is_bytes = fill_bytes id_length (hex_decode data').0 (hex_decode_bytes data');
}

-- Two identifiers have the same hex form only if they are equal.
pub string-injective : (a b : KademliaId) → IsId a → IsId b → string a ≡ string b → a ≡ b
string-injective a b ha hb e =
    sym (new_kademlia_id-string a ha) ∙ ap new_kademlia_id e ∙ new_kademlia_id-string b hb
