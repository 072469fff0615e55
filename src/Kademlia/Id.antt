-- ===== src/Kademlia/Id.antt =====
-- kademlia/kademliaid.go: 256-bit identifiers as byte lists, and their XOR distance.
pub mod Order
pub mod Metric
use d7024e_lab.Prelude.{
  All, Bool, [], bit_xor, false, if◌then◌else◌, length, ltb, suc, true, zero, ℕ, ◌%◌, ◌==◌, ◌∷◌,
  ◌≡◌,
}
use d7024e_lab.Prelude.Bytes.{Bytes, IsByte}
use d7024e_lab.Prelude.Bytes.Hex.{hex_decode, hex_encode}

abbrev pub KademliaId : Type 0
KademliaId = Bytes

-- The number of bytes of an identifier.
abbrev pub id_length : ℕ
id_length = 32

-- What the Go type `[IDLength]byte` says.
pub record IsId (id : KademliaId) : Type 0 where
  pub size : length id ≡ id_length
  pub is_bytes : All IsByte id

-- The loop of `NewKademliaID`: what is decoded goes to the front of a zeroed array.
unfoldable pub fill : ℕ → Bytes → KademliaId
fill zero decoded = []
fill (suc n) [] = 0 ∷ fill n []
fill (suc n) (d ∷ ds) = d ∷ fill n ds

-- The error of the decoder is dropped, what it decoded before it is kept.
unfoldable pub new_kademlia_id : Bytes → KademliaId
unfolding fill
new_kademlia_id data' = fill id_length (hex_decode data').0

-- `rolls` are the results of `rand.Intn(256)`, in order.
unfoldable pub new_random_from : ℕ → (ℕ → ℕ) → KademliaId
new_random_from zero rolls = []
new_random_from (suc n) rolls = rolls 0 % 256 ∷ new_random_from n (λ i. rolls (suc i))

unfoldable pub new_random_kademlia_id : (ℕ → ℕ) → KademliaId
unfolding new_random_from
new_random_kademlia_id rolls = new_random_from id_length rolls

unfoldable pub less : KademliaId → KademliaId → Bool
less (a ∷ as') (b ∷ bs) = if a == b then less as' bs else ltb a b
less _ _ = false

unfoldable pub equals : KademliaId → KademliaId → Bool
equals (a ∷ as') (b ∷ bs) = if a == b then equals as' bs else false
equals _ _ = true

unfoldable pub calc_distance : KademliaId → KademliaId → KademliaId
calc_distance (a ∷ as') (b ∷ bs) = bit_xor a b ∷ calc_distance as' bs
calc_distance _ _ = []

unfoldable pub string : KademliaId → Bytes
string id = hex_encode id

module _ (sha256 : Bytes → Bytes) where
  unfoldable pub new_kademlia_id_from_address : Bytes → KademliaId
  new_kademlia_id_from_address addr = sha256 addr

  unfoldable pub new_kademlia_id_from_data : Bytes → KademliaId
  new_kademlia_id_from_data data' = sha256 data'
