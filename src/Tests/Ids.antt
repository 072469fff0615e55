-- ===== src/Tests/Ids.antt =====
-- Identifiers: runs, and the properties at concrete identifiers.
use d7024e_lab.Kademlia.Id
use d7024e_lab.Prelude.{arith, refl, replicate, ◌++◌, ◌+◌, ◌↔◌, ◌∷◌, ◌≡◌, ◌≤◌}
use d7024e_lab.Kademlia.Id.{new_kademlia_id}
use d7024e_lab.Kademlia.Id.Metric.{distance_metric}
use d7024e_lab.Kademlia.Id.Order.{new_kademlia_id-string, value}
use d7024e_lab.Prelude.Bytes.Hex.{hex_decode, hex_encode}
use d7024e_lab.Prelude.Bytes.Text.{text}
use d7024e_lab.Tests.Data.{small, small-IsId}

string_of_small : Id.string (small 171) ≡ replicate 62 b'0' ++ text "ab"
unfolding Id.string hex_encode
string_of_small = refl

short_text_is_padded : new_kademlia_id (text "ff") ≡ 255 ∷ replicate 31 0
unfolding new_kademlia_id hex_decode
short_text_is_padded = refl

xor_of_small : Id.calc_distance (small 5) (small 3) ≡ small 6
unfolding Id.calc_distance
xor_of_small = refl

distance_metric_example :
    (Id.calc_distance (small 5) (small 3) ≡ Id.calc_distance (small 3) (small 5))
    × ((value (Id.calc_distance (small 5) (small 3)) ≡ 0) ↔ (small 5 ≡ small 3))
    × (value (Id.calc_distance (small 5) (small 9))
        ≤ value (Id.calc_distance (small 5) (small 3))
          + value (Id.calc_distance (small 3) (small 9)))
distance_metric_example =
    distance_metric (small 5) (small 3) (small 9) (small-IsId 5 (omega arith))
      (small-IsId 3 (omega arith)) (small-IsId 9 (omega arith))

new_kademlia_id-string_example : new_kademlia_id (Id.string (small 171)) ≡ small 171
new_kademlia_id-string_example = new_kademlia_id-string (small 171) (small-IsId 171 (omega arith))
