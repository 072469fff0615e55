-- ===== src/Tests/Retrievals.antt =====
-- Data lookups: the properties in a network of the nodes 0 and 5, where node 5 has a value and a
-- latest pointer.
use d7024e_lab.Kademlia.Id
use d7024e_lab.Kademlia.DataStore
use d7024e_lab.Kademlia.RoutingTable
use d7024e_lab.Kademlia.Shortlist
use d7024e_lab.Kademlia.Bucket
use d7024e_lab.Kademlia.Contact
use d7024e_lab.Kademlia.Lookup
use d7024e_lab.Registry.Validator
use d7024e_lab.Registry.Version
use d7024e_lab.Prelude.{
  All, Bool-cases, List, [], arith, false, inl, inr, refl, some, subst, true, ◌∷◌, ◌≡◌, ◌≢◌,
}
use d7024e_lab.Kademlia.Bucket.{Bucket, new_bucket}
use d7024e_lab.Kademlia.Bucket.Recency.{stored, touch, without}
use d7024e_lab.Kademlia.Contact.{Contact}
use d7024e_lab.Kademlia.DataLookup.{
  DataNetwork, Retrieval, accept, cache, check, get_local, iterate_data, judge, lookup_data_by_id,
  lookup_latest_pointer, parse_answer, probe_data, receive_all_data, receive_data, report,
  retrieved, search_from, search_network, take_answer,
}
use d7024e_lab.Kademlia.DataLookup.Answers.{IsDataConfined}
use d7024e_lab.Kademlia.DataLookup.Plain.{IsPlainAnswer, lookup_data_by_id-IsPlainAnswer}
use d7024e_lab.Kademlia.DataLookup.Pointer.{IsOrigin, lookup_latest_pointer-IsOrigin}
use d7024e_lab.Kademlia.DataLookup.Returns.{HasValidTable, lookup_data_by_id-returns}
use d7024e_lab.Kademlia.DataStore.{
  DataStore, check_key, get_record, key_of_hash, new_data_store, parse_existing, store, too_large,
  validate_latest_pointer_with_existing,
}
use d7024e_lab.Kademlia.DataStore.Settled.{IsPlain}
use d7024e_lab.Kademlia.DataStore.Wired.{if_at_hand, node_validate}
use d7024e_lab.Kademlia.Id.{IsId, KademliaId}
use d7024e_lab.Kademlia.Id.Order.{value}
use d7024e_lab.Kademlia.Lookup.{in_order, insert_at}
use d7024e_lab.Kademlia.Lookup.Valid.{IsNamed}
use d7024e_lab.Kademlia.RoutingTable.{RoutingTable, new_routing_table}
use d7024e_lab.Kademlia.RoutingTable.Valid.{after_add}
use d7024e_lab.Kademlia.Shortlist.{Shortlist}
use d7024e_lab.Prelude.Bytes.{Bytes, bytes_eq}
use d7024e_lab.Prelude.Bytes.Dict.{has, insert, lookup}
use d7024e_lab.Prelude.Bytes.Hex.{hex_decode, hex_encode}
use d7024e_lab.Prelude.Bytes.Text.{
  contains, equal_fold, has_prefix, is_space, lower_byte, split, split_parts, text, to_lower,
  trim_left, trim_right, trim_space,
}
use d7024e_lab.Registry.Crypto.{clean_hex, decode_signature_hex, verify}
use d7024e_lab.Registry.Domain.{
  is_valid_domain, is_valid_package_name, latest_pointer_dht_key_bytes, latest_pointer_key_string,
  normalize_domain,
}
use d7024e_lab.Registry.Outcome.{Result, Result-cases, err, err-ne-ok, failure, ok, ok-injective}
use d7024e_lab.Registry.Record.{
  LatestPointer, compare_pointers, dht_key_bytes, parse_latest_pointer, parse_version_record,
  pointer_payload_bytes, record_payload_bytes, validate_pointer, validate_record, verify_pointer,
  verify_record, zero_hash,
}
use d7024e_lab.Registry.Validator.{
  after_checks, check_arguments, check_existing, check_last, check_pointer, check_version,
  effective_depth, fetch, finish, next_hash, norm_hash, seen, start_walk,
  validate_latest_pointer_chain, validate_latest_pointer_chain_with_depth, visit, walk, walk_from,
}
use d7024e_lab.Registry.Version.{Version, parse_part, parse_parts, parse_version}
use d7024e_lab.Tests.Chains.{toy_crypto, toy_getter, toy_json, toy_pointer, toy_resolver}
use d7024e_lab.Tests.Data.{one_table, one_table-IsValid, peer, small}
use d7024e_lab.Tests.Lookups.{names, one_table-Covers}

-- The store of node 0, which trusts the owner key of the toy resolver.
abbrev pub own_store : DataStore.DataStore
own_store = record {
  entries = [];
  max_val_size = 0;
  dns_resolver = some toy_resolver;
  record_fetcher = some toy_getter;
}

abbrev pointer_target : KademliaId
pointer_target = latest_pointer_dht_key_bytes toy_crypto.sha256 (text "a.se") (text "p")

pointer_is_validated :
    DataStore.validate toy_crypto toy_json own_store pointer_target (2 ∷ []) ≡ some (ok tt)
unfolding DataStore.validate check_key parse_latest_pointer bytes_eq dht_key_bytes
    latest_pointer_dht_key_bytes latest_pointer_key_string too_large validate_pointer parse_existing
    validate_latest_pointer_with_existing validate_latest_pointer_chain
    validate_latest_pointer_chain_with_depth after_checks check_arguments check_pointer
    check_existing is_valid_domain trim_right trim_left to_lower trim_space contains split
    split_parts is_valid_package_name parse_version equal_fold zero_hash verify_pointer
    decode_signature_hex hex_decode clean_hex verify norm_hash hex_encode has_prefix is_space
    lower_byte normalize_domain compare_pointers parse_version_record pointer_payload_bytes
    record_payload_bytes validate_record verify_record check_version Validator.conclude
    effective_depth fetch finish next_hash seen start_walk visit walk walk_from Version.compare
    parse_part parse_parts check_last get_record key_of_hash lookup
pointer_is_validated = refl

-- Node 5 has the value 7 and nothing else.
abbrev helpful : DataNetwork
helpful = record { send_find_data_message = λ n t c. some (7 ∷ [], []); arrival = λ n i. i }

abbrev pub seven : KademliaId
seven = toy_crypto.sha256 (7 ∷ [])

pub seven-IsId : IsId seven
seven-IsId = record { size = refl; is_bytes = omega arith }

abbrev pub with_seven : DataStore.DataStore
with_seven = record own_store { entries = (seven, 7 ∷ []) ∷ [] }

abbrev five : Contact.Contact
five = record (peer 5) { distance = some (Id.calc_distance (small 5) seven) }

abbrev value_of_five : Retrieval
value_of_five = record {
  table = some (after_add one_table five);
  store = some with_seven;
  answer = retrieved (7 ∷ []) five;
}

value_is_found :
    lookup_data_by_id toy_crypto toy_json
      (peer 0)
      (some own_store)
      (some helpful)
      2
      3
      (some one_table)
      (some seven)
    ≡ some value_of_five
unfolding lookup_data_by_id get_local DataStore.get lookup search_network Lookup.start
    RoutingTable.find_closest_contacts RoutingTable.get_bucket_index RoutingTable.index_of_distance
    RoutingTable.scan_bytes RoutingTable.scan_byte RoutingTable.gather RoutingTable.sort
    RoutingTable.insert_sorted RoutingTable.closer Contact.less Id.less
    Bucket.get_contact_and_calc_distance Contact.calc_distance Id.calc_distance Shortlist.add
    Shortlist.add_one Shortlist.put_candidate Shortlist.new_shortlist Id.string hex_encode has
    insert bytes_eq Shortlist.len search_from iterate_data probe_data receive_all_data receive_data
    in_order insert_at take_answer judge cache accept report Shortlist.has_unqueried_in_top_k
    Shortlist.get_closest_unqueried Shortlist.get_active_candidates Shortlist.select
    Shortlist.sort_candidates Shortlist.insert_candidate Shortlist.any_unqueried
    Shortlist.take_unqueried Shortlist.mark_queried Shortlist.mark Shortlist.set_status
    RoutingTable.add_contact RoutingTable.add_known Bucket.add_contact Bucket.find_element
    Bucket.place Bucket.move_to_front Bucket.remove_at after_add touch stored without
    new_routing_table new_bucket Id.equals Id.new_kademlia_id_from_data DataStore.store check_key
    too_large
value_is_found = refl

toy_key_is_other : bytes_eq (dht_key_bytes toy_crypto toy_json toy_pointer) seven ≡ false
unfolding dht_key_bytes latest_pointer_dht_key_bytes latest_pointer_key_string normalize_domain
    trim_right to_lower trim_space bytes_eq
toy_key_is_other = refl

pointer_is_toy :
    (value : Bytes) (lp : LatestPointer)
    → bytes_eq value (2 ∷ []) ≡ true
    → parse_latest_pointer toy_json value ≡ ok lp
    → toy_pointer ≡ lp
unfolding parse_latest_pointer
pointer_is_toy value lp b e = elim (Result-cases (validate_pointer toy_pointer)) [
  | inl (x, v) ↦
      let p : Path (Result LatestPointer) (err x) (ok lp) = rw (parse_latest_pointer, b, v) at e in
      cc
  | inr (done, v) ↦
      let p : Path (Result LatestPointer) (ok toy_pointer) (ok lp) =
        rw (parse_latest_pointer, b, v) at e in
      ok-injective p
]

other_is_unread :
    (value : Bytes) (lp : LatestPointer)
    → bytes_eq value (2 ∷ []) ≡ false
    → parse_latest_pointer toy_json value ≢ ok lp
unfolding parse_latest_pointer
other_is_unread value lp b e = err-ne-ok failure lp (rw (parse_latest_pointer, b) at e)

-- The one pointer that is read is not of the key of 7.
pub seven_key-IsPlain : (value : Bytes) → IsPlain toy_crypto toy_json seven value
unfolding IsPlain
seven_key-IsPlain value lp e = elim (Bool-cases (bytes_eq value (2 ∷ []))) [
  | inl b ↦
      subst (λ x. bytes_eq (dht_key_bytes toy_crypto toy_json x) seven ≡ false)
        (pointer_is_toy value lp b e) toy_key_is_other
  | inr b ↦ absurd (other_is_unread value lp b e)
]

lookup_data_by_id-IsPlainAnswer_example :
    IsPlainAnswer toy_crypto toy_json (peer 0) (some own_store) seven value_of_five
lookup_data_by_id-IsPlainAnswer_example =
    lookup_data_by_id-IsPlainAnswer toy_crypto toy_json (peer 0) seven seven_key-IsPlain
      (some own_store) (some helpful) 2 3 (some one_table) value_is_found

-- Node 5 has the latest pointer.
abbrev publishing : DataNetwork
publishing = record { send_find_data_message = λ n t c. some (2 ∷ [], []); arrival = λ n i. i }

abbrev near_pointer : Contact.Contact
near_pointer = record (peer 5) { distance = some (Id.calc_distance (small 5) pointer_target) }

abbrev pointer_of_five : Retrieval
pointer_of_five = record {
  table = some (after_add one_table near_pointer);
  store = some own_store;
  answer = retrieved (2 ∷ []) near_pointer;
}

pointer_is_found :
    lookup_latest_pointer toy_crypto toy_json
      (peer 0)
      (some own_store)
      (some publishing)
      2
      3
      (some one_table)
      (text "a.se")
      (text "p")
    ≡ some (pointer_of_five, ok (toy_pointer, near_pointer))
unfolding DataStore.validate check_key parse_latest_pointer bytes_eq dht_key_bytes
    latest_pointer_dht_key_bytes latest_pointer_key_string too_large validate_pointer parse_existing
    validate_latest_pointer_with_existing validate_latest_pointer_chain
    validate_latest_pointer_chain_with_depth after_checks check_arguments check_pointer
    check_existing is_valid_domain trim_right trim_left to_lower trim_space contains split
    split_parts is_valid_package_name parse_version equal_fold zero_hash verify_pointer
    decode_signature_hex hex_decode clean_hex verify norm_hash hex_encode has_prefix is_space
    lower_byte normalize_domain compare_pointers parse_version_record pointer_payload_bytes
    record_payload_bytes validate_record verify_record check_version Validator.conclude
    effective_depth fetch finish next_hash seen start_walk visit walk walk_from Version.compare
    parse_part parse_parts check_last get_record key_of_hash lookup lookup_data_by_id get_local
    DataStore.get search_network Lookup.start RoutingTable.find_closest_contacts
    RoutingTable.get_bucket_index RoutingTable.index_of_distance RoutingTable.scan_bytes
    RoutingTable.scan_byte RoutingTable.gather RoutingTable.sort RoutingTable.insert_sorted
    RoutingTable.closer Contact.less Id.less Bucket.get_contact_and_calc_distance
    Contact.calc_distance Id.calc_distance Shortlist.add Shortlist.add_one Shortlist.put_candidate
    Shortlist.new_shortlist Id.string has insert Shortlist.len search_from iterate_data probe_data
    receive_all_data receive_data in_order insert_at take_answer judge cache accept report
    Shortlist.has_unqueried_in_top_k Shortlist.get_closest_unqueried Shortlist.get_active_candidates
    Shortlist.select Shortlist.sort_candidates Shortlist.insert_candidate Shortlist.any_unqueried
    Shortlist.take_unqueried Shortlist.mark_queried Shortlist.mark Shortlist.set_status
    RoutingTable.add_contact RoutingTable.add_known Bucket.add_contact Bucket.find_element
    Bucket.place Bucket.move_to_front Bucket.remove_at after_add touch stored without
    new_routing_table new_bucket Id.equals Id.new_kademlia_id_from_data DataStore.store
    lookup_latest_pointer parse_answer check node_validate if_at_hand
pointer_is_found = refl

lookup_latest_pointer-IsOrigin_example :
    IsOrigin toy_crypto toy_json (some own_store) pointer_target toy_pointer
lookup_latest_pointer-IsOrigin_example =
    lookup_latest_pointer-IsOrigin toy_crypto toy_json (some own_store) (peer 0) (some publishing) 2
      3 (some one_table) (text "a.se") (text "p") pointer_is_found

helpful-IsDataConfined : IsDataConfined names helpful seven
unfolding IsDataConfined
helpful-IsDataConfined n c value contacts e =
    let p : Path (List Contact.Contact) [] contacts = cc in subst (All (IsNamed names)) p tt

-- Node 0 has a store with no fetcher of its own.
lookup_data_by_id-returns_example :
    (r : Retrieval) × (lookup_data_by_id toy_crypto toy_json
        (peer 0)
        (some new_data_store)
        (some helpful)
        2
        3
        (some one_table)
        (some seven)
      ≡ some r)
    × HasValidTable r
lookup_data_by_id-returns_example =
    lookup_data_by_id-returns toy_crypto toy_json names seven (some (small 0)) (some new_data_store)
      helpful helpful-IsDataConfined seven_key-IsPlain 2 2 (omega arith) (peer 0) one_table refl
      one_table-IsValid seven-IsId one_table-Covers
