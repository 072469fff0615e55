-- ===== src/Registry/Dns.antt =====
-- registry/dns.go: where the owner key of a domain is found. The lookup of TXT records is an
-- argument.
pub mod KeysFound
use d7024e_lab.Prelude.{
  Bool, List, Option, [], drop, false, if◌then◌else◌, length, ltb, map, none, not, some, true, ◌++◌,
  ◌==◌, ◌∷◌,
}
use d7024e_lab.Prelude.Bytes.{Bytes, bytes_eq}
use d7024e_lab.Prelude.Bytes.Dict.{Dict, insert, lookup, remove}
use d7024e_lab.Prelude.Bytes.Text.{
  has_prefix, split, text, to_lower, trim_left, trim_right, trim_space,
}
use d7024e_lab.Registry.Crypto.{decode_public_key_hex, encode_public_key_hex, is_quote}
use d7024e_lab.Registry.Domain.{is_valid_domain, normalize_domain}
use d7024e_lab.Registry.Outcome.{
  Result, domain_not_found, empty_domain, err, invalid_domain, invalid_owner_key,
  no_owner_key_record, ok, or_else, require, ◌>>=◌, ◌>>◌,
}

abbrev pub default_dns_txt_prefix : Bytes
default_dns_txt_prefix = text "kademlia-pk="

unfoldable pub format_dns_txt_record : Bytes → Bytes
format_dns_txt_record pub' = default_dns_txt_prefix ++ encode_public_key_hex pub'

pub record MockDnsResolver : Type 0 where
  pub records : Dict Bytes

abbrev pub new_mock_dns_resolver : MockDnsResolver
new_mock_dns_resolver = record { records = [] }

unfoldable pub set_key : MockDnsResolver → Bytes → Bytes → Result MockDnsResolver
set_key m domain pub' = do
  let norm = normalize_domain domain
  require (not (bytes_eq norm [])) empty_domain
  require (is_valid_domain norm) invalid_domain
  ok (record m { records = insert norm pub' m.records })

unfoldable pub set_key_hex : MockDnsResolver → Bytes → Bytes → Result MockDnsResolver
unfolding set_key
set_key_hex m domain hex_key = do pub' ← decode_public_key_hex hex_key; set_key m domain pub'

unfoldable pub remove_key : MockDnsResolver → Bytes → MockDnsResolver
remove_key m domain = record m { records = remove (normalize_domain domain) m.records }

unfoldable pub clear : MockDnsResolver → MockDnsResolver
clear m = record m { records = [] }

-- `m.records[norm]`
unfoldable pub found_key : Option Bytes → Result Bytes
found_key none = err domain_not_found
found_key (some key) = ok key

unfoldable pub lookup_owner_key : MockDnsResolver → Bytes → Result Bytes
unfolding found_key
lookup_owner_key m domain = do
  let norm = normalize_domain domain
  require (not (bytes_eq norm [])) empty_domain
  found_key (lookup norm m.records)

-- `strings.Trim` of the quotes.
abbrev pub unquote : Bytes → Bytes
unquote s = trim_right is_quote (trim_left is_quote s)

-- The inner loop: the first part with the prefix decides.
unfoldable pub key_of_parts : Bytes → List Bytes → Option (Result Bytes)
key_of_parts prefix [] = none
key_of_parts prefix (p ∷ ps) =
    let part = trim_space p in
    let rest = key_of_parts prefix ps in
    if has_prefix (to_lower part) (to_lower prefix)
    then some
        (or_else (decode_public_key_hex (trim_space (drop (length prefix) part))) invalid_owner_key)
    else rest

-- The outer loop.
unfoldable pub key_of_records : Bytes → List Bytes → Result Bytes
unfolding key_of_parts
key_of_records prefix [] = err no_owner_key_record
key_of_records prefix (r ∷ rs) =
    let rest = key_of_records prefix rs in
    elim (key_of_parts prefix (split b';' (unquote (trim_space r)))) [
      | some found ↦ found
      | none ↦ rest
    ]

abbrev pub or_default_prefix : Bytes → Bytes
or_default_prefix [] = default_dns_txt_prefix
or_default_prefix (c ∷ cs) = c ∷ cs

unfoldable pub parse_owner_key_from_txt_records : List Bytes → Bytes → Result Bytes
unfolding key_of_records
parse_owner_key_from_txt_records records prefix = key_of_records (or_default_prefix prefix) records

-- `SystemDNSResolver`, by its field `lookupTXT`.
unfoldable pub system_lookup_owner_key : (Bytes → Result (List Bytes)) → Bytes → Result Bytes
unfolding parse_owner_key_from_txt_records
system_lookup_owner_key lookup_txt domain = do
  let norm = normalize_domain domain
  require (not (bytes_eq norm [])) empty_domain
  records ← or_else (lookup_txt norm) domain_not_found
  parse_owner_key_from_txt_records records default_dns_txt_prefix

-- `<` on Go strings.
unfoldable pub text_less : Bytes → Bytes → Bool
text_less [] [] = false
text_less [] (d ∷ ds) = true
text_less (c ∷ cs) [] = false
text_less (c ∷ cs) (d ∷ ds) = if c == d then text_less cs ds else ltb c d

unfoldable pub insert_name : Bytes → List Bytes → List Bytes
unfolding text_less
insert_name s [] = s ∷ []
insert_name s (t ∷ ts) = if text_less t s then t ∷ insert_name s ts else s ∷ t ∷ ts

-- `sort.Strings`
unfoldable pub sort_names : List Bytes → List Bytes
unfolding insert_name
sort_names [] = []
sort_names (s ∷ ss) = insert_name s (sort_names ss)

-- `ListDomains` of the mock resolver.
unfoldable pub list_domains : MockDnsResolver → List Bytes
unfolding sort_names
list_domains m = sort_names (map (λ e. e.0) m.records)
