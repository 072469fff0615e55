-- ===== src/Registry/Dns/KeysFound.antt =====
-- The keys that are set and the records that are formatted are found again (registry/dns.go).
use d7024e_lab.Prelude.{
  All, All-append, All-replicate, Bool-cases, [], arith, drop, false, if◌then◌else◌, inl, inr,
  length, not-true, refl, replicate, some, subst, true, ℕ, ◌==◌, ◌∷◌, ◌≡◌,
}
use d7024e_lab.Prelude.Bytes.{Bytes, IsByte, bytes_eq, bytes_eq_iff}
use d7024e_lab.Prelude.Bytes.Dict.{insert, lookup-insert}
use d7024e_lab.Prelude.Bytes.Hex.{IsHexDigit, hex_encode, hex_encode-IsHexDigit}
use d7024e_lab.Prelude.Bytes.Text.{
  has_prefix, is_space, lower_byte, split_clean, to_lower, trim_left_clean, trim_right_clean,
  trim_space, trim_space_clean,
}
use d7024e_lab.Registry.Crypto.{
  decode_public_key_hex, encode_public_key_hex, is_quote, public_key_size,
}
use d7024e_lab.Registry.Crypto.Encode.{All-map_to, decode-encode, not_quote, not_space}
use d7024e_lab.Registry.Dns.{
  MockDnsResolver, default_dns_txt_prefix, format_dns_txt_record, found_key, key_of_parts,
  key_of_records, lookup_owner_key, parse_owner_key_from_txt_records, set_key,
}
use d7024e_lab.Registry.Domain.{normalize_domain}
use d7024e_lab.Registry.Outcome.{empty_domain, invalid_domain, ok, ok-injective, then-ok}

-- After a key was set for a domain, the resolver gives it for every spelling of the domain, and
-- gives for any other domain what it gave before.
pub lookup_owner_key-set_key :
    (m m' : MockDnsResolver) (domain pub' other : Bytes)
    → set_key m domain pub' ≡ ok m'
    → lookup_owner_key m' other ≡ (
        if bytes_eq (normalize_domain domain) (normalize_domain other)
        then ok pub'
        else lookup_owner_key m other)
unfolding set_key lookup_owner_key found_key
lookup_owner_key-set_key m m' domain pub' other h =
    let s1 = then-ok empty_domain h in
    let s2 = then-ok invalid_domain s1.1 in
    let made : MockDnsResolver = record m {
      records = insert (normalize_domain domain) pub' m.records;
    } in
    let eq : made ≡ m' = ok-injective s2.1 in
    subst
      (λ x. lookup_owner_key x other ≡ (
        if bytes_eq (normalize_domain domain) (normalize_domain other)
        then ok pub'
        else lookup_owner_key m other))
      eq
      (elim (Bool-cases (bytes_eq (normalize_domain domain) (normalize_domain other))) [
        | inl e ↦
            let n : bytes_eq (normalize_domain domain) [] ≡ false = not-true s1.0 in
            let n' : bytes_eq (normalize_domain other) [] ≡ false =
              subst (λ x. bytes_eq x [] ≡ false) ((bytes_eq_iff _ _).0 e) n in
            rw
              (
                lookup_owner_key,
                lookup-insert (normalize_domain domain) (normalize_domain other) pub' m.records,
                e,
                n',
              )
              refl
        | inr e ↦
            rw
              (
                lookup_owner_key,
                lookup-insert (normalize_domain domain) (normalize_domain other) pub' m.records,
                e,
              )
              refl
      ])

-- The text of a TXT record: the prefix, and hex digits.
formatted :
    (P : ℕ → Type 0) (pub' : Bytes)
    → ((c : ℕ) → IsHexDigit c → P c)
    → All P default_dns_txt_prefix
    → All IsByte pub'
    → All P (format_dns_txt_record pub')
unfolding format_dns_txt_record encode_public_key_hex
formatted P pub' f p h =
    All-append P default_dns_txt_prefix (hex_encode pub') p
      (All-map_to IsHexDigit P f (hex_encode pub') (hex_encode-IsHexDigit pub' h))

trim_formatted :
    (pub' : Bytes)
    → All IsByte pub'
    → trim_space (format_dns_txt_record pub') ≡ format_dns_txt_record pub'
unfolding is_space
trim_formatted pub' h = trim_space_clean _ (
    formatted (λ c. is_space c ≡ false) pub' not_space
      (
        refl,
        (refl, (refl, (refl, (refl, (refl, (refl, (refl, (refl, (refl, (refl, (refl, tt))))))))))),
      )
      h)

starts_with_prefix :
    (pub' : Bytes)
    → has_prefix (to_lower (format_dns_txt_record pub')) (to_lower default_dns_txt_prefix) ≡ true
unfolding has_prefix to_lower lower_byte format_dns_txt_record
starts_with_prefix pub' = refl

drop_prefix : (pub' : Bytes) → drop 12 (format_dns_txt_record pub') ≡ hex_encode pub'
unfolding format_dns_txt_record encode_public_key_hex
drop_prefix pub' = refl

key_is_read :
    (pub' : Bytes)
    → All IsByte pub'
    → length pub' ≡ public_key_size
    → decode_public_key_hex (hex_encode pub') ≡ ok pub'
unfolding encode_public_key_hex
key_is_read pub' h l =
    (decode-encode (replicate 64 0) pub' (All-replicate IsByte 64 0 (omega arith)) refl h l).1

part_found :
    (pub' : Bytes)
    → All IsByte pub'
    → length pub' ≡ public_key_size
    → key_of_parts default_dns_txt_prefix (format_dns_txt_record pub' ∷ []) ≡ some (ok pub')
unfolding key_of_parts
part_found pub' h l =
    rw
      (
        key_of_parts,
        trim_formatted pub' h,
        starts_with_prefix pub',
        drop_prefix pub',
        trim_space_clean (hex_encode pub') (
            All-map_to IsHexDigit (λ c. is_space c ≡ false) not_space (hex_encode pub')
              (hex_encode-IsHexDigit pub' h)),
        key_is_read pub' h l,
      )
      refl

not_semicolon : (c : ℕ) → IsHexDigit c → (c == b';') ≡ false
not_semicolon c h = let n = h.3 in ground arith

-- The owner key is read back from the TXT record that is formatted for it, with the default prefix.
pub parse_owner_key_from_txt_records-format_dns_txt_record :
    (pub' : Bytes)
    → All IsByte pub'
    → length pub' ≡ public_key_size
    → parse_owner_key_from_txt_records (format_dns_txt_record pub' ∷ []) [] ≡ ok pub'
unfolding parse_owner_key_from_txt_records key_of_records
parse_owner_key_from_txt_records-format_dns_txt_record pub' h l =
    let q =
      formatted (λ c. is_quote c ≡ false) pub' not_quote
        (unfold is_quote in
          (
            refl,
            (
              refl,
              (refl, (refl, (refl, (refl, (refl, (refl, (refl, (refl, (refl, (refl, tt)))))))))),
            ),
          ))
        h in
    let sc =
      formatted (λ c. (c == b';') ≡ false) pub' not_semicolon
        (
          refl,
          (
            refl,
            (refl, (refl, (refl, (refl, (refl, (refl, (refl, (refl, (refl, (refl, tt)))))))))),
          ),
        )
        h in
    rw
      (
        key_of_records,
        trim_formatted pub' h,
        trim_left_clean is_quote (format_dns_txt_record pub') q,
        trim_right_clean is_quote (format_dns_txt_record pub') q,
        split_clean b';' (format_dns_txt_record pub') sc,
        part_found pub' h l,
      )
      refl
