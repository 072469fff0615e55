-- ===== src/Registry/KeyManager.antt =====
-- registry/keymanager.go, and the key pairs of registry/crypto.go: the owner keys that a node keeps,
-- in memory and in the files of one directory. JSON, the failures of the file system, fresh keys and
-- the time are parameters. A file is known by its name in the directory, which can be made and read.
pub mod Kept
pub mod Loaded
use d7024e_lab.Prelude.{
  Bool, List, Option, [], drop, if◌then◌else◌, leb, length, map, none, some, take, true, ℕ, ◌&&◌,
  ◌++◌, ◌-◌, ◌∷◌,
}
use d7024e_lab.Prelude.Bytes.{Bytes, bytes_eq}
use d7024e_lab.Prelude.Bytes.Dict.{Dict, insert, lookup, remove}
use d7024e_lab.Prelude.Bytes.Text.{text}
use d7024e_lab.Registry.Crypto.{
  Crypto, decode_private_key_hex, decode_public_key_hex, encode_private_key_hex,
  encode_public_key_hex, sign, verify,
}
use d7024e_lab.Registry.Dns.{format_dns_txt_record, sort_names}
use d7024e_lab.Registry.Domain.{is_valid_domain, normalize_domain}
use d7024e_lab.Registry.Outcome.{
  Result, err, failure, invalid_domain, key_not_found, ok, require, ◌>>=◌, ◌>>◌,
}
use d7024e_lab.Registry.Validator.{seen}

-- `created_at` is a time, which is passed on only.
pub record DomainKeyPair : Type 0 where
  pub domain : Bytes
  pub public_key : Bytes
  pub private_key : Bytes
  pub created_at : ℕ

pub record DomainKeyDto : Type 0 where
  pub domain : Bytes
  pub public_key : Bytes
  pub private_key : Bytes
  pub created_at : ℕ

-- `encoding/json` on the DTO.
pub record KeyJson : Type 0 where
  pub marshal_key : DomainKeyDto → Bytes
  pub unmarshal_key : Bytes → Option DomainKeyDto

-- Whether a file can be written, and removed.
pub record FileSystem : Type 0 where
  pub writable : Bytes → Bool
  pub removable : Bytes → Bool

-- `files` is the directory `baseDir`; `has_dir` says that the name is not empty.
pub record KeyManager : Type 0 where
  pub has_dir : Bool
  pub keys : Dict DomainKeyPair
  pub files : Dict Bytes

-- `fresh` is what `ed25519.GenerateKey` gives, and `now` the time.
unfoldable pub generate_domain_key_pair : Bytes → Result (Bytes × Bytes) → ℕ → Result DomainKeyPair
generate_domain_key_pair domain fresh now = do
  let norm = normalize_domain domain
  require (is_valid_domain norm) invalid_domain
  pair ← fresh
  ok (record { domain = norm; public_key = pair.0; private_key = pair.1; created_at = now })

unfoldable pub sign_with : Crypto → Option DomainKeyPair → Bytes → Result Bytes
sign_with cr none msg = err failure
sign_with cr (some dkp) msg = ok (sign cr dkp.private_key msg)

unfoldable pub verify_with : Crypto → Option DomainKeyPair → Bytes → Bytes → Result (Unit {0})
verify_with cr none msg sig = err failure
verify_with cr (some dkp) msg sig = verify cr dkp.public_key msg sig

unfoldable pub public_key_hex : Option DomainKeyPair → Bytes
public_key_hex none = []
public_key_hex (some dkp) = encode_public_key_hex dkp.public_key

unfoldable pub dns_txt_record : Option DomainKeyPair → Bytes
dns_txt_record none = []
dns_txt_record (some dkp) = format_dns_txt_record dkp.public_key

-- `norm+".json"`
unfoldable pub file_name : Bytes → Bytes
file_name norm = norm ++ text ".json"

unfoldable pub to_dto : DomainKeyPair → DomainKeyDto
to_dto dkp = record {
  domain = dkp.domain;
  public_key = encode_public_key_hex dkp.public_key;
  private_key = encode_private_key_hex dkp.private_key;
  created_at = dkp.created_at;
}

abbrev pub new_key_manager : Bool → Dict Bytes → KeyManager
new_key_manager has_dir files = record { has_dir = has_dir; keys = []; files = files }

module _ (js : KeyJson) (fs : FileSystem) where
  -- `SaveToFile`, in the directory of the manager.
  unfoldable pub save_to_file : Dict Bytes → Bytes → DomainKeyPair → Result (Dict Bytes)
  unfolding to_dto
  save_to_file files name dkp =
      if fs.writable name then ok (insert name (js.marshal_key (to_dto dkp)) files) else err failure

  -- The file, if there is a directory, and then the map.
  unfoldable pub save_under : KeyManager → Bytes → DomainKeyPair → KeyManager × Result (Unit {0})
  unfolding save_to_file file_name
  save_under km norm dkp =
      elim (if km.has_dir then save_to_file km.files (file_name norm) dkp else ok km.files) [
        | err e ↦ (km, err e)
        | ok files ↦ (record km { keys = insert norm dkp km.keys; files = files }, ok tt)
      ]

  unfoldable pub save : KeyManager → Option DomainKeyPair → KeyManager × Result (Unit {0})
  unfolding save_under
  save km none = (km, err failure)
  save km (some dkp) =
      if is_valid_domain (normalize_domain dkp.domain)
      then save_under km (normalize_domain dkp.domain) dkp
      else (km, err invalid_domain)

  -- A failure to save comes with the pair that was generated.
  unfoldable pub generate :
      KeyManager
      → Bytes
      → Result (Bytes × Bytes)
      → ℕ
      → KeyManager × (Option DomainKeyPair × Result (Unit {0}))
  unfolding save
  generate km domain fresh now = elim (generate_domain_key_pair domain fresh now) [
    | err e ↦ (km, (none, err e))
    | ok dkp ↦ let r = save km (some dkp) in (r.0, (some dkp, r.1))
  ]

  unfoldable pub delete : KeyManager → Bytes → KeyManager × Result (Unit {0})
  delete km domain =
      let norm = normalize_domain domain in
      if is_valid_domain norm
      then (
        record km {
          keys = remove norm km.keys;
          files =
              if km.has_dir && fs.removable (file_name norm)
              then remove (file_name norm) km.files
              else km.files;
        },
        ok tt,
      )
      else (km, err invalid_domain)

  module _ (cr : Crypto) where
    unfoldable pub load_domain_key_pair : Option Bytes → Result DomainKeyPair
    load_domain_key_pair none = err failure
    load_domain_key_pair (some data') = elim (js.unmarshal_key data') [
      | none ↦ err failure
      | some dto ↦ elim (decode_public_key_hex dto.public_key) [
        | err e ↦ err e
        | ok pub' ↦ elim (decode_private_key_hex cr dto.private_key) [
          | err e ↦ err e
          | ok priv ↦ ok (record {
            domain = dto.domain;
            public_key = pub';
            private_key = priv;
            created_at = dto.created_at;
          })
        ]
      ]
    ]

    -- What the directory has for a name.
    unfoldable pub load_file : KeyManager → Bytes → Result DomainKeyPair
    unfolding load_domain_key_pair file_name
    load_file km norm =
        if km.has_dir then load_domain_key_pair (lookup (file_name norm) km.files) else err failure

    unfoldable pub load_under : KeyManager → Bytes → KeyManager × Result DomainKeyPair
    unfolding load_file
    load_under km norm = elim (load_file km norm) [
      | ok dkp ↦ (record km { keys = insert norm dkp km.keys }, ok dkp)
      | err e ↦ elim (lookup norm km.keys) [
        | some dkp ↦ (km, ok dkp)
        | none ↦ (km, err key_not_found)
      ]
    ]

    unfoldable pub load : KeyManager → Bytes → KeyManager × Result DomainKeyPair
    unfolding load_under
    load km domain =
        if is_valid_domain (normalize_domain domain)
        then load_under km (normalize_domain domain)
        else (km, err invalid_domain)

    -- `Sign` of the manager.
    unfoldable pub sign_for : KeyManager → Bytes → Bytes → KeyManager × Result Bytes
    unfolding load
    sign_for km domain msg =
        let r = load km domain in
        elim r.1 [ err e ↦ (r.0, err e) | ok dkp ↦ (r.0, sign_with cr (some dkp) msg) ]

unfoldable pub get_key : KeyManager → Bytes → Option DomainKeyPair
get_key km domain = lookup (normalize_domain domain) km.keys

-- `strings.HasSuffix(name, ".json")`, and the name without it.
unfoldable pub without_json : Bytes → Option Bytes
without_json name =
    if leb 5 (length name) && bytes_eq (drop (length name - 5) name) (text ".json")
    then some (take (length name - 5) name)
    else none

-- The loop over the directory. The files of the directory are no directories themselves.
unfoldable pub add_files : List Bytes → Dict Bool → Dict Bool
unfolding without_json
add_files [] seen = seen
add_files (name ∷ names) seen = elim (without_json name) [
  | none ↦ add_files names seen
  | some base ↦ add_files names (
      if is_valid_domain (normalize_domain base)
      then insert (normalize_domain base) true seen
      else seen)
]

unfoldable pub add_domains : List Bytes → Dict Bool → Dict Bool
add_domains [] seen = seen
add_domains (d ∷ ds) seen = add_domains ds (insert d true seen)

unfoldable pub list_domains : KeyManager → List Bytes
unfolding add_domains add_files sort_names
list_domains km =
    let seen = add_domains (map (λ e. e.0) km.keys) [] in
    sort_names
      (map (λ e. e.0) (if km.has_dir then add_files (map (λ e. e.0) km.files) seen else seen))
