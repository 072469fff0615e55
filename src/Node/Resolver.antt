-- ===== src/Node/Resolver.antt =====
-- cmd/node/dns.go: the owner key of a domain from the key manager, the keys that were set, and the
-- system, in this order. The system's lookup of TXT records is a parameter.
pub mod Remembered
use d7024e_lab.Registry.KeyManager
use d7024e_lab.Registry.Dns
use d7024e_lab.Prelude.{List, Option, [], if◌then◌else◌, length, none, some, ◌==◌}
use d7024e_lab.Prelude.Bytes.{Bytes, bytes_eq}
use d7024e_lab.Registry.Crypto.{Crypto, public_key_size}
use d7024e_lab.Registry.Dns.{MockDnsResolver, new_mock_dns_resolver, system_lookup_owner_key}
use d7024e_lab.Registry.Domain.{normalize_domain}
use d7024e_lab.Registry.KeyManager.{DomainKeyPair, FileSystem, KeyJson, KeyManager}
use d7024e_lab.Registry.Outcome.{Result, domain_not_found, empty_domain, err, ok}

-- `system` is the lookup of TXT records of the system resolver.
pub record NodeDnsResolver : Type 0 where
  pub mock : Option MockDnsResolver
  pub system : Option (Bytes → Result (List Bytes))
  pub km : Option KeyManager.KeyManager

unfoldable pub new_node_dns_resolver : (Bytes → Result (List Bytes)) → NodeDnsResolver
new_node_dns_resolver lookup_txt = record {
  mock = some new_mock_dns_resolver;
  system = some lookup_txt;
  km = none;
}

unfoldable pub set_key_manager : NodeDnsResolver → Option KeyManager.KeyManager → NodeDnsResolver
set_key_manager r km = record r { km = km }

-- `err == nil && len(pub) == ed25519.PublicKeySize`
unfoldable pub right_size : Result Bytes → Option Bytes
right_size (err e) = none
right_size (ok pub') = if length pub' == public_key_size then some pub' else none

unfoldable pub public_key_of : Result DomainKeyPair → Result Bytes
public_key_of (err e) = err e
public_key_of (ok dkp) = ok dkp.public_key

-- `mock.SetKey`, whose error is dropped.
unfoldable pub remember : Option MockDnsResolver → Bytes → Bytes → Option MockDnsResolver
remember none norm pub' = none
remember (some m) norm pub' = elim (Dns.set_key m norm pub') [ ok m' ↦ some m' | err e ↦ some m ]

unfoldable pub from_mock : Option MockDnsResolver → Bytes → Option Bytes
unfolding right_size
from_mock none norm = none
from_mock (some m) norm = right_size (Dns.lookup_owner_key m norm)

unfoldable pub from_system : Option (Bytes → Result (List Bytes)) → Bytes → Option Bytes
unfolding right_size
from_system none norm = none
from_system (some lookup_txt) norm = right_size (system_lookup_owner_key lookup_txt norm)

-- The mock records, and then the system.
unfoldable pub from_records : NodeDnsResolver → Bytes → Result Bytes
unfolding from_mock from_system
from_records r norm = elim (from_mock r.mock norm) [
  | some pub' ↦ ok pub'
  | none ↦ elim (from_system r.system norm) [ some pub' ↦ ok pub' | none ↦ err domain_not_found ]
]

module _ (js : KeyJson) (fs : FileSystem) (cr : Crypto) where
  -- A key of the key manager is remembered in the mock records.
  unfoldable pub lookup_from :
      NodeDnsResolver → KeyManager.KeyManager → Bytes → NodeDnsResolver × Result Bytes
  unfolding remember public_key_of from_records
  lookup_from r km norm =
      let loaded = KeyManager.load js fs cr km norm in
      let r' = record r { km = some loaded.0 } in
      elim (right_size (public_key_of loaded.1)) [
        | some pub' ↦ (record r' { mock = remember r.mock norm pub' }, ok pub')
        | none ↦ (r', from_records r' norm)
      ]

  unfoldable pub lookup_owner_key : NodeDnsResolver → Bytes → NodeDnsResolver × Result Bytes
  unfolding lookup_from
  lookup_owner_key r domain =
      let norm = normalize_domain domain in
      if bytes_eq norm []
      then (r, err empty_domain)
      else elim r.km [ none ↦ (r, from_records r norm) | some km ↦ lookup_from r km norm ]

abbrev pub mock_or_new : Option MockDnsResolver → MockDnsResolver
mock_or_new none = new_mock_dns_resolver
mock_or_new (some m) = m

-- The mock resolver after a call of it, with its error.
unfoldable pub after_set :
    NodeDnsResolver → MockDnsResolver → Result MockDnsResolver → NodeDnsResolver × Result (Unit {0})
after_set r m (err e) = (record r { mock = some m }, err e)
after_set r m (ok m') = (record r { mock = some m' }, ok tt)

unfoldable pub set_key : NodeDnsResolver → Bytes → Bytes → NodeDnsResolver × Result (Unit {0})
unfolding after_set
set_key r domain pub' = let m = mock_or_new r.mock in after_set r m (Dns.set_key m domain pub')

unfoldable pub set_key_hex : NodeDnsResolver → Bytes → Bytes → NodeDnsResolver × Result (Unit {0})
unfolding after_set
set_key_hex r domain hex_key =
    let m = mock_or_new r.mock in after_set r m (Dns.set_key_hex m domain hex_key)

unfoldable pub list_domains : NodeDnsResolver → List Bytes
list_domains r = elim r.mock [ none ↦ [] | some m ↦ Dns.list_domains m ]
