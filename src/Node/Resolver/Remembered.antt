-- ===== src/Node/Resolver/Remembered.antt =====
-- The resolver of the node remembers what the key manager gave (cmd/node/dns.go).
use d7024e_lab.Registry.KeyManager
use d7024e_lab.Registry.Dns
use d7024e_lab.Prelude.{
  Bool-cases, List, Option, [], ap, false, if◌then◌else◌, inl, inr, length, none, refl, some, subst,
  sym, true, ◌∙◌, ◌∷◌, ◌≡◌,
}
use d7024e_lab.Node.Resolver.{
  NodeDnsResolver, from_mock, from_records, lookup_from, lookup_owner_key, public_key_of, remember,
  right_size,
}
use d7024e_lab.Prelude.Bytes.{Bytes, bytes_eq, bytes_eq_self}
use d7024e_lab.Prelude.Bytes.Dict.{insert, lookup-insert}
use d7024e_lab.Prelude.Bytes.Text.{to_lower, trim_left, trim_right, trim_space}
use d7024e_lab.Registry.Crypto.{Crypto, public_key_size}
use d7024e_lab.Registry.Dns.{MockDnsResolver}
use d7024e_lab.Registry.Domain.{is_valid_domain, normalize_domain}
use d7024e_lab.Registry.KeyManager.{DomainKeyPair, FileSystem, KeyJson, KeyManager, file_name}
use d7024e_lab.Registry.KeyManager.Loaded.{load-delete}
use d7024e_lab.Registry.Outcome.{
  Result, empty_domain, err, err-ne-ok, invalid_domain, key_not_found, ok,
}

-- What loads is stored under a valid name.
load-valid_domain :
    (js : KeyJson) (fs : FileSystem) (cr : Crypto) (km : KeyManager) (domain : Bytes)
    (dkp : DomainKeyPair)
    → (KeyManager.load js fs cr km domain).1 ≡ ok dkp
    → is_valid_domain (normalize_domain domain) ≡ true
unfolding KeyManager.load
load-valid_domain js fs cr km domain dkp h =
    elim (Bool-cases (is_valid_domain (normalize_domain domain))) [
      | inl e ↦ e
      | inr e ↦
          absurd (let p : err invalid_domain ≡ ok dkp = rw e at h in err-ne-ok invalid_domain dkp p)
    ]

-- A valid name is not empty.
valid-nonempty : (s : Bytes) → is_valid_domain s ≡ true → bytes_eq s [] ≡ false
unfolding is_valid_domain normalize_domain trim_space trim_right trim_left to_lower bytes_eq
valid-nonempty [] h = absurd (let p : false ≡ true = h in cc)
valid-nonempty (c ∷ cs) h = refl

module _ (m : MockDnsResolver) (domain pub' : Bytes) (normal : normalize_domain domain ≡ domain)
    (valid : is_valid_domain domain ≡ true) where
  set_key-valid :
      Dns.set_key m domain pub' ≡ ok (record m { records = insert domain pub' m.records })
  unfolding Dns.set_key
  set_key-valid = rw (Dns.set_key, normal, valid-nonempty domain valid, valid) refl

  lookup-set :
      Dns.lookup_owner_key (record m { records = insert domain pub' m.records }) domain ≡ ok pub'
  unfolding Dns.lookup_owner_key Dns.found_key
  lookup-set =
      rw
        (
          Dns.lookup_owner_key,
          normal,
          valid-nonempty domain valid,
          lookup-insert domain domain pub' m.records,
          bytes_eq_self domain,
        )
        refl

right_size-ok : (pub' : Bytes) → length pub' ≡ public_key_size → right_size (ok pub') ≡ some pub'
unfolding right_size
right_size-ok pub' h = rw h refl

module _ (js : KeyJson) (fs : FileSystem) (cr : Crypto) (m : MockDnsResolver)
    (system : Option (Bytes → Result (List Bytes))) (km : KeyManager.KeyManager) (domain : Bytes)
    (dkp : DomainKeyPair) where
  abbrev at_first : NodeDnsResolver
  at_first = record { mock = some m; system = system; km = some km }

  -- The resolver after the key of the manager was looked up.
  abbrev pub remembering : NodeDnsResolver
  remembering = record {
    mock = some (record m { records = insert domain dkp.public_key m.records });
    system = system;
    km = some (KeyManager.load js fs cr km domain).0;
  }

  -- The same after the key was deleted.
  abbrev pub deleted : NodeDnsResolver
  deleted = record {
    mock = some (record m { records = insert domain dkp.public_key m.records });
    system = system;
    km = some (KeyManager.delete js fs (KeyManager.load js fs cr km domain).0 domain).0;
  }

  lookup_normal :
      (r : NodeDnsResolver) (k : KeyManager.KeyManager)
      → normalize_domain domain ≡ domain
      → is_valid_domain domain ≡ true
      → r.km ≡ some k
      → lookup_owner_key js fs cr r domain ≡ lookup_from js fs cr r k domain
  unfolding lookup_owner_key
  lookup_normal r k normal v e =
      subst
        (λ norm.
          (if bytes_eq norm [] then (r, err empty_domain) else elim r.km [
            | none ↦ (r, from_records r norm)
            | some j ↦ lookup_from js fs cr r j norm
          ])
          ≡ lookup_from js fs cr r k domain)
        (sym normal) (rw (valid-nonempty domain v, e) refl)

  lookup_first :
      normalize_domain domain ≡ domain
      → (KeyManager.load js fs cr km domain).1 ≡ ok dkp
      → length dkp.public_key ≡ public_key_size
      → lookup_owner_key js fs cr at_first domain ≡ (remembering, ok dkp.public_key)
  unfolding lookup_from public_key_of remember
  lookup_first normal h size =
      let v =
        subst (λ d. is_valid_domain d ≡ true) normal (load-valid_domain js fs cr km domain dkp h) in
      lookup_normal at_first km normal v refl
      ∙ rw
          (
            lookup_from,
            h,
            right_size-ok dkp.public_key size,
            remember,
            set_key-valid m domain dkp.public_key normal v,
          )
          refl

  lookup_again :
      normalize_domain domain ≡ domain
      → is_valid_domain domain ≡ true
      → length dkp.public_key ≡ public_key_size
      → fs.removable (file_name domain) ≡ true
      → (lookup_owner_key js fs cr deleted domain).1 ≡ ok dkp.public_key
  unfolding lookup_from public_key_of from_records from_mock right_size
  lookup_again normal v size removable =
      let km' = (KeyManager.load js fs cr km domain).0 in
      let gone : (KeyManager.load js fs cr (KeyManager.delete js fs km' domain).0 domain).1
          ≡ err key_not_found =
        (load-delete cr js fs km' domain domain
          (subst (λ d. is_valid_domain d ≡ true) (sym normal) v)
          (subst (λ d. fs.removable (file_name d) ≡ true) (sym normal) removable)).1
        ∙ rw (bytes_eq_self (normalize_domain domain)) refl in
      ap (λ x. x.1) (lookup_normal deleted (KeyManager.delete js fs km' domain).0 normal v refl)
      ∙ rw
          (
            lookup_from,
            gone,
            from_records,
            lookup-set m domain dkp.public_key normal v,
            right_size-ok dkp.public_key size,
          )
          refl

  -- For a domain in normal form whose key the key manager loads, and which has the size of a public
  -- key, the resolver gives that key and remembers it in the mock records. So it still gives the
  -- key after the key manager deleted it, also when the file of the key is gone.
  pub lookup_owner_key-delete :
      normalize_domain domain ≡ domain
      → (KeyManager.load js fs cr km domain).1 ≡ ok dkp
      → length dkp.public_key ≡ public_key_size
      → fs.removable (file_name domain) ≡ true
      → (lookup_owner_key js fs cr at_first domain ≡ (remembering, ok dkp.public_key))
        × ((KeyManager.load js fs cr
              (KeyManager.delete js fs (KeyManager.load js fs cr km domain).0 domain).0
              domain).1
            ≡ err key_not_found)
        × ((lookup_owner_key js fs cr deleted domain).1 ≡ ok dkp.public_key)
  lookup_owner_key-delete normal h size removable =
      let v =
        subst (λ d. is_valid_domain d ≡ true) normal (load-valid_domain js fs cr km domain dkp h) in
      let km' = (KeyManager.load js fs cr km domain).0 in
      (
        lookup_first normal h size,
        (load-delete cr js fs km' domain domain
              (subst (λ d. is_valid_domain d ≡ true) (sym normal) v)
              (subst (λ d. fs.removable (file_name d) ≡ true) (sym normal) removable)).1
            ∙ rw (bytes_eq_self (normalize_domain domain)) refl,
        lookup_again normal v size removable,
      )
