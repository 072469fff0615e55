-- ===== src/Registry/KeyManager/Loaded.antt =====
-- A key that was saved is loaded, and one that was deleted is not (registry/keymanager.go).
use mathlib.Core.List.{append_cancel_right}
use d7024e_lab.Prelude.{
  Bool-cases, Option-cases, ap, false, if◌then◌else◌, inl, inr, none, refl, some, subst, sym, true,
  ◌&&◌, ◌++◌, ◌∙◌, ◌≡◌,
}
use d7024e_lab.Prelude.Bytes.{Bytes, bytes_eq, bytes_eq_iff, bytes_eq_self}
use d7024e_lab.Prelude.Bytes.Dict.{Dict, insert, lookup, lookup-insert, lookup-remove, remove}
use d7024e_lab.Prelude.Bytes.Text.{text}
use d7024e_lab.Registry.Crypto.{Crypto}
use d7024e_lab.Registry.Domain.{is_valid_domain, normalize_domain}
use d7024e_lab.Registry.KeyManager.{
  DomainKeyPair, FileSystem, KeyJson, KeyManager, delete, file_name, load, load_domain_key_pair,
  load_file, load_under, save, save_to_file, save_under, to_dto,
}
use d7024e_lab.Registry.KeyManager.Kept.{HasKeySizes, load_domain_key_pair-to_dto}
use d7024e_lab.Registry.Outcome.{
  Result-cases, err, err-ne-ok, failure, invalid_domain, key_not_found, ok,
}

lookup_inserted : {V : Type 0} (k : Bytes) (v : V) (m : Dict V) → lookup k (insert k v m) ≡ some v
lookup_inserted k v m = lookup-insert k k v m ∙ rw (bytes_eq_self k) refl

lookup_removed : {V : Type 0} (k : Bytes) (m : Dict V) → lookup k (remove k m) ≡ none
lookup_removed k m = lookup-remove k k m ∙ rw (bytes_eq_self k) refl

module _ (cr : Crypto) (js : KeyJson) (fs : FileSystem) where
  -- What saving leaves, where it does not fail.
  save_under-ok :
      (km : KeyManager) (norm : Bytes) (dkp : DomainKeyPair)
      → (save_under js fs km norm dkp).1 ≡ ok tt
      → (files : Dict Bytes) × (save_under js fs km norm dkp
          ≡ (record km { keys = insert norm dkp km.keys; files = files }, ok tt))
        × (km.has_dir ≡ true
            → files ≡ insert (file_name norm) (js.marshal_key (to_dto dkp)) km.files)
  unfolding save_under save_to_file
  save_under-ok km norm dkp s = elim (Bool-cases km.has_dir) [
    | inr e ↦ (km.files, simp (save_under, e), λ d. absurd (let p : true ≡ false = sym d ∙ e in cc))
    | inl e ↦ elim (Bool-cases (fs.writable (file_name norm))) [
      | inr f ↦ absurd (
          let p : err failure ≡ ok tt = simp (save_under, e, save_to_file, f) at s in
          err-ne-ok failure tt p)
      | inl f ↦ (
        insert (file_name norm) (js.marshal_key (to_dto dkp)) km.files,
        simp (save_under, e, save_to_file, f),
        λ d. refl,
      )
    ]
  ]

  load_saved :
      (km : KeyManager) (norm : Bytes) (dkp : DomainKeyPair)
      → lookup norm km.keys ≡ some dkp
      → (km.has_dir ≡ true
          → load_domain_key_pair js fs cr (lookup (file_name norm) km.files) ≡ ok dkp)
      → (load_under js fs cr km norm).1 ≡ ok dkp
  unfolding load_under load_file
  load_saved km norm dkp k f = elim (Bool-cases km.has_dir) [
    | inr e ↦ rw (load_under, load_file, e) (rw k refl)
    | inl e ↦ simp (load_under, load_file, e, f e)
  ]

  load_under-save_under :
      (km : KeyManager) (norm : Bytes) (dkp : DomainKeyPair)
      → HasKeySizes dkp
      → js.unmarshal_key (js.marshal_key (to_dto dkp)) ≡ some (to_dto dkp)
      → (save_under js fs km norm dkp).1 ≡ ok tt
      → (load_under js fs cr (save_under js fs km norm dkp).0 norm).1 ≡ ok dkp
  load_under-save_under km norm dkp h r s =
      let (files, p, w) = save_under-ok km norm dkp s in
      subst (λ x. (load_under js fs cr x.0 norm).1 ≡ ok dkp) (sym p)
        (load_saved (record km { keys = insert norm dkp km.keys; files = files }) norm dkp
          (lookup_inserted norm dkp km.keys)
          (λ d.
            ap (λ x. load_domain_key_pair js fs cr (lookup (file_name norm) x)) (w d)
            ∙ ap (load_domain_key_pair js fs cr)
                (lookup_inserted (file_name norm) (js.marshal_key (to_dto dkp)) km.files)
            ∙ load_domain_key_pair-to_dto cr js fs dkp h r))

  -- A key pair of the right sizes, which JSON reads back, that was saved without an error is what
  -- `Load` gives, from the directory or without one, for every spelling of the domain.
  pub load-save :
      (km : KeyManager) (dkp : DomainKeyPair) (domain : Bytes)
      → HasKeySizes dkp
      → js.unmarshal_key (js.marshal_key (to_dto dkp)) ≡ some (to_dto dkp)
      → normalize_domain domain ≡ normalize_domain dkp.domain
      → (save js fs km (some dkp)).1 ≡ ok tt
      → (load js fs cr (save js fs km (some dkp)).0 domain).1 ≡ ok dkp
  unfolding load save
  load-save km dkp domain h r same_name s =
      elim (Bool-cases (is_valid_domain (normalize_domain dkp.domain))) [
        | inr e ↦
            absurd (let p : err invalid_domain ≡ ok tt = rw e at s in err-ne-ok invalid_domain tt p)
        | inl e ↦
            let s' : (save_under js fs km (normalize_domain dkp.domain) dkp).1 ≡ ok tt =
              rw e at s in
            rw (same_name, e) (load_under-save_under km (normalize_domain dkp.domain) dkp h r s')
      ]

  -- What loading depends on.
  load_under-agrees :
      (km km' : KeyManager) (norm : Bytes)
      → km'.has_dir ≡ km.has_dir
      → lookup norm km'.keys ≡ lookup norm km.keys
      → lookup (file_name norm) km'.files ≡ lookup (file_name norm) km.files
      → (load_under js fs cr km' norm).1 ≡ (load_under js fs cr km norm).1
  unfolding load_under load_file
  load_under-agrees km km' norm d k f =
      let g : load_file js fs cr km' norm ≡ load_file js fs cr km norm =
        rw (load_file, d, f) refl in
      elim (Result-cases (load_file js fs cr km norm)) [
        | inr (dkp, e) ↦ rw (load_under, g, e) refl
        | inl (x, e) ↦ elim (Option-cases (lookup norm km.keys)) [
          | inl n ↦ rw (load_under, g, e, k, n) refl
          | inr (v, n) ↦ rw (load_under, g, e, k, n) refl
        ]
      ]

  other_file : (a b : Bytes) → bytes_eq a b ≡ false → bytes_eq (file_name a) (file_name b) ≡ false
  unfolding file_name
  other_file a b e = elim (Bool-cases (bytes_eq (a ++ text ".json") (b ++ text ".json"))) [
    | inr f ↦ f
    | inl f ↦ absurd (
        let p : a ≡ b = append_cancel_right a b (text ".json") ((bytes_eq_iff _ _).0 f) in
        let q : bytes_eq a b ≡ true = (bytes_eq_iff a b).1 p in cc)
  ]

  -- The manager without a name.
  abbrev without_name : KeyManager → Bytes → KeyManager
  without_name km norm = record km {
    keys = remove norm km.keys;
    files =
        if km.has_dir && fs.removable (file_name norm)
        then remove (file_name norm) km.files
        else km.files;
  }

  load_removed :
      (km : KeyManager) (norm : Bytes)
      → fs.removable (file_name norm) ≡ true
      → (load_under js fs cr (without_name km norm) norm).1 ≡ err key_not_found
  unfolding load_under load_file load_domain_key_pair
  load_removed km norm r = elim (Bool-cases km.has_dir) [
    | inr e ↦ rw (load_under, load_file, e) (rw (lookup_removed norm km.keys) refl)
    | inl e ↦
        rw (load_under, load_file, e)
          (rw (r, lookup_removed (file_name norm) km.files, load_domain_key_pair)
            (rw (lookup_removed norm km.keys) refl))
  ]

  load_others :
      (km : KeyManager) (norm other : Bytes)
      → bytes_eq norm other ≡ false
      → (load_under js fs cr (without_name km norm) other).1 ≡ (load_under js fs cr km other).1
  load_others km norm other e =
      load_under-agrees km (without_name km norm) other refl
        (lookup-remove norm other km.keys ∙ rw e refl)
        (elim (Bool-cases (km.has_dir && fs.removable (file_name norm))) [
          | inr f ↦ rw f refl
          | inl f ↦ rw f (
              lookup-remove (file_name norm) (file_name other) km.files
              ∙ rw (other_file norm other e) refl)
        ])

  load-valid :
      (km : KeyManager) (domain norm : Bytes)
      → normalize_domain domain ≡ norm
      → is_valid_domain norm ≡ true
      → (load js fs cr km domain).1 ≡ (load_under js fs cr km norm).1
  unfolding load
  load-valid km domain norm e v = rw (load, e, v) refl

  load-invalid :
      (km : KeyManager) (domain : Bytes)
      → is_valid_domain (normalize_domain domain) ≡ false
      → (load js fs cr km domain).1 ≡ err invalid_domain
  unfolding load
  load-invalid km domain v = rw (load, v) refl

  delete-valid :
      (km : KeyManager) (domain : Bytes)
      → is_valid_domain (normalize_domain domain) ≡ true
      → delete js fs km domain ≡ (without_name km (normalize_domain domain), ok tt)
  unfolding delete
  delete-valid km domain v = rw (delete, v) refl

  -- After `Delete` of a valid domain, whose file can be removed, `Load` finds no key for any
  -- spelling of the domain, and what it gives for other domains does not change.
  pub load-delete :
      (km : KeyManager) (domain other : Bytes)
      → is_valid_domain (normalize_domain domain) ≡ true
      → fs.removable (file_name (normalize_domain domain)) ≡ true
      → ((delete js fs km domain).1 ≡ ok tt)
        × ((load js fs cr (delete js fs km domain).0 other).1 ≡ (
            if bytes_eq (normalize_domain domain) (normalize_domain other)
            then err key_not_found
            else (load js fs cr km other).1))
  load-delete km domain other v r =
      let norm = normalize_domain domain in
      let p = delete-valid km domain v in
      (
        ap (λ x. x.1) p,
        ap (λ x. (load js fs cr x.0 other).1) p
            ∙ elim (Bool-cases (bytes_eq norm (normalize_domain other))) [
              | inl e ↦
                  let o : normalize_domain other ≡ norm = sym ((bytes_eq_iff _ _).0 e) in
                  load-valid (without_name km norm) other norm o v
                  ∙ load_removed km norm r
                  ∙ rw e refl
              | inr e ↦ elim (Bool-cases (is_valid_domain (normalize_domain other))) [
                | inl w ↦
                    load-valid (without_name km norm) other (normalize_domain other) refl w
                    ∙ load_others km norm (normalize_domain other) e
                    ∙ sym (load-valid km other (normalize_domain other) refl w)
                    ∙ rw e refl
                | inr w ↦
                    load-invalid (without_name km norm) other w
                    ∙ sym (load-invalid km other w)
                    ∙ rw e refl
              ]
            ],
      )
