-- ===== src/Registry/Validator/Accepted.antt =====
-- What the acceptance of a latest pointer means (registry/validator.go).
use d7024e_lab.Registry.Version
use d7024e_lab.Prelude.{
  Bool, List, Option, [], and-true, ap, arith, false, inl, inr, none, not-true, refl, some, subst,
  sym, true, ◌∙◌, ◌∷◌, ◌≡◌, ◌≢◌, ◌⊎◌,
}
use d7024e_lab.Prelude.Bytes.{Bytes, bytes_eq, bytes_eq_iff}
use d7024e_lab.Prelude.Bytes.Text.{
  equal_fold, is_space, lower_byte, to_lower, trim_left, trim_right, trim_space,
}
use d7024e_lab.Registry.Crypto.{Crypto}
use d7024e_lab.Registry.Outcome.{
  bind-ok, domain_mismatch, history_fork, invalid_latest_pointer, ok, ok-injective, or_else,
  or_else-ok, then-ok, unauthorized, version_rollback,
}
use d7024e_lab.Registry.Record.{
  Json, LatestPointer, Resolver, compare_pointers, validate_pointer, verify_pointer, zero_hash,
}
use d7024e_lab.Registry.Validator.{Getter, check_existing, check_pointer, is_present, norm_hash}
use d7024e_lab.Registry.Validator.Sound.{Chain, ends}
use d7024e_lab.Registry.Version.{Comparison, Version, above, below, is_above, parse_version, same}

abbrev pub no_version : Version.Version
no_version = record { major = 0; minor = 0; patch = 0 }

above-only : (c : Comparison) → is_above c ≡ true → c ≡ above
above-only below h = cc
above-only same h = cc
above-only above h = refl

module _ (lp : LatestPointer) where
  -- Where the chain must end: at the existing pointer's record, all versions above that pointer's.
  unfoldable pub Continues : Option LatestPointer → Bytes → Version.Version → Type 0
  Continues none target last = target ≡ norm_hash zero_hash
  Continues (some existing) target last =
      (target ≡ norm_hash existing.version_record_hash)
      × (existing.domain ≡ lp.domain)
      × (existing.package_name ≡ lp.package_name)
      × (compare_pointers lp existing ≡ ok above)
      × (ver : Version.Version) × (parse_version existing.version ≡ ok ver)
      × (is_above (Version.compare last ver) ≡ true)

  unfoldable pub Agrees : LatestPointer → Bytes → Type 0
  Agrees existing target =
      (target ≡ existing.version_record_hash)
      × (existing.domain ≡ lp.domain)
      × (existing.package_name ≡ lp.package_name)
      × (compare_pointers lp existing ≡ ok above)

  pub check_existing-ok :
      (existing : LatestPointer) {target : Bytes}
      → check_existing lp (some existing) ≡ ok target
      → Agrees existing target
  unfolding check_existing Agrees
  check_existing-ok existing h =
      let s1 = bind-ok (validate_pointer existing) h in
      let s2 = then-ok invalid_latest_pointer s1.2 in
      let s3 = then-ok domain_mismatch s2.1 in
      let s4 = bind-ok (compare_pointers lp existing) s3.1 in
      let s5 = then-ok version_rollback s4.2 in
      let s6 = then-ok history_fork s5.1 in
      let agree = and-true s3.0 in
      (
        sym (ok-injective s6.1),
        (bytes_eq_iff _ _).0 agree.0,
        (bytes_eq_iff _ _).0 agree.1,
        s4.1 ∙ ap ok (above-only s4.0 s5.0),
      )

module _ (cr : Crypto) (js : Json) (lp : LatestPointer) where
  pub record Accepted (existing : Option LatestPointer) (resolver : Resolver) (getter : Getter)
      (saves : List (Bytes × Bytes)) : Type 0 where
    pub owner : Bytes
    pub target : Bytes
    pub last : Version.Version
    pub valid : validate_pointer lp ≡ ok tt
    pub owned : resolver lp.domain ≡ ok owner
    pub signed : verify_pointer cr js lp owner ≡ ok tt
    pub chain :
        Chain cr js lp owner getter target
          (is_present existing)
          true
          no_version
          (norm_hash lp.version_record_hash)
          last
          saves
    pub not_empty : saves ≢ []
    pub continues : Continues lp existing target last

  pub check_pointer-ok :
      (resolver : Resolver) {owner : Bytes}
      → check_pointer cr js lp (some resolver) ≡ ok owner
      → (validate_pointer lp ≡ ok tt)
        × (resolver lp.domain ≡ ok owner)
        × (verify_pointer cr js lp owner ≡ ok tt)
        × (equal_fold (trim_space lp.version_record_hash) zero_hash ≡ false)
  unfolding check_pointer
  check_pointer-ok resolver h =
      let s1 = bind-ok (or_else (validate_pointer lp) invalid_latest_pointer) h in
      let s2 = then-ok invalid_latest_pointer s1.2 in
      let s3 = bind-ok (or_else (resolver lp.domain) unauthorized) s2.1 in
      let s4 = bind-ok (or_else (verify_pointer cr js lp s3.0) unauthorized) s3.2 in
      let same_owner = ok-injective s4.2 in
      (
        or_else-ok invalid_latest_pointer s1.1,
        or_else-ok unauthorized s3.1 ∙ ap ok same_owner,
        subst (λ q. verify_pointer cr js lp q ≡ ok tt) same_owner (or_else-ok unauthorized s4.1),
        not-true s2.0,
      )

  module _ (owner : Bytes) (getter : Getter) where
    Chain-nil :
        {target : Bytes} {has_existing head : Bool} {from last : Version.Version} {hash : Bytes}
        (saves : List (Bytes × Bytes))
        → Chain cr js lp owner getter target has_existing head from hash last saves
        → saves ≡ []
        → ((hash ≡ target) ⊎ ((has_existing ≡ false) × (hash ≡ zero_hash))) × (from ≡ last)
    Chain-nil [] (ends e) h = (e, refl)
    Chain-nil (s ∷ ss) c h = cc

    no_version-low : (ver : Version.Version) → is_above (Version.compare no_version ver) ≢ true
    unfolding Version.compare
    no_version-low ver = ground arith

    trim-zero_hash : trim_space zero_hash ≡ zero_hash
    unfolding zero_hash trim_space trim_left trim_right is_space
    trim-zero_hash = refl

    norm-zero_hash : norm_hash zero_hash ≡ zero_hash
    unfolding norm_hash zero_hash to_lower lower_byte trim_space trim_left trim_right is_space
    norm-zero_hash = refl

    not_zero :
        (h : Bytes)
        → equal_fold (trim_space h) zero_hash ≡ false
        → norm_hash h ≢ norm_hash zero_hash
    unfolding norm_hash equal_fold
    not_zero h f e =
        let eq : to_lower (trim_space h) ≡ to_lower zero_hash = e ∙ ap to_lower trim-zero_hash in
        let t : bytes_eq (to_lower (trim_space h)) (to_lower zero_hash) ≡ true =
          (bytes_eq_iff _ _).1 eq in
        cc

    -- A walk that visits nothing is not accepted.
    pub Chain-not_empty :
        (existing : Option LatestPointer) (target : Bytes) (last : Version.Version)
        (saves : List (Bytes × Bytes))
        → equal_fold (trim_space lp.version_record_hash) zero_hash ≡ false
        → Continues lp existing target last
        → Chain cr js lp owner getter target
            (is_present existing)
            true
            no_version
            (norm_hash lp.version_record_hash)
            last
            saves
        → saves ≢ []
    unfolding Continues
    Chain-not_empty none target last saves f e c h = elim (Chain-nil saves c h).0 [
      | inl p ↦ not_zero lp.version_record_hash f (p ∙ e)
      | inr p ↦ not_zero lp.version_record_hash f (p.1 ∙ sym norm-zero_hash)
    ]
    Chain-not_empty (some x) target last saves f (a, b, c', d, ver, p, low) c h =
        no_version-low ver
          (subst (λ q. is_above (Version.compare q ver) ≡ true) (sym (Chain-nil saves c h).1) low)
