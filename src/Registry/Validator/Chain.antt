-- ===== src/Registry/Validator/Chain.antt =====
-- What one record of a chain must satisfy (registry/validator.go), and that the body of the loop
-- checks it.
use d7024e_lab.Registry.Version
use d7024e_lab.Prelude.{
  Bool, and-true, false, leb→≤, length, not-true, refl, subst, true, ℕ, ◌∷◌, ◌≡◌, ◌≤◌,
}
use d7024e_lab.Prelude.Bytes.{Bytes, bytes_eq_iff}
use d7024e_lab.Prelude.Bytes.Hex.{hex_encode}
use d7024e_lab.Registry.Crypto.{Crypto}
use d7024e_lab.Registry.Outcome.{
  bind-ok, corrupt_record, domain_mismatch, invalid_history_chain, missing_version_record, ok,
  ok-injective, or_else, or_else-ok, require-ok, then-ok, unauthorized,
}
use d7024e_lab.Registry.Record.{
  Json, LatestPointer, VersionRecord, parse_version_record, verify_record,
}
use d7024e_lab.Registry.Validator.{Getter, Walk, check_version, fetch, next_hash, seen, visit}
use d7024e_lab.Registry.Version.{Version, is_above, parse_version, same}

module _ (cr : Crypto) (js : Json) (lp : LatestPointer) (owner : Bytes) (getter : Getter) where
  -- A record with the hash `hash`, that is the owner's and belongs to the package of `lp`.
  pub record Authentic (hash rec_bytes : Bytes) (vr : VersionRecord) (ver : Version.Version)
      : Type 0 where
    pub stored : getter hash ≡ ok rec_bytes
    pub hashed : hex_encode (cr.sha256 rec_bytes) ≡ hash
    pub parsed : parse_version_record js rec_bytes ≡ ok vr
    pub of_domain : vr.domain ≡ lp.domain
    pub of_package : vr.package_name ≡ lp.package_name
    pub signed : verify_record cr js vr owner ≡ ok tt
    pub versioned : parse_version vr.version ≡ ok ver

  -- The first record has the pointer's version, the others fall.
  pub Follows : Bool → Version.Version → VersionRecord → Version.Version → Type 0
  Follows true last vr ver = vr.version ≡ lp.version
  Follows false last vr ver = is_above (Version.compare last ver) ≡ true

  fetch-Authentic :
      (hash : Bytes) {r : Bytes × VersionRecord × Version.Version}
      → fetch cr js lp owner getter hash ≡ ok r
      → Authentic hash r.0 r.1 r.2
  unfolding fetch
  fetch-Authentic hash {r} h =
      let s1 = bind-ok (or_else (getter hash) missing_version_record) h in
      let s2 = then-ok missing_version_record s1.2 in
      let s3 = then-ok corrupt_record s2.1 in
      let s4 = bind-ok (or_else (parse_version_record js s1.0) corrupt_record) s3.1 in
      let s5 = then-ok domain_mismatch s4.2 in
      let s6 = bind-ok (or_else (verify_record cr js s4.0 owner) unauthorized) s5.1 in
      let s7 = bind-ok (parse_version s4.0.version) s6.2 in
      let same = and-true s5.0 in
      subst (λ q. Authentic hash q.0 q.1 q.2) (ok-injective s7.2)
        (record {
          stored = or_else-ok missing_version_record s1.1;
          hashed = (bytes_eq_iff _ _).0 s3.0;
          parsed = or_else-ok corrupt_record s4.1;
          of_domain = (bytes_eq_iff _ _).0 same.0;
          of_package = (bytes_eq_iff _ _).0 same.1;
          signed = or_else-ok unauthorized s6.1;
          versioned = s7.1;
        })

  check_version-Follows :
      (head : Bool) (last : Version.Version) (vr : VersionRecord) (ver : Version.Version)
      → check_version cr js lp owner getter head last vr ver ≡ ok tt
      → Follows head last vr ver
  unfolding check_version Follows
  check_version-Follows true last vr ver h =
      (bytes_eq_iff _ _).0 (require-ok invalid_history_chain h)
  check_version-Follows false last vr ver h = require-ok invalid_history_chain h

  -- What one round of the loop has done.
  pub record Visited (max_depth : ℕ) (w w' : Walk) : Type 0 where
    pub rec_bytes : Bytes
    pub vr : VersionRecord
    pub fresh : seen w.current w.visited ≡ false
    pub bounded : length w'.visited ≤ max_depth
    pub authentic : Authentic w.current rec_bytes vr w'.last
    pub follows : Follows w.head w.last vr w'.last
    pub links : w'.current ≡ next_hash vr
    pub marks : w'.visited ≡ w.current ∷ w.visited
    pub goes_on : w'.head ≡ false
    pub saves : w'.to_save ≡ (w.current, rec_bytes) ∷ w.to_save

  pub visit-Visited :
      (max_depth : ℕ) (w : Walk) {w' : Walk}
      → visit cr js lp owner getter max_depth w ≡ ok w'
      → Visited max_depth w w'
  unfolding visit
  visit-Visited max_depth w {w'} h =
      let s1 = then-ok invalid_history_chain h in
      let s2 = then-ok invalid_history_chain s1.1 in
      let s3 = bind-ok (fetch cr js lp owner getter w.current) s2.1 in
      let s4 = bind-ok (check_version cr js lp owner getter w.head w.last s3.0.1 s3.0.2) s3.2 in
      subst (Visited max_depth w) (ok-injective s4.2) (record {
        rec_bytes = s3.0.0;
        vr = s3.0.1;
        fresh = not-true s1.0;
        bounded = leb→≤ _ _ s2.0;
        authentic = fetch-Authentic w.current s3.1;
        follows = check_version-Follows w.head w.last s3.0.1 s3.0.2 s4.1;
        links = refl;
        marks = refl;
        goes_on = refl;
        saves = refl;
      })
