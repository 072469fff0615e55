-- ===== src/Registry/Validator/Acceptance.antt =====
-- The soundness of the acceptance of a latest pointer (registry/validator.go).
use d7024e_lab.Registry.Version
use mathlib.Core.List.{append-nil, reverse-reverse}
use d7024e_lab.Prelude.{
  List, Option, ap, inl, inr, none, refl, reverse, some, subst, suc, sym, true, ℕ, ◌∙◌, ◌≡◌, ◌≢◌,
}
use d7024e_lab.Prelude.Bytes.{Bytes}
use d7024e_lab.Registry.Crypto.{Crypto}
use d7024e_lab.Registry.Outcome.{
  Result, Result-cases, bind-ok, err, err-ne-ok, invalid_history_chain, invalid_latest_pointer,
  no_dns_resolver, ok, ok-injective, or_else, require-ok, then-ok,
}
use d7024e_lab.Registry.Record.{Json, LatestPointer, Resolver, validate_pointer}
use d7024e_lab.Registry.Validator.{
  Getter, Walk, after_checks, check_arguments, check_existing, check_last, check_pointer, conclude,
  effective_depth, finish, is_present, norm_hash, start_walk,
  validate_latest_pointer_chain_with_depth, walk_from,
}
use d7024e_lab.Registry.Validator.Accepted.{
  Accepted, Agrees, Continues, Chain-not_empty, check_existing-ok, check_pointer-ok, no_version,
}
use d7024e_lab.Registry.Validator.Sound.{Chain, Walked, walk-Chain}
use d7024e_lab.Registry.Version.{Version, parse_version}

module _ (cr : Crypto) (js : Json) (lp : LatestPointer) (owner : Bytes) (getter : Getter) where
  -- What the end of a successful validation rests on.
  conclude-ok :
      (existing : Option LatestPointer) (r : Option (Result Walk)) {saves : List (Bytes × Bytes)}
      → conclude existing r ≡ some (ok saves)
      → (w : Walk) × (r ≡ some (ok w))
        × (check_last w.last existing ≡ ok tt)
        × (reverse w.to_save ≡ saves)
  unfolding conclude finish
  conclude-ok existing none h = cc
  conclude-ok existing (some (err e)) h = cc
  conclude-ok existing (some (ok w)) h =
      let s = bind-ok (check_last w.last existing) (let p : finish existing w ≡ ok _ = cc in p) in
      (w, refl, s.1, ok-injective s.2)

  walk_from-Chain :
      (existing : Option LatestPointer) (target : Bytes) (depth : ℕ) {w : Walk}
      → walk_from cr js lp existing owner target getter depth ≡ some (ok w)
      → Chain cr js lp owner getter
          (norm_hash target)
          (is_present existing)
          true
          no_version
          (norm_hash lp.version_record_hash)
          w.last
          (reverse w.to_save)
  unfolding walk_from start_walk Walked
  walk_from-Chain existing target depth {w} h =
      let v =
        walk-Chain cr js lp owner getter depth (suc (suc depth)) (norm_hash target)
          (is_present existing) (start_walk lp) h in
      subst
        (λ q.
          Chain cr js lp owner getter (norm_hash target) (is_present existing) true no_version
            (norm_hash lp.version_record_hash) w.last q)
        (sym (ap reverse (v.2 ∙ append-nil (reverse v.0)) ∙ reverse-reverse v.0)) v.1

  Continues-ok :
      (existing : Option LatestPointer) {target : Bytes} (last : Version.Version)
      → check_existing lp existing ≡ ok target
      → check_last last existing ≡ ok tt
      → Continues lp existing (norm_hash target) last
  unfolding Continues check_last check_existing Agrees
  Continues-ok none last e l = ap norm_hash (sym (ok-injective e))
  Continues-ok (some x) last e l =
      let a = check_existing-ok lp x e in
      let s = bind-ok (parse_version x.version) l in
      (ap norm_hash a.0, a.1, a.2, a.3, s.0, s.1, require-ok invalid_history_chain s.2)

  after_checks-ok :
      (existing : Option LatestPointer) (target : Bytes) (max_depth : ℕ)
      {saves : List (Bytes × Bytes)}
      → check_existing lp existing ≡ ok target
      → after_checks cr js lp existing (some getter) max_depth (ok (owner, target))
        ≡ some (ok saves)
      → (last : Version.Version) × Chain cr js lp owner getter
          (norm_hash target)
          (is_present existing)
          true
          no_version
          (norm_hash lp.version_record_hash)
          last
          saves
        × Continues lp existing (norm_hash target) last
  unfolding after_checks
  after_checks-ok existing target max_depth e h =
      let c =
        conclude-ok existing
          (walk_from cr js lp existing owner target getter (effective_depth max_depth)) h in
      let ch = walk_from-Chain existing target (effective_depth max_depth) c.1 in
      (
        c.0.last,
        subst
            (λ q.
              Chain cr js lp owner getter (norm_hash target) (is_present existing) true no_version
                (norm_hash lp.version_record_hash) c.0.last q)
            c.3 ch,
        Continues-ok existing c.0.last e c.2,
      )

check_arguments-ok :
    (cr : Crypto) (js : Json) (lp : LatestPointer) (existing : Option LatestPointer)
    (resolver : Option Resolver) {owner target : Bytes}
    → check_arguments cr js lp existing resolver ≡ ok (owner, target)
    → (check_pointer cr js lp resolver ≡ ok owner) × (check_existing lp existing ≡ ok target)
unfolding check_arguments
check_arguments-ok cr js lp existing resolver h =
    let s1 = bind-ok (check_pointer cr js lp resolver) h in
    let s2 = bind-ok (check_existing lp existing) s1.2 in
    (s1.1 ∙ ap (λ q. ok q.0) (ok-injective s2.2), s2.1 ∙ ap (λ q. ok q.1) (ok-injective s2.2))

-- A latest pointer that is accepted is valid and signed by the owner that the resolver names for its
-- domain, and its record hash starts a chain of at least one record: each record's bytes have the
-- hash that its successor gives, it is signed by the owner, of the pointer's domain and package, the
-- first one has the pointer's version, and the versions fall. The chain ends at the zero hash for a
-- new package, and else at the record of the existing pointer, above whose version are the
-- pointer's and the last record's. The records of the chain are the ones to save, in its order.
pub validate_latest_pointer_chain_with_depth-Accepted :
    (cr : Crypto) (js : Json) (lp : LatestPointer) (existing : Option LatestPointer)
    (resolver : Resolver) (getter : Getter) (max_depth : ℕ) (saves : List (Bytes × Bytes))
    → validate_latest_pointer_chain_with_depth cr js
        (some lp)
        existing
        (some resolver)
        (some getter)
        max_depth
      ≡ some (ok saves)
    → Accepted cr js lp existing resolver getter saves
unfolding validate_latest_pointer_chain_with_depth after_checks
validate_latest_pointer_chain_with_depth-Accepted cr js lp existing resolver getter max_depth
      saves =
    elim (Result-cases (check_arguments cr js lp existing (some resolver))) [
      | inl (x, e) ↦ rw e (λ h.
          let p : Path (Option (Result (List (Bytes × Bytes)))) (some (err x)) (some (ok saves)) =
            h in
          cc)
      | inr ((owner, target), e) ↦ rw e (λ h.
          let a = check_arguments-ok cr js lp existing (some resolver) e in
          let p = check_pointer-ok cr js lp resolver a.0 in
          let d = after_checks-ok cr js lp owner getter existing target max_depth a.1 h in
          record {
            owner = owner;
            target = norm_hash target;
            last = d.0;
            valid = p.0;
            owned = p.1;
            signed = p.2;
            chain = d.1;
            not_empty =
                Chain-not_empty cr js lp owner getter existing (norm_hash target) d.0 saves p.3 d.2
                  d.1;
            continues = d.2;
          })
    ]

no_resolver :
    (cr : Crypto) (js : Json) (lp : LatestPointer) (owner : Bytes)
    → check_pointer cr js lp none ≢ ok owner
unfolding check_pointer
no_resolver cr js lp owner h =
    let s1 = bind-ok (or_else (validate_pointer lp) invalid_latest_pointer) h in
    let s2 = then-ok invalid_latest_pointer s1.2 in err-ne-ok no_dns_resolver owner s2.1

-- Nothing is accepted without a resolver.
pub validate_latest_pointer_chain_with_depth-needs_resolver :
    (cr : Crypto) (js : Json) (lp existing : Option LatestPointer) (getter : Option Getter)
    (max_depth : ℕ) (saves : List (Bytes × Bytes))
    → validate_latest_pointer_chain_with_depth cr js lp existing none getter max_depth
      ≢ some (ok saves)
unfolding validate_latest_pointer_chain_with_depth after_checks check_arguments check_pointer
validate_latest_pointer_chain_with_depth-needs_resolver cr js none existing getter max_depth saves =
    λ h. cc
validate_latest_pointer_chain_with_depth-needs_resolver cr js (some lp) existing getter max_depth
      saves =
    elim (Result-cases (check_arguments cr js lp existing none)) [
      | inl (x, e) ↦
          rw (validate_latest_pointer_chain_with_depth, e)
            (λ h.
              let p : Path (Option (Result (List (Bytes × Bytes)))) (some (err x))
                  (some (ok saves)) =
                h in
              cc)
      | inr (r, e) ↦ λ h. no_resolver cr js lp r.0 (check_arguments-ok cr js lp existing none e).0
    ]
