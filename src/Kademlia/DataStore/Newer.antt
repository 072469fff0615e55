-- ===== src/Kademlia/DataStore/Newer.antt =====
-- When a latest pointer is newer than another one (kademlia/datastore.go, registry/record.go).
use d7024e_lab.Prelude.{
  Option, ap, arith, inl, inr, none, refl, some, subst, sym, true, ◌<◌, ◌∙◌, ◌≡◌, ◌⊎◌,
}
use d7024e_lab.Kademlia.DataStore.{parse_existing, unchanged}
use d7024e_lab.Kademlia.DataStore.Sound.{WasAccepted}
use d7024e_lab.Prelude.Bytes.{Bytes, bytes_eq_iff}
use d7024e_lab.Registry.Crypto.{Crypto}
use d7024e_lab.Registry.Outcome.{bind-ok, ok, ok-injective}
use d7024e_lab.Registry.Record.{
  Json, LatestPointer, Resolver, compare_pointers, parse_latest_pointer,
}
use d7024e_lab.Registry.Validator.Accepted.{Continues}
use d7024e_lab.Registry.Version.{Version, above, parse_version}
use d7024e_lab.Registry.Version.Order.{compare-above, rank}
use d7024e_lab.Registry.Version.Read.{parse_version-IsVersion}

-- A later pointer of the same package, with a greater version.
unfoldable pub IsNewer : LatestPointer → LatestPointer → Type 0
IsNewer old new =
    (old.domain ≡ new.domain)
    × (old.package_name ≡ new.package_name)
    × (v : Version) × (w : Version) × (parse_version old.version ≡ ok v)
    × (parse_version new.version ≡ ok w)
    × (rank v < rank w)

unfoldable pub IsNotOlder : LatestPointer → LatestPointer → Type 0
IsNotOlder old new = (old ≡ new) ⊎ IsNewer old new

IsNewer-trans : (a b c : LatestPointer) → IsNewer a b → IsNewer b c → IsNewer a c
unfolding IsNewer
IsNewer-trans a b c (d, p, v, w, pv, pw, l) (d', p', v', w', pv', pw', l') =
    let e : w ≡ v' = ok-injective (sym pw ∙ pv') in
    let l'' : rank v < rank v' = subst (λ q. rank v < rank q) e l in
    (d ∙ d', p ∙ p', v, w', pv, pw', omega arith)

pub IsNotOlder-trans : (a b c : LatestPointer) → IsNotOlder a b → IsNotOlder b c → IsNotOlder a c
unfolding IsNotOlder
IsNotOlder-trans a b c (inl e) h = subst (λ q. (q ≡ c) ⊎ IsNewer q c) (sym e) h
IsNotOlder-trans a b c (inr n) (inl e) = inr (subst (IsNewer a) e n)
IsNotOlder-trans a b c (inr n) (inr n') = inr (IsNewer-trans a b c n n')

compare_pointers-above :
    (new old : LatestPointer)
    → compare_pointers new old ≡ ok above
    → (v : Version) × (w : Version) × (parse_version old.version ≡ ok v)
      × (parse_version new.version ≡ ok w)
      × (rank v < rank w)
unfolding compare_pointers
compare_pointers-above new old h =
    let s1 = bind-ok (parse_version new.version) h in
    let s2 = bind-ok (parse_version old.version) s1.2 in
    let vn = parse_version-IsVersion new.version s1.0 s1.1 in
    let vo = parse_version-IsVersion old.version s2.0 s2.1 in
    (s2.0, s1.0, s2.1, s1.1, compare-above s1.0 s2.0 vn vo (ok-injective s2.2))

pub unchanged-eq : (a b : Option Bytes) → unchanged a b ≡ true → a ≡ b
unfolding unchanged
unchanged-eq none none h = refl
unchanged-eq none (some v) h = cc
unchanged-eq (some v) none h = cc
unchanged-eq (some v) (some w) h = ap some ((bytes_eq_iff v w).0 h)

pub parse_existing-ok :
    (js : Json) (v : Bytes) (lp : LatestPointer)
    → parse_latest_pointer js v ≡ ok lp
    → parse_existing js (some v) ≡ some lp
unfolding parse_existing
parse_existing-ok js v lp h = rw (parse_existing, h) refl

pub WasAccepted-IsNewer :
    (cr : Crypto) (js : Json) (resolver : Option Resolver) (new old : LatestPointer)
    → WasAccepted cr js resolver new (some old)
    → IsNewer old new
unfolding Continues IsNewer
WasAccepted-IsNewer cr js resolver new old w =
    let c = w.accepted.continues in
    let m = compare_pointers-above new old c.3 in (c.1, c.2, m.0, m.1, m.2, m.3, m.4)
