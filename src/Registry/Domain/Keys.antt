-- ===== src/Registry/Domain/Keys.antt =====
-- Valid names have no colon, so the key text of a latest pointer determines the domain and the
-- package.
use d7024e_lab.Prelude.{
  All, Bool, Bool-cases, [], ap, arith, false, inl, inr, refl, true, ℕ, ◌&&◌, ◌++◌, ◌==◌, ◌∷◌, ◌≡◌,
  ◌≢◌,
}
use d7024e_lab.Prelude.Bytes.{Bytes}
use d7024e_lab.Prelude.Bytes.Text.{split, split_parts, text, trim_space}
use d7024e_lab.Registry.Domain.{
  all, all_labels, in_label, in_package, is_label, is_valid_domain, is_valid_package_name,
  latest_pointer_key_string, normalize_domain,
}

no_colon_all : (p : ℕ → Bool) (s : Bytes) → p b':' ≡ false → all p s ≡ true → All (λ c. c ≢ b':') s
unfolding all
no_colon_all p [] h a = tt
no_colon_all p (c ∷ cs) h a = elim (Bool-cases (p c)) [
  | inl e ↦ ((λ q. cc (e, h, ap p q)), no_colon_all p cs h (ground arith))
  | inr e ↦ absurd (ground arith)
]

abbrev NoColon : Bytes → Type 0
NoColon = All (λ c. c ≢ b':')

NoColon-label : (s : Bytes) → is_label s ≡ true → NoColon s
unfolding is_label
NoColon-label s h = no_colon_all in_label s (unfold in_label in refl) (ground arith)

-- A text has no colon if its parts have none.
NoColon-parts :
    (s : Bytes)
    → all_labels (split_parts b'.' s).1 ≡ true
    → NoColon (split_parts b'.' s).0
    → NoColon s
unfolding split_parts all_labels
NoColon-parts [] h k = tt
NoColon-parts (c ∷ cs) h k = elim (Bool-cases (c == b'.')) [
  | inl e ↦
      let h' : (is_label (split_parts b'.' cs).0 && all_labels (split_parts b'.' cs).1) ≡ true =
        rw e at h in
      (
        ground arith,
        NoColon-parts cs (ground arith) (NoColon-label (split_parts b'.' cs).0 (ground arith)),
      )
  | inr e ↦
      let h' : all_labels (split_parts b'.' cs).1 ≡ true = rw e at h in
      let k' : NoColon (c ∷ (split_parts b'.' cs).0) = rw e at k in (k'.0, NoColon-parts cs h' k'.1)
]

valid_domain-NoColon : (d : Bytes) → is_valid_domain d ≡ true → NoColon (normalize_domain d)
unfolding is_valid_domain split
valid_domain-NoColon d h =
    let m : all_labels (split b'.' (normalize_domain d)) ≡ true = ground arith in
    NoColon-parts (normalize_domain d) (ground arith)
      (NoColon-label (split_parts b'.' (normalize_domain d)).0 (ground arith))

valid_package-NoColon : (p : Bytes) → is_valid_package_name p ≡ true → NoColon (trim_space p)
unfolding is_valid_package_name
valid_package-NoColon p h =
    no_colon_all in_package (trim_space p) (unfold in_package in refl) (ground arith)

-- Two texts with no colon, each before a colon: the texts are equal, and what follows is.
cut :
    (xs ys r s : Bytes)
    → NoColon xs
    → NoColon ys
    → xs ++ (b':' ∷ r) ≡ ys ++ (b':' ∷ s)
    → (xs ≡ ys) × (r ≡ s)
cut [] [] r s hx hy e = (refl, cc)
cut [] (y ∷ ys) r s hx hy e = absurd (hy.0 (cc))
cut (x ∷ xs) [] r s hx hy e = absurd (hx.0 (cc))
cut (x ∷ xs) (y ∷ ys) r s hx hy e = let (a, b) = cut xs ys r s hx.1 hy.1 (cc) in (cc, b)

-- Two valid packages with one key text are the same package of the same domain: distinct packages
-- are hashed from distinct texts.
pub latest_pointer_key_string-injective :
    (d d' p p' : Bytes)
    → is_valid_domain d ≡ true
    → is_valid_domain d' ≡ true
    → is_valid_package_name p ≡ true
    → is_valid_package_name p' ≡ true
    → latest_pointer_key_string d p ≡ latest_pointer_key_string d' p'
    → (normalize_domain d ≡ normalize_domain d') × (trim_space p ≡ trim_space p')
unfolding latest_pointer_key_string
latest_pointer_key_string-injective d d' p p' hd hd' hp hp' e =
    let (a, b) =
      cut (normalize_domain d) (normalize_domain d') (trim_space p ++ text ":latest")
        (trim_space p' ++ text ":latest") (valid_domain-NoColon d hd) (valid_domain-NoColon d' hd')
        e in
    let (c, _) =
      cut (trim_space p) (trim_space p') (text "latest") (text "latest")
        (valid_package-NoColon p hp) (valid_package-NoColon p' hp') b in
    (a, c)
