-- ===== src/Prelude/Bytes/Defs.antt =====
-- Byte strings: the test that `==` and `bytes.Equal` make.
use Prim.Native.Nat.{ℕ, ◌<◌}
use mathlib.Core.Path.{◌≡◌, refl}
use mathlib.Core.Logic.{◌≢◌, ◌↔◌, ◌⊎◌}
use mathlib.Core.Bool.{Bool, true, false, ◌&&◌}
use mathlib.Core.List.{List, [], ◌∷◌}
use native.Mathlib.Omega.{arith}
use d7024e_lab.Prelude.Tests.{◌==◌}

abbrev pub Bytes : Type 0
Bytes = List ℕ

abbrev pub IsByte : ℕ → Type 0
IsByte b = b < 256

unfoldable pub bytes_eq : Bytes → Bytes → Bool
bytes_eq [] [] = true
bytes_eq [] (b ∷ bs) = false
bytes_eq (a ∷ as') [] = false
bytes_eq (a ∷ as') (b ∷ bs) = a == b && bytes_eq as' bs

eq_of_bytes_eq : (a b : Bytes) → bytes_eq a b ≡ true → a ≡ b
unfolding bytes_eq
eq_of_bytes_eq [] [] h = refl
eq_of_bytes_eq [] (b ∷ bs) h = cc
eq_of_bytes_eq (a ∷ as') [] h = cc
eq_of_bytes_eq (a ∷ as') (b ∷ bs) h = ground (arith, eq_of_bytes_eq as' bs)

pub bytes_eq_self : (a : Bytes) → bytes_eq a a ≡ true
unfolding bytes_eq
bytes_eq_self [] = refl
bytes_eq_self (a ∷ as') = ground (arith, bytes_eq_self as')

pub bytes_eq_iff : (a b : Bytes) → (bytes_eq a b ≡ true) ↔ (a ≡ b)
bytes_eq_iff a b = (eq_of_bytes_eq a b, λ e. rw e (bytes_eq_self b))

pub bytes_eq_ne : (a b : Bytes) → a ≢ b → bytes_eq a b ≡ false
bytes_eq_ne a b h = ground (arith, bytes_eq_iff a b)

pub Bytes-cases : (a b : Bytes) → (a ≡ b) ⊎ (a ≢ b)
Bytes-cases a b = ground (arith, bytes_eq_iff a b)
