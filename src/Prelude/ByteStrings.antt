-- ===== src/Prelude/ByteStrings.antt =====
-- Byte sequences: Go's `[]byte` and `string`, with equality (`bytes.Equal`, `==`) and the order of
-- `bytes.Compare`.
use Prim.Native.Nat.{ℕ}
use Prim.Native.Char.{code}
use Prim.Native.String.{String}
use mathlib.Core.Path.{◌≡◌, refl}
use mathlib.Core.Logic.{◌↔◌, ◌⊎◌, inl, inr}
use mathlib.Core.Bool.{Bool, true, false, ◌&&◌, ◌||◌}
use mathlib.Core.List.{List, [], ◌∷◌}
use native.Mathlib.Omega.{arith}
use alg_bc_db.Prelude.Tests.{ltb, ◌==◌}

abbrev pub Bytes : Type 0
Bytes = List ℕ

-- The bytes of an ASCII literal. `String` has its own `[]` and `∷`.
abbrev pub codes : String → Bytes
codes String.[] = []
codes (String.◌∷◌ c s) = code c ∷ codes s

-- `bytes.Equal`, and `==` on strings.
unfoldable pub equal : Bytes → Bytes → Bool
equal [] [] = true
equal [] (y ∷ ys) = false
equal (x ∷ xs) [] = false
equal (x ∷ xs) (y ∷ ys) = x == y && equal xs ys

pub equal_sound : (xs ys : Bytes) → equal xs ys ≡ true → xs ≡ ys
unfolding equal
equal_sound [] [] h = refl
equal_sound [] (y ∷ ys) h = ground arith
equal_sound (x ∷ xs) [] h = ground arith
equal_sound (x ∷ xs) (y ∷ ys) h = ground (arith, equal_sound xs ys)

pub equal_refl : (xs : Bytes) → equal xs xs ≡ true
unfolding equal
equal_refl [] = refl
equal_refl (x ∷ xs) = ground (arith, equal_refl xs)

equal_of_eq : (xs ys : Bytes) → xs ≡ ys → equal xs ys ≡ true
equal_of_eq xs ys e = ground (arith, equal_refl xs)

pub equal_iff : (xs ys : Bytes) → (equal xs ys ≡ true) ↔ (xs ≡ ys)
equal_iff xs ys = (equal_sound xs ys, equal_of_eq xs ys)

-- `bytes.Compare xs ys < 0`, and `<` on strings.
unfoldable pub less : Bytes → Bytes → Bool
less xs [] = false
less [] (y ∷ ys) = true
less (x ∷ xs) (y ∷ ys) = ltb x y || (x == y && less xs ys)

pub less_irrefl : (xs : Bytes) → less xs xs ≡ false
unfolding less
less_irrefl [] = refl
less_irrefl (x ∷ xs) = ground (arith, less_irrefl xs)

pub less_trans : (xs ys zs : Bytes) → less xs ys ≡ true → less ys zs ≡ true → less xs zs ≡ true
unfolding less
less_trans [] [] zs h k = ground arith
less_trans [] (y ∷ ys) [] h k = ground arith
less_trans [] (y ∷ ys) (z ∷ zs) h k = refl
less_trans (x ∷ xs) [] zs h k = ground arith
less_trans (x ∷ xs) (y ∷ ys) [] h k = ground arith
less_trans (x ∷ xs) (y ∷ ys) (z ∷ zs) h k = ground (arith, less_trans xs ys zs)

pub less_total : (xs ys : Bytes) → (less xs ys ≡ true) ⊎ (xs ≡ ys) ⊎ (less ys xs ≡ true)
unfolding less
less_total [] [] = inr (inl refl)
less_total [] (y ∷ ys) = inl refl
less_total (x ∷ xs) [] = inr (inr refl)
less_total (x ∷ xs) (y ∷ ys) = ground (arith, less_total xs ys)

pub less_asymm : (xs ys : Bytes) → less xs ys ≡ true → less ys xs ≡ false
less_asymm xs ys h = ground (arith, less_trans xs ys xs h, less_irrefl xs)

-- "Not below" is transitive.
pub not-less_trans :
    (xs ys zs : Bytes) → less xs ys ≡ false → less ys zs ≡ false → less xs zs ≡ false
not-less_trans xs ys zs h k = ground (arith, less_total xs ys, less_trans ys xs zs)
