-- ===== src/Prelude/Lists.antt =====
-- Lists measured by native numbers, and a predicate of every element.
use Prim.Native.Nat.{ℕ, suc, ◌+◌}
use mathlib.Core.Path.{◌≡◌, sym, subst}
use mathlib.Core.List.Memᴰ.{head, tail, not-nil}
use mathlib.Core.List.{Memᴰ, List, [], ◌∷◌, ◌++◌}
use native.Mathlib.Omega.{arith}

module _ {ℓ} {A : Type ℓ} where
  abbrev pub length : List A → ℕ
  length [] = 0
  length (x ∷ xs) = suc (length xs)

  pub length-append : (xs ys : List A) → length (xs ++ ys) ≡ length xs + length ys
  length-append [] ys = omega arith
  length-append (x ∷ xs) ys = omega (arith, length-append xs ys)

abbrev pub All {ℓ κ} : {A : Type ℓ} → (A → Type κ) → List A → Type κ
All P [] = Unit
All P (x ∷ xs) = P x × All P xs

pub All-Mem {ℓ κ} : {A : Type ℓ} {x : A} (P : A → Type κ) (xs : List A) → All P xs → Memᴰ x xs → P x
All-Mem P [] h there = absurd (not-nil there)
All-Mem P (y ∷ ys) h (head e) = subst P (sym e) h.0
All-Mem P (y ∷ ys) h (tail there) = All-Mem P ys h.1 there

pub cons_inj {ℓ} : {A : Type ℓ} {x y : A} {xs ys : List A} → x ∷ xs ≡ y ∷ ys → (x ≡ y) × (xs ≡ ys)
cons_inj e = (cc, cc)
