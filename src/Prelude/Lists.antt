-- ===== src/Prelude/Lists.antt =====
-- Lists measured by native numbers, Boolean quantifiers over lists and predicates by recursion.
use Prim.Native.Nat.{ℕ, suc, ◌+◌}
use mathlib.Core.Path.{◌≡◌, refl, ◌∙◌}
use mathlib.Core.Bool.{Bool, true, false, ◌&&◌, ◌||◌, Bool-set}
use mathlib.Core.List.{List, [], ◌∷◌, ◌++◌, Perm}
use mathlib.Core.List.{Permᴰ}
use mathlib.Core.Logic.{∥∥₁_elim}
use native.Mathlib.Omega.{arith}

module _ {ℓ} {A : Type ℓ} where
  abbrev pub length : List A → ℕ
  length [] = 0
  length (x ∷ xs) = suc (length xs)

  -- `slices.ContainsFunc`, and its dual.
  abbrev pub any : (A → Bool) → List A → Bool
  any p [] = false
  any p (x ∷ xs) = p x || any p xs

  abbrev pub all : (A → Bool) → List A → Bool
  all p [] = true
  all p (x ∷ xs) = p x && all p xs

  abbrev pub All {κ} : (A → Type κ) → List A → Type κ
  All P [] = Unit
  All P (x ∷ xs) = P x × All P xs

  pub length-append : (xs ys : List A) → length (xs ++ ys) ≡ length xs + length ys
  length-append [] ys = omega arith
  length-append (x ∷ xs) ys = omega (arith, length-append xs ys)

&&-swap : (a b c : Bool) → (a && (b && c)) ≡ (b && (a && c))
&&-swap a b c = ground arith

||-swap : (a b c : Bool) → (a || (b || c)) ≡ (b || (a || c))
||-swap a b c = ground arith

module _ {ℓ} {A : Type ℓ} where
  all-Permᴰ : (p : A → Bool) {xs ys : List A} → Permᴰ xs ys → all p xs ≡ all p ys
  all-Permᴰ p Permᴰ.nil = refl
  all-Permᴰ p (Permᴰ.cons e r) = cc (all-Permᴰ p r)
  all-Permᴰ p (Permᴰ.swap {a' = c} {b' = d} {l = l} e f) = rw (e, f) (&&-swap (p d) (p c) (all p l))
  all-Permᴰ p (Permᴰ.trans q r) = all-Permᴰ p q ∙ all-Permᴰ p r

  pub all-perm : (p : A → Bool) {xs ys : List A} → Perm xs ys → all p xs ≡ all p ys
  all-perm p r = ∥∥₁_elim r (Bool-set _ _) (all-Permᴰ p)

  any-Permᴰ : (p : A → Bool) {xs ys : List A} → Permᴰ xs ys → any p xs ≡ any p ys
  any-Permᴰ p Permᴰ.nil = refl
  any-Permᴰ p (Permᴰ.cons e r) = cc (any-Permᴰ p r)
  any-Permᴰ p (Permᴰ.swap {a' = c} {b' = d} {l = l} e f) = rw (e, f) (||-swap (p d) (p c) (any p l))
  any-Permᴰ p (Permᴰ.trans q r) = any-Permᴰ p q ∙ any-Permᴰ p r

  -- The Boolean quantifiers do not see the order of a list.
  pub any-perm : (p : A → Bool) {xs ys : List A} → Perm xs ys → any p xs ≡ any p ys
  any-perm p r = ∥∥₁_elim r (Bool-set _ _) (any-Permᴰ p)

  pub all-cong : (p q : A → Bool) → ((x : A) → p x ≡ q x) → (xs : List A) → all p xs ≡ all q xs
  all-cong p q h [] = refl
  all-cong p q h (x ∷ xs) = cc (h x, all-cong p q h xs)
