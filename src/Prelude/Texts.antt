-- ===== src/Prelude/Texts.antt =====
-- Text is compared whole: `is` is Go's `==` on strings, `has` its linear search of a slice, and
-- `attribute` the read of a `map[string]string`, which gives the empty text on a missing key.
use Prim.Native.String.{String}
use text.Mathlib.Text.{◌==◌}
use text.Mathlib.TextEquality.{eq_iff}
use text.Mathlib.TextPositions.{eq_refl}
use mathlib.Core.Path.{◌≡◌, refl}
use mathlib.Core.Bool.{Bool, true, false, not, ◌&&◌, ◌||◌}
use mathlib.Core.Option.{Option, none, some}
use mathlib.Core.List.{List, [], ◌∷◌}
use native.Mathlib.Omega.{arith}
use ouf_mcp_server.Prelude.Lists.{all}
use ouf_mcp_server.Prelude.Tests.{if◌then◌else◌}

infix 50 ◌is◌ ◌differs◌
abbrev pub ◌is◌ : String → String → Bool
a is b = a == b

abbrev pub ◌differs◌ : String → String → Bool
a differs b = not (a == b)

abbrev pub blank : String → Bool
blank s = s is ""

pub is→≡ : (a b : String) → (a is b) ≡ true → a ≡ b
is→≡ a b h = (eq_iff a b).0 h

pub is_refl : (a : String) → (a is a) ≡ true
is_refl a = eq_refl a

pub differs→≡ : (a b : String) → (a differs b) ≡ false → a ≡ b
differs→≡ a b h = is→≡ a b (ground arith)

unfoldable pub has : List String → String → Bool
has [] wanted = false
has (x ∷ xs) wanted = x is wanted || has xs wanted

-- A map as an association list: the first pair with the key counts.
abbrev pub Attributes : Type 0
Attributes = List (String × String)

unfoldable pub find_attribute : Attributes → String → Option String
find_attribute [] key = none
find_attribute ((k, v) ∷ rest) key = if k is key then some v else find_attribute rest key

abbrev pub or_blank : Option String → String
or_blank none = ""
or_blank (some v) = v

abbrev pub attribute : Attributes → String → String
attribute m key = or_blank (find_attribute m key)

-- `m[key] = value`.
unfoldable pub set_attribute : Attributes → String → String → Attributes
set_attribute [] key value = (key, value) ∷ []
set_attribute ((k, v) ∷ rest) key value =
    if k is key then (k, value) ∷ rest else (k, v) ∷ set_attribute rest key value

-- No text stands twice in the list.
abbrev pub distinct : List String → Bool
distinct [] = true
distinct (x ∷ xs) = not (has xs x) && distinct xs

-- The same, as a loop checks it with a set of the texts seen so far.
abbrev pub fresh : List String → List String → Bool
fresh seen [] = true
fresh seen (x ∷ xs) = not (has seen x) && fresh (x ∷ seen) xs

pub is_sym : (a b : String) → (a is b) ≡ (b is a)
is_sym a b = ground (arith, eq_iff a b, eq_iff b a)

unseen-cons :
    (x : String) (seen xs : List String)
    → all (λ y. not (has (x ∷ seen) y)) xs ≡ (not (has xs x) && all (λ y. not (has seen y)) xs)
unfolding has
unseen-cons x seen [] = refl
unseen-cons x seen (y ∷ xs) = ground (arith, unseen-cons x seen xs, is_sym x y)

fresh-eq : (seen xs : List String) → fresh seen xs ≡ (distinct xs && all (λ y. not (has seen y)) xs)
fresh-eq seen [] = refl
fresh-eq seen (x ∷ xs) = ground (arith, fresh-eq (x ∷ seen) xs, unseen-cons x seen xs)

unseen-nil : (xs : List String) → all (λ y. not (has [] y)) xs ≡ true
unfolding has
unseen-nil [] = refl
unseen-nil (x ∷ xs) = unseen-nil xs

-- The loop's check is the plain one.
pub fresh-distinct : (xs : List String) → fresh [] xs ≡ distinct xs
fresh-distinct xs = ground (arith, fresh-eq [] xs, unseen-nil xs)

pub has-cons : (x : String) (xs : List String) (y : String) → has (x ∷ xs) y ≡ (x is y || has xs y)
unfolding has
has-cons x xs y = refl

pub has-nil : (y : String) → has [] y ≡ false
unfolding has
has-nil y = refl
