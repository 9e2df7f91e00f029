-- ===== src/Prelude/Alphabet.antt =====
-- Go's `<` on strings, and what its code asks of their characters. Go compares bytes, which for valid
-- UTF-8 is the order of the code points.
use Prim.Native.Nat.{ℕ, suc, Ordering, compare as compare_ℕ}
use Prim.Native.Char.{Char, code}
use Prim.Native.String.compare
use Prim.Native.String.{String, [], ◌∷◌, compare, then, len}
use text.Mathlib.Text.{is_lt}
use text.Mathlib.TextEquality.{path_by_compare}
use text.Mathlib.TextPositions.{compare_refl}
use mathlib.Core.Path.{◌≡◌, refl, sym, ◌∙◌, ap}
use mathlib.Core.Bool.{Bool, true, false, ◌&&◌, ◌||◌}
use native.Mathlib.Omega.{arith}
use ouf_mcp_server.Prelude.Tests.{leb, ◌==◌}

unfoldable pub precedes : String → String → Bool
precedes s t = is_lt (compare s t)

pub precedes_irreflexive : (s : String) → precedes s s ≡ false
unfolding precedes
precedes_irreflexive s = rw (compare_refl s) refl

then_trans :
    (a b c : ℕ) (x y z : Ordering)
    → (is_lt x ≡ true → is_lt y ≡ true → is_lt z ≡ true)
    → is_lt (then (compare_ℕ a b) x) ≡ true
    → is_lt (then (compare_ℕ b c) y) ≡ true
    → is_lt (then (compare_ℕ a c) z) ≡ true
then_trans a b c x y z h p q = ground arith

pub precedes_trans :
    (s t u : String) → precedes s t ≡ true → precedes t u ≡ true → precedes s u ≡ true
unfolding precedes
precedes_trans [] [] u p q = cc
precedes_trans [] (d ∷ t) [] p q = cc (compare.cons-nil d t)
precedes_trans [] (d ∷ t) (e ∷ u) p q = ap is_lt (compare.nil-cons e u)
precedes_trans (c ∷ s) [] u p q = cc (compare.cons-nil c s)
precedes_trans (c ∷ s) (d ∷ t) [] p q = cc (compare.cons-nil d t)
precedes_trans (c ∷ s) (d ∷ t) (e ∷ u) p q =
    ap is_lt (compare.cons-cons c e s u)
    ∙ then_trans (code c) (code d) (code e) (compare s t) (compare t u) (compare s u)
        (precedes_trans s t u) (sym (ap is_lt (compare.cons-cons c d s t)) ∙ p)
        (sym (ap is_lt (compare.cons-cons d e t u)) ∙ q)

then_total :
    (a b : ℕ) (x y : Ordering)
    → (is_lt x ≡ false → is_lt y ≡ false → x ≡ Ordering.eq)
    → is_lt (then (compare_ℕ a b) x) ≡ false
    → is_lt (then (compare_ℕ b a) y) ≡ false
    → then (compare_ℕ a b) x ≡ Ordering.eq
then_total a b x y h p q = ground arith

compare_total :
    (s t : String)
    → is_lt (compare s t) ≡ false
    → is_lt (compare t s) ≡ false
    → compare s t ≡ Ordering.eq
compare_total [] [] p q = refl
compare_total [] (d ∷ t) p q = cc (compare.nil-cons d t)
compare_total (c ∷ s) [] p q = cc (compare.nil-cons c s)
compare_total (c ∷ s) (d ∷ t) p q =
    compare.cons-cons c d s t
    ∙ then_total (code c) (code d) (compare s t) (compare t s) (compare_total s t)
        (sym (ap is_lt (compare.cons-cons c d s t)) ∙ p)
        (sym (ap is_lt (compare.cons-cons d c t s)) ∙ q)

pub precedes_total : (s t : String) → precedes s t ≡ false → precedes t s ≡ false → s ≡ t
unfolding precedes
precedes_total s t p q = path_by_compare s t (compare_total s t p q)

-- `utf8.RuneCountInString`.
unfoldable pub rune_count : String → ℕ
rune_count [] = 0
rune_count (c ∷ s) = suc (rune_count s)

abbrev is_hex : Char → Bool
is_hex c = (leb 48 (code c) && leb (code c) 57) || (leb 97 (code c) && leb (code c) 102)

unfoldable pub all_hex : String → Bool
all_hex [] = true
all_hex (c ∷ s) = is_hex c && all_hex s

-- 64 digits of a SHA-256 digest in lower case.
unfoldable pub valid_digest : String → Bool
unfolding all_hex
valid_digest s = len s == 64 && all_hex s
