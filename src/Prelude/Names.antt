-- ===== src/Prelude/Names.antt =====
-- Lists of texts, as sets and as bags.
use Prim.Native.Nat.{ℕ, suc, ◌+◌, ◌≤◌}
use Prim.Native.String.{String}
use mathlib.Core.Path.{◌≡◌, refl}
use mathlib.Core.Bool.{Bool, true, false, not, ◌&&◌}
use mathlib.Core.List.{List, [], ◌∷◌, ◌++◌}
use native.Mathlib.Omega.{arith}
use text.Mathlib.Text.{◌==◌}
use text.Mathlib.TextEquality.{eq_iff}
use contractplane.Prelude.Tests.{if◌then◌else◌}
use contractplane.Prelude.Lists.{keep, any, length}

-- k in ks
abbrev pub contains : List String → String → Bool
contains ks k = any (λ x. x == k) ks

-- The names but `k`.
abbrev pub without : String → List String → List String
without k ks = keep (λ x. not (x == k)) ks

-- No name twice.
abbrev pub are_distinct : List String → Bool
are_distinct [] = true
are_distinct (k ∷ ks) = not (contains ks k) && are_distinct ks

-- How often `k` is there.
abbrev pub count : String → List String → ℕ
count k [] = 0
count k (x ∷ xs) = (if x == k then 1 else 0) + count k xs

pub count-append : (k : String) (xs ys : List String) → count k (xs ++ ys) ≡ count k xs + count k ys
count-append k [] ys = omega arith
count-append k (x ∷ xs) ys = omega (arith, count-append k xs ys)

pub count_absent : (k : String) (xs : List String) → contains xs k ≡ false → count k xs ≡ 0
count_absent k [] h = refl
count_absent k (x ∷ xs) h = ground (arith, count_absent k xs)

pub contains-without :
    (k j : String) (ks : List String) → contains (without k ks) j ≡ (contains ks j && not (k == j))
contains-without k j [] = refl
contains-without k j (x ∷ xs) =
    ground (arith, eq_iff x k, eq_iff x j, eq_iff k j, contains-without k j xs)

pub are_distinct-without :
    (k : String) (ks : List String) → are_distinct ks ≡ true → are_distinct (without k ks) ≡ true
are_distinct-without k [] h = refl
are_distinct-without k (x ∷ xs) h =
    ground (arith, are_distinct-without k xs, contains-without k x xs)

pub length-without : (k : String) (ks : List String) → length (without k ks) ≤ length ks
length-without k [] = omega arith
length-without k (x ∷ xs) = ground (arith, length-without k xs)

pub length-without_contained :
    (k : String) (ks : List String) → contains ks k ≡ true → suc (length (without k ks)) ≤ length ks
length-without_contained k [] h = cc
length-without_contained k (x ∷ xs) h =
    ground (arith, length-without_contained k xs, length-without k xs)
