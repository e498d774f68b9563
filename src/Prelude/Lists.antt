-- ===== src/Prelude/Lists.antt =====
-- List functions over the native numbers and Boolean tests, under the library's names.
use Prim.Native.Nat.{ℕ, suc, ◌+◌, ◌≤◌}
use mathlib.Core.Path.{◌≡◌, refl, sym, ap, ◌∙◌, subst}
use mathlib.Core.Logic.{◌⊎◌, inl, inr}
use mathlib.Core.Bool.{Bool, true, false, ◌&&◌, ◌||◌}
use mathlib.Core.List.{List, [], ◌∷◌, ◌++◌}
use native.Mathlib.Omega.{arith}
use contractplane.Prelude.Tests.{if◌then◌else◌}

module _ {ℓ} {A : Type ℓ} where
  abbrev pub length : List A → ℕ
  length [] = 0
  length (x ∷ xs) = suc (length xs)

  pub length-append : (xs ys : List A) → length (xs ++ ys) ≡ length xs + length ys
  length-append [] ys = omega arith
  length-append (x ∷ xs) ys = omega (arith, length-append xs ys)

  -- Python's `all` and `any` over a comprehension.
  abbrev pub all : (A → Bool) → List A → Bool
  all p [] = true
  all p (x ∷ xs) = p x && all p xs

  abbrev pub any : (A → Bool) → List A → Bool
  any p [] = false
  any p (x ∷ xs) = p x || any p xs

  -- A comprehension with a test.
  abbrev pub keep : (A → Bool) → List A → List A
  keep p [] = []
  keep p (x ∷ xs) = let rest = keep p xs in if p x then x ∷ rest else rest

  abbrev pub is_empty : List A → Bool
  is_empty [] = true
  is_empty (x ∷ xs) = false

  pub keep-append : (p : A → Bool) (xs ys : List A) → keep p (xs ++ ys) ≡ keep p xs ++ keep p ys
  keep-append p [] ys = refl
  keep-append p (x ∷ xs) ys = ground (arith, keep-append p xs ys)

  pub any-append : (p : A → Bool) (xs ys : List A) → any p (xs ++ ys) ≡ (any p xs || any p ys)
  any-append p [] ys = refl
  any-append p (x ∷ xs) ys = ground (arith, any-append p xs ys)

-- Membership, by recursion. It is taken apart by clauses, into any type.
abbrev pub Member : {A : Type 0} → A → List A → Type 0
Member x [] = ⊥
Member x (y ∷ ys) = (y ≡ x) ⊎ Member x ys

Member-if :
    {A : Type 0} (x y : A) (ys : List A) (b : Bool)
    → Member x (if b then y ∷ ys else ys)
    → ((y ≡ x) × (b ≡ true)) ⊎ Member x ys
Member-if x y ys true (inl same) = inl (same, refl)
Member-if x y ys true (inr m) = inr m
Member-if x y ys false m = inr m

if-Member :
    {A : Type 0} (x y : A) (ys : List A) (b : Bool)
    → Member x ys
    → Member x (if b then y ∷ ys else ys)
if-Member x y ys true m = inr m
if-Member x y ys false m = m

module _ {A : Type 0} (p : A → Bool) where
  pub Member-keep : (x : A) (xs : List A) → Member x (keep p xs) → Member x xs × (p x ≡ true)
  Member-keep x [] m = absurd m
  Member-keep x (y ∷ ys) m = elim (Member-if x y (keep p ys) (p y) m) [
    | inl (same, holds) ↦ (inl same, ap p (sym same) ∙ holds)
    | inr rest ↦ let (there, holds) = Member-keep x ys rest in (inr there, holds)
  ]

  pub keep-Member : (x : A) (xs : List A) → Member x xs → p x ≡ true → Member x (keep p xs)
  keep-Member x [] m h = absurd m
  keep-Member x (y ∷ ys) (inl same) h = rw (ap p same ∙ h) (inl same)
  keep-Member x (y ∷ ys) (inr m) h = if-Member x y (keep p ys) (p y) (keep-Member x ys m h)

  pub length-keep : (xs : List A) → length (keep p xs) ≤ length xs
  length-keep [] = omega arith
  length-keep (x ∷ xs) = ground (arith, length-keep xs)

pub Member-append_left : {A : Type 0} (x : A) (xs ys : List A) → Member x xs → Member x (xs ++ ys)
Member-append_left x [] ys m = absurd m
Member-append_left x (y ∷ xs) ys (inl same) = inl same
Member-append_left x (y ∷ xs) ys (inr m) = inr (Member-append_left x xs ys m)

pub Member-append_right : {A : Type 0} (x : A) (xs ys : List A) → Member x ys → Member x (xs ++ ys)
Member-append_right x [] ys m = m
Member-append_right x (y ∷ xs) ys m = inr (Member-append_right x xs ys m)

pub append-Member :
    {A : Type 0} (x : A) (xs ys : List A) → Member x (xs ++ ys) → Member x xs ⊎ Member x ys
append-Member x [] ys m = inr m
append-Member x (y ∷ xs) ys (inl same) = inl (inl same)
append-Member x (y ∷ xs) ys (inr m) = elim (append-Member x xs ys m) [
  | inl left ↦ inl (inr left)
  | inr right ↦ inr right
]

-- What a test says of all, it says of a member.
pub all-Member :
    {A : Type 0} (p : A → Bool) (xs : List A) (x : A) → all p xs ≡ true → Member x xs → p x ≡ true
all-Member p [] x h m = absurd m
all-Member p (y ∷ ys) x h (inl same) = subst (λ z. p z ≡ true) same (ground arith)
all-Member p (y ∷ ys) x h (inr m) = all-Member p ys x (ground arith) m

-- Tests that agree on the members keep the same.
pub keep_cong :
    {A : Type 0} (p q : A → Bool) (xs : List A)
    → ((x : A) → Member x xs → p x ≡ q x)
    → keep p xs ≡ keep q xs
keep_cong p q [] same = refl
keep_cong p q (x ∷ xs) same = rw (same x (inl refl), keep_cong p q xs (λ y m. same y (inr m)))
