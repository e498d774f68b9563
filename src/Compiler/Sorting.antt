-- ===== src/Compiler/Sorting.antt =====
-- Sorting ids that stand in the order of the stages changes nothing.
use contractplane.Prelude.Dict
use contractplane.Prelude.Dict.{get-put}
use contractplane.Prelude.{
  ℕ, suc, ◌≤◌, String, ◌≡◌, refl, ap, ◌∙◌, inl, inr, Bool, true, false, some, List, [], ◌∷◌, map,
  arith, eq_iff, Bool-cases, keep, contains, are_distinct,
}
use contractplane.Errors.{ok}
use contractplane.Models.{Stage}
use contractplane.Compiler.{ids_of, order_onto, keyed, insert_keyed, sort_keyed, sorted_by}

-- The indexes of the stages rise, from `lower` on.
pub Rises : Dict.Dict ℕ → ℕ → List Stage → Type 0
Rises order lower [] = Unit
Rises order lower (s ∷ ss) =
    (index : ℕ) × (Dict.get order s.id ≡ some index) × (lower ≤ index) × Rises order (suc index) ss

Rises-weaken :
    (order : Dict.Dict ℕ) (lower higher : ℕ) (ss : List Stage)
    → lower ≤ higher
    → Rises order higher ss
    → Rises order lower ss
unfolding Rises
Rises-weaken order lower higher [] h r = tt
Rises-weaken order lower higher (s ∷ ss) h (index, at, above, rest) = (index, at, omega arith, rest)

pub Rises-keep :
    (order : Dict.Dict ℕ) (p : Stage → Bool) (lower : ℕ) (ss : List Stage)
    → Rises order lower ss
    → Rises order lower (keep p ss)
unfolding Rises
Rises-keep order p lower [] r = tt
Rises-keep order p lower (s ∷ ss) (index, at, above, rest) =
    let kept = Rises-keep order p (suc index) ss rest in
    elim (Bool-cases (p s)) [
      | inl e ↦ rw e (index, at, above, kept)
      | inr e ↦ rw e (Rises-weaken order lower (suc index) (keep p ss) (omega arith) kept)
    ]

get-order_onto_absent :
    (n : ℕ) (d : Dict.Dict ℕ) (ss : List Stage) (k : String)
    → contains (ids_of ss) k ≡ false
    → Dict.get (order_onto n d ss) k ≡ Dict.get d k
unfolding order_onto
get-order_onto_absent n d [] k h = refl
get-order_onto_absent n d (s ∷ ss) k h =
    get-order_onto_absent (suc n) (Dict.put d s.id n) ss k (ground arith)
    ∙ ground (arith, get-put d s.id k n)

pub order_onto-Rises :
    (n : ℕ) (d : Dict.Dict ℕ) (ss : List Stage)
    → are_distinct (ids_of ss) ≡ true
    → Rises (order_onto n d ss) n ss
unfolding Rises order_onto
order_onto-Rises n d [] h = tt
order_onto-Rises n d (s ∷ ss) h = (
  n,
  get-order_onto_absent (suc n) (Dict.put d s.id n) ss s.id (ground arith)
      ∙ ground (arith, get-put d s.id s.id n, eq_iff s.id s.id),
  omega arith,
  order_onto-Rises (suc n) (Dict.put d s.id n) ss (ground arith),
)

-- The keyed list, and that it is sorted.
IsAbove : ℕ → List (ℕ × String) → Type 0
IsAbove lower [] = Unit
IsAbove lower (x ∷ xs) = (lower ≤ x.0) × IsAbove (suc x.0) xs

keyed_lem :
    (order : Dict.Dict ℕ) (lower : ℕ) (ss : List Stage)
    → Rises order lower ss
    → (pairs : List (ℕ × String)) × (keyed order (ids_of ss) ≡ ok pairs)
      × IsAbove lower pairs
      × (map (λ pair. pair.1) pairs ≡ ids_of ss)
unfolding Rises IsAbove keyed
keyed_lem order lower [] r = ([], refl, tt, refl)
keyed_lem order lower (s ∷ ss) (index, at, above, rest) =
    let (pairs, e, sorted, same) = keyed_lem order (suc index) ss rest in
    ((index, s.id) ∷ pairs, rw (at, e), (above, sorted), ap (λ ks. s.id ∷ ks) same)

insert_keyed_first :
    (x : ℕ × String) (xs : List (ℕ × String)) → IsAbove (suc x.0) xs → insert_keyed x xs ≡ x ∷ xs
unfolding insert_keyed IsAbove
insert_keyed_first x [] h = refl
insert_keyed_first x (y ∷ ys) h = ground arith

sort_keyed_sorted : (lower : ℕ) (xs : List (ℕ × String)) → IsAbove lower xs → sort_keyed xs ≡ xs
unfolding sort_keyed IsAbove
sort_keyed_sorted lower [] h = refl
sort_keyed_sorted lower (x ∷ xs) h =
    ap (insert_keyed x) (sort_keyed_sorted (suc x.0) xs h.1) ∙ insert_keyed_first x xs h.1

pub sorted_by_rising :
    (order : Dict.Dict ℕ) (lower : ℕ) (ss : List Stage)
    → Rises order lower ss
    → sorted_by order (ids_of ss) ≡ ok (ids_of ss)
unfolding sorted_by
sorted_by_rising order lower ss r =
    let (pairs, e, sorted, same) = keyed_lem order lower ss r in
    rw (e, sort_keyed_sorted lower pairs sorted) (ap ok same)
