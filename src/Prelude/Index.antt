-- ===== src/Prelude/Index.antt =====
-- Tables of items by their ids.
use Prim.Native.String.{String}
use mathlib.Core.Path.{◌≡◌, refl, ap, sym, ◌∙◌, subst}
use mathlib.Core.Logic.{◌⊎◌, inl, inr}
use mathlib.Core.Bool.{◌||◌, true, false}
use mathlib.Core.Option.{some}
use mathlib.Core.List.{List, [], ◌∷◌, map}
use native.Mathlib.Omega.{arith}
use text.Mathlib.Text.{◌==◌}
use text.Mathlib.TextEquality.{eq_iff}
use contractplane.Prelude.Tests.{Bool-cases}
use contractplane.Prelude.Lists.{Member}
use contractplane.Prelude.Names.{contains, are_distinct}
use contractplane.Prelude.Dict
use contractplane.Prelude.Dict.{get-put}

module _ {V : Type 0} (id : V → String) where
  -- The keys of a table of items are their ids, and each entry is an item.
  pub has-index_onto :
      (d : Dict.Dict V) (xs : List V) (k : String)
      → Dict.has (Dict.index_onto id d xs) k ≡ (contains (map id xs) k || Dict.has d k)
  unfolding Dict.index_onto
  has-index_onto d [] k = refl
  has-index_onto d (x ∷ xs) k =
      ground (arith, has-index_onto (Dict.put d (id x) x) xs k, get-put d (id x) k x)

  pub get-index_onto :
      (d : Dict.Dict V) (xs : List V) (k : String) (x : V)
      → Dict.get (Dict.index_onto id d xs) k ≡ some x
      → (Member x xs × (id x ≡ k)) ⊎ (Dict.get d k ≡ some x)
  unfolding Dict.index_onto
  get-index_onto d [] k x h = inr h
  get-index_onto d (y ∷ ys) k x h = elim (get-index_onto (Dict.put d (id y) y) ys k x h) [
    | inl (m, same) ↦ inl (inr m, same)
    | inr e ↦ elim (Bool-cases (id y == k)) [
      | inl here ↦
          let it : y ≡ x = ground (arith, get-put d (id y) k y) in
          inl (inl it, ap id (sym it) ∙ ground (arith, eq_iff (id y) k))
      | inr elsewhere ↦ inr (ground (arith, get-put d (id y) k y))
    ]
  ]

  pub get-index_onto_absent :
      (d : Dict.Dict V) (xs : List V) (k : String)
      → contains (map id xs) k ≡ false
      → Dict.get (Dict.index_onto id d xs) k ≡ Dict.get d k
  unfolding Dict.index_onto
  get-index_onto_absent d [] k h = refl
  get-index_onto_absent d (x ∷ xs) k h =
      get-index_onto_absent (Dict.put d (id x) x) xs k (ground arith)
      ∙ ground (arith, get-put d (id x) k x)

  contains-map : (x : V) (xs : List V) → Member x xs → contains (map id xs) (id x) ≡ true
  contains-map x [] m = absurd m
  contains-map x (y ∷ ys) (inl same) = ground (arith, eq_iff (id y) (id x), ap id same)
  contains-map x (y ∷ ys) (inr m) = ground (arith, contains-map x ys m)

  -- Where no two items have the same id, each is found under its own.
  pub get-index_onto_distinct :
      (d : Dict.Dict V) (xs : List V) (x : V)
      → are_distinct (map id xs) ≡ true
      → Member x xs
      → Dict.get (Dict.index_onto id d xs) (id x) ≡ some x
  unfolding Dict.index_onto
  get-index_onto_distinct d [] x h m = absurd m
  get-index_onto_distinct d (y ∷ ys) x h (inl same) =
      subst (λ z. Dict.get (Dict.index_onto id d (y ∷ ys)) (id z) ≡ some z) same
        (get-index_onto_absent (Dict.put d (id y) y) ys (id y) (ground arith)
          ∙ ground (arith, get-put d (id y) (id y) y, eq_iff (id y) (id y)))
  get-index_onto_distinct d (y ∷ ys) x h (inr m) =
      get-index_onto_distinct (Dict.put d (id y) y) ys x (ground arith) m
