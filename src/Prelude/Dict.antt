-- ===== src/Prelude/Dict.antt =====
-- Python's `dict` with text keys: an association list in the order of insertion. Writing to a key
-- that is there keeps its place.
use Prim.Native.String.{String}
use mathlib.Core.Path.{◌≡◌, refl}
use mathlib.Core.Bool.{Bool, true, false}
use mathlib.Core.Option.{Option, none, some}
use mathlib.Core.List.{List, [], ◌∷◌, map}
use native.Mathlib.Omega.{arith}
use text.Mathlib.Text.{◌==◌}
use text.Mathlib.TextEquality.{eq_iff}
use contractplane.Prelude.Tests.{if◌then◌else◌, is_some}
use contractplane.Prelude.Lists.{all, is_empty}

abbrev pub Dict {ℓ} : Type ℓ → Type ℓ
Dict V = List (String × V)

module _ {ℓ} {V : Type ℓ} where
  -- d.get(k)
  unfoldable pub get : Dict V → String → Option V
  get [] k = none
  get ((j, v) ∷ d) k = if j == k then some v else get d k

  -- d[k] = v
  unfoldable pub put : Dict V → String → V → Dict V
  put [] k v = (k, v) ∷ []
  put ((j, w) ∷ d) k v = let rest = put d k v in if j == k then (j, v) ∷ d else (j, w) ∷ rest

  -- k in d
  abbrev pub has : Dict V → String → Bool
  has d k = is_some (get d k)

  abbrev pub keys : Dict V → List String
  keys d = map (λ entry. entry.0) d

  abbrev pub values : Dict V → List V
  values d = map (λ entry. entry.1) d

  pub get-put :
      (d : Dict V) (k j : String) (new : V)
      → get (put d k new) j ≡ (if k == j then some new else get d j)
  unfolding get put
  get-put [] k j new = refl
  get-put ((i, w) ∷ d) k j new =
      ground (arith, eq_iff k j, eq_iff i k, eq_iff i j, get-put d k j new)

  pub get-put_self : (d : Dict V) (k : String) (v : V) → get (put d k v) k ≡ some v
  get-put_self d k v = ground (arith, get-put d k k v, eq_iff k k)

  -- A test that holds of all values holds of the one at a key.
  pub get_of_all :
      (p : V → Bool) (d : Dict V) (k : String) (v : V)
      → all p (values d) ≡ true
      → get d k ≡ some v
      → p v ≡ true
  unfolding get
  get_of_all p [] k v h e = cc
  get_of_all p ((j, w) ∷ d) k v h e = ground (arith, get_of_all p d k v)

  pub all-put :
      (p : V → Bool) (d : Dict V) (k : String) (v : V)
      → all p (values d) ≡ true
      → p v ≡ true
      → all p (values (put d k v)) ≡ true
  unfolding put
  all-put p [] k v h e = ground arith
  all-put p ((j, w) ∷ d) k v h e = ground (arith, all-put p d k v)

  -- The same for tests of keys.
  pub key_of_all :
      (p : String → Bool) (d : Dict V) (k : String) (v : V)
      → all p (keys d) ≡ true
      → get d k ≡ some v
      → p k ≡ true
  unfolding get
  key_of_all p [] k v h e = cc
  key_of_all p ((j, w) ∷ d) k v h e = ground (arith, eq_iff j k, key_of_all p d k v)

  pub all-keys-put :
      (p : String → Bool) (d : Dict V) (k : String) (v : V)
      → all p (keys d) ≡ true
      → p k ≡ true
      → all p (keys (put d k v)) ≡ true
  unfolding put
  all-keys-put p [] k v h e = ground arith
  all-keys-put p ((j, w) ∷ d) k v h e = ground (arith, all-keys-put p d k v)

  pub put_filled : (d : Dict V) (k : String) (v : V) → is_empty (put d k v) ≡ false
  unfolding put
  put_filled [] k v = refl
  put_filled ((j, w) ∷ d) k v = ground arith

  -- `{item.id: item for item in items}`, written onto `d`: a later item replaces an earlier one.
  unfoldable pub index_onto : (V → String) → Dict V → List V → Dict V
  index_onto id d [] = d
  index_onto id d (x ∷ xs) = index_onto id (put d (id x) x) xs

  abbrev pub index_by : (V → String) → List V → Dict V
  index_by id xs = index_onto id [] xs

pub ruleset dict_laws = (get-put, get-put_self)
