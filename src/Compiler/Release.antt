-- ===== src/Compiler/Release.antt =====
-- What one round of `topological_waves` does to the ids that remain and to their indegrees.
use contractplane.Prelude.Dict
use contractplane.Prelude.Dict.{get-put}
use contractplane.Prelude.Int.{ℤ, pos, pred, is_zero, minus, minus-add}
use contractplane.Prelude.{
  ℕ, suc, ◌+◌, String, ◌≡◌, refl, sym, ap, ◌∙◌, inl, inr, true, not, some, List, [], ◌∷◌, arith,
  ◌==◌, eq_iff, if◌then◌else◌, Bool-cases, all, contains, without, are_distinct, count,
  contains-without, Member,
}
use contractplane.Errors.{ok}
use contractplane.Models.{Stage}
use contractplane.Compiler.{ids_of, lower_all, remove, release}
use contractplane.Compiler.Lookup.{
  present, has-put, dependents_of, count-dependents_of, contains-dependents_of,
}

-- How many of the needs remain.
unfoldable pub remaining_needs : List String → List String → ℕ
remaining_needs remaining [] = 0
remaining_needs remaining (need ∷ needs) =
    (if contains remaining need then 1 else 0) + remaining_needs remaining needs

pub remaining_needs-without :
    (k : String) (remaining needs : List String)
    → contains remaining k ≡ true
    → remaining_needs remaining needs ≡ remaining_needs (without k remaining) needs + count k needs
unfolding remaining_needs
remaining_needs-without k remaining [] h = refl
remaining_needs-without k remaining (need ∷ needs) h = ground (
  arith,
  eq_iff k need,
  eq_iff need k,
  contains-without k need remaining,
  remaining_needs-without k remaining needs,
)

pub remaining_needs-eq-zero :
    (remaining needs : List String)
    → is_zero (pos (remaining_needs remaining needs))
      ≡ all (λ need. not (contains remaining need)) needs
unfolding remaining_needs
remaining_needs-eq-zero remaining [] = refl
remaining_needs-eq-zero remaining (need ∷ needs) =
    ground (arith, remaining_needs-eq-zero remaining needs)

minus-one_add : (i : ℤ) (n : ℕ) → minus i (1 + n) ≡ minus (pred i) n
unfolding minus
minus-one_add i n = ap (minus i) (let e : 1 + n ≡ suc n = omega arith in e)

-- The decrements of one list.
lower_all_lem :
    (ids : List String) (d : Dict.Dict ℤ)
    → ((k : String) → contains ids k ≡ true → Dict.has d k ≡ true)
    → (d' : Dict.Dict ℤ) × (lower_all ids d ≡ ok d')
      × ((k : String) (i : ℤ)
          → Dict.get d k ≡ some i
          → Dict.get d' k ≡ some (minus i (count k ids)))
      × ((k : String) → Dict.has d k ≡ true → Dict.has d' k ≡ true)
unfolding lower_all minus
lower_all_lem [] d there = (d, refl, λ k i e. e, λ k h. h)
lower_all_lem (id ∷ ids) d there =
    let (degree, at) = present d id (there id (ground (arith, eq_iff id id))) in
    let d₁ = Dict.put d id (pred degree) in
    let (d', e, entry, kept) =
      lower_all_lem ids d₁ (λ k h. has-put d id k (pred degree) (there k (ground arith))) in
    (
      d',
      rw at e,
      λ k i found. elim (Bool-cases (id == k)) [
        | inl here ↦ rw here (
            entry k (pred i) (ground (arith, eq_iff id k, get-put d id k (pred degree)))
            ∙ ap some (sym (minus-one_add i (count k ids))))
        | inr elsewhere ↦ rw elsewhere (
            entry k i (ground (arith, get-put d id k (pred degree)))
            ∙ ap (λ n. some (minus i n)) (let e : count k ids ≡ 0 + count k ids = omega arith in e))
      ],
      λ k h. kept k (has-put d id k (pred degree) h),
    )

-- The names but those of a list.
abbrev pub without_all : List String → List String → List String
without_all [] names = names
without_all (k ∷ ks) names = without_all ks (without k names)

-- The invariant: the degrees of the watched stages count their needs that remain.
pub record Degrees (stages watched : List Stage) (remaining : List String) (d : Dict.Dict ℤ)
    : Type 0 where
  pub has_keys : (k : String) → contains (ids_of stages) k ≡ true → Dict.has d k ≡ true
  pub values :
      (s : Stage)
      → Member s watched
      → Dict.get d s.id ≡ some (pos (remaining_needs remaining s.needs))

module _ (stages watched : List Stage) (distinct : are_distinct (ids_of stages) ≡ true)
    (inside : (s : Stage) → Member s watched → Member s stages)
    (dependents : Dict.Dict (List String))
    (linked : (k : String)
      → contains (ids_of stages) k ≡ true
      → Dict.get dependents k ≡ some (dependents_of stages k)) where
  pub lower_one :
      (k : String) (remaining : List String) (d : Dict.Dict ℤ)
      → contains remaining k ≡ true
      → Degrees stages watched remaining d
      → (d' : Dict.Dict ℤ) × (lower_all (dependents_of stages k) d ≡ ok d')
        × Degrees stages watched (without k remaining) d'
  lower_one k remaining d there g =
      let (d', e, entry, kept) =
        lower_all_lem (dependents_of stages k) d
          (λ j h. g.has_keys j (contains-dependents_of k j stages h)) in
      (
        d',
        e,
        record {
          has_keys = λ j h. kept j (g.has_keys j h);
          values = λ s m.
              let left = remaining_needs (without k remaining) s.needs in
              entry s.id _ (g.values s m)
              ∙ ap some (
                  rw
                    (
                      count-dependents_of k stages s distinct (inside s m),
                      remaining_needs-without k remaining s.needs there,
                    )
                    (minus-add left (count k s.needs)));
        },
      )

  pub release_lem :
      (ready remaining : List String) (d : Dict.Dict ℤ)
      → are_distinct ready ≡ true
      → ((k : String) → contains ready k ≡ true → contains remaining k ≡ true)
      → ((k : String) → contains remaining k ≡ true → contains (ids_of stages) k ≡ true)
      → Degrees stages watched remaining d
      → (d' : Dict.Dict ℤ) × (release dependents ready
            (record { remaining = remaining; indegree = d })
          ≡ ok (record { remaining = without_all ready remaining; indegree = d' }))
        × Degrees stages watched (without_all ready remaining) d'
  unfolding release remove
  release_lem [] remaining d distinct_ready there known g = (d, refl, g)
  release_lem (k ∷ ks) remaining d distinct_ready there known g =
      let here = there k (ground (arith, eq_iff k k)) in
      let (d₁, e₁, g₁) = lower_one k remaining d here g in
      let (d', e, g') =
        release_lem ks (without k remaining) d₁ (ground arith)
          (λ j h. ground (arith, contains-without k j remaining, there j, eq_iff k j))
          (λ j h. known j (ground (arith, contains-without k j remaining))) g₁ in
      (d', rw (here, linked k (known k here), e₁) e, g')
