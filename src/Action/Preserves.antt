-- ===== src/Action/Preserves.antt =====
-- Invariants of actions, whether they return or raise.
use mathlib.Core.Bool.{Bool, true, false}
use contractplane.Prelude.{if◌then◌else◌}
use contractplane.Errors.{Result, ok, raise}
use contractplane.Action.{Action, pure, lift, gets, ask, continue, ◌>>=◌}

pub record Preserves {ℓ} {S A : Type ℓ} (P : S → Type ℓ) (m : Action S A) : Type ℓ where
  pub run : (s : S) → P s → P (m s).1

module _ {ℓ} {S A : Type ℓ} {P : S → Type ℓ} where
  pub Preserves-pure : (a : A) → Preserves P (pure a)
  unfolding pure
  Preserves-pure a = record { run = λ s h. h }

  pub Preserves-lift : (r : Result A) → Preserves P (lift r)
  unfolding lift
  Preserves-lift r = record { run = λ s h. h }

  pub Preserves-gets : (f : S → A) → Preserves P (gets f)
  unfolding gets
  Preserves-gets f = record { run = λ s h. h }

  pub Preserves-ask : (f : S → Result A) → Preserves P (ask f)
  unfolding ask
  Preserves-ask f = record { run = λ s h. h }

  pub Preserves-if :
      (b : Bool) (m n : Action S A)
      → Preserves P m
      → Preserves P n
      → Preserves P (if b then m else n)
  Preserves-if true m n hm hn = hm
  Preserves-if false m n hm hn = hn

module _ {ℓ} {S A B : Type ℓ} {P : S → Type ℓ} where
  pub Preserves-bind :
      (m : Action S A) (f : A → Action S B)
      → Preserves P m
      → ((a : A) → Preserves P (f a))
      → Preserves P (m >>= f)
  unfolding ◌>>=◌
  Preserves-bind m f hm hf = record { run = λ s h. after (m s).0 (m s).1 (hm.run s h) }
    where
      after : (r : Result A) (t : S) → P t → P (continue r f t).1
      after (ok a) t h = (hf a).run t h
      after (raise e) t h = h

pub ruleset preserves_rules =
    (Preserves-pure, Preserves-lift, Preserves-gets, Preserves-ask, Preserves-if, Preserves-bind)
