-- ===== src/Prelude/First.antt =====
-- The first element of a list at which a partial function has a value.
use mathlib.Core.Path.{◌≡◌, refl, ap}
use mathlib.Core.Option.{Option, none, some}
use mathlib.Core.List.{List, [], ◌∷◌, ◌++◌}
use pipe_bolt.Prelude.Lists.{All}

module _ {ℓ κ} {A : Type ℓ} {B : Type κ} (f : A → Option B) where
  -- `f` has the value `b` at `a`, and none at what stands before `a`.
  pub record IsFirst (as' : List A) (a : A) (b : B) : Type (ℓ ⊔ κ) where
    pub before : List A
    pub after : List A
    pub split : as' ≡ before ++ a ∷ after
    pub skipped : All (λ c. f c ≡ none) before
    pub matched : f a ≡ some b

  pub IsFirst-here : (a : A) (as' : List A) (b : B) → f a ≡ some b → IsFirst (a ∷ as') a b
  IsFirst-here a as' b h = record {
    before = [];
    after = as';
    split = refl;
    skipped = tt;
    matched = h;
  }

  pub IsFirst-later :
      (c a : A) (as' : List A) (b : B) → f c ≡ none → IsFirst as' a b → IsFirst (c ∷ as') a b
  IsFirst-later c a as' b h i = record {
    before = c ∷ i.before;
    after = i.after;
    split = ap (λ l. c ∷ l) i.split;
    skipped = (h, i.skipped);
    matched = i.matched;
  }
