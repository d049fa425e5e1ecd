-- ===== src/Effects.antt =====
-- Fallible code with effects: a function on the state of the world that gives a result and a new
-- state. The state that an error leaves is kept.
use pipe_bolt.Prelude.{All, List, Result, [], err, ok, refl, subst, ◌∷◌, ◌≡◌}

abbrev pub Effect {ℓ κ μ} : Type ℓ → Type κ → Type μ → Type (ℓ ⊔ κ ⊔ μ)
Effect W E A = W → Result E A × W

module _ {W E : Type 0} where
  abbrev pub continue : {A B : Type 0} → Result E A × W → (A → Effect W E B) → Result E B × W
  continue (ok a, w) next = next a w
  continue (err e, w) next = (err e, w)

  infixl 5 ◌>>=◌
  abbrev pub ◌>>=◌ : {A B : Type 0} → Effect W E A → (A → Effect W E B) → Effect W E B
  m >>= next = λ w. continue (m w) next

  abbrev pub pure : {A : Type 0} → A → Effect W E A
  pure a = λ w. (ok a, w)

  -- `xs.iter().map(f).collect::<Result<Vec<_>, _>>()` with effects
  unfoldable pub traverse : {A B : Type 0} → (A → Effect W E B) → List A → Effect W E (List B)
  traverse f [] = pure []
  traverse f (x ∷ xs) = f x >>= λ y. traverse f xs >>= λ ys. pure (y ∷ ys)

  -- What a step that ends well has gone through.
  pub continue-eq-ok :
      {A B : Type 0} (p : Result E A × W) (next : A → Effect W E B) {b : B} {w' : W}
      → continue p next ≡ (ok b, w')
      → (a : A) × (v : W) × (p ≡ (ok a, v)) × (next a v ≡ (ok b, w'))
  continue-eq-ok (ok a, v) next h = (a, v, refl, h)
  continue-eq-ok (err e, v) next h = cc

-- `xs.into_iter().map(f).collect::<Result<Vec<_>, _>>()`
unfoldable pub collect : {E A B : Type 0} → (A → Result E B) → List A → Result E (List B)
collect f [] = ok []
collect f (x ∷ xs) = elim (f x) [
  | err e ↦ err e
  | ok y ↦ elim (collect f xs) [ err e ↦ err e | ok ys ↦ ok (y ∷ ys) ]
]

module _ {W E A B : Type 0} (f : A → Effect W E B) (g : B → Result E A) (P : A → Type 0)
    (back : (a : A) (b : B) (w w' : W) → P a → f a w ≡ (ok b, w') → g b ≡ ok a) where
  pair-ok : {C : Type 0} {c d : C} {w v : W} → ◌≡◌ {A = Result E C × W} (ok c, w) (ok d, v) → c ≡ d
  pair-ok h = cc

  -- What goes through a traversal comes back by a collection that undoes its steps.
  pub collect-traverse :
      (xs : List A) (ys : List B) (w w' : W)
      → All P xs
      → traverse f xs w ≡ (ok ys, w')
      → collect g ys ≡ ok xs
  unfolding traverse collect
  collect-traverse [] ys w w' p h = subst (λ l. collect g l ≡ ok []) (pair-ok h) refl
  collect-traverse (x ∷ xs) ys w w' (p, ps) h =
      let (y, v, e, h1) = continue-eq-ok (f x w) _ h in
      let (zs, u, e', h2) = continue-eq-ok (traverse f xs v) _ h1 in
      subst (λ l. collect g l ≡ ok (x ∷ xs)) (pair-ok h2)
        (collected y zs x xs (back x y w v p e) (collect-traverse xs zs v u ps e'))
    where
      collected :
          (y : B) (zs : List B) (x : A) (xs : List A)
          → g y ≡ ok x
          → collect g zs ≡ ok xs
          → collect g (y ∷ zs) ≡ ok (x ∷ xs)
      collected y zs x xs e e' = rw (e, e', collect) refl
