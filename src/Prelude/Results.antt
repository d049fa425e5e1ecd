-- ===== src/Prelude/Results.antt =====
-- Fallible code: `Result` for Rust's `Result<A, E>`, with `?` as a bind.
use mathlib.Core.Path.{◌≡◌, refl}
use mathlib.Core.Logic.{◌⊎◌, inl, inr}
use mathlib.Core.Bool.{Bool, true, false}
use mathlib.Core.List.{List, [], ◌∷◌}

pub data Result {ℓ κ} (E : Type ℓ) (A : Type κ) : Type (ℓ ⊔ κ) where
  ok : A → Result E A
  err : E → Result E A

module _ {ℓ} {E : Type ℓ} where
  infixl 5 ◌>>=◌ ◌>>◌
  abbrev pub ◌>>=◌ {κ μ} : {A : Type κ} {B : Type μ} → Result E A → (A → Result E B) → Result E B
  ok value >>= next = next value
  err why >>= next = err why

  abbrev pub ◌>>◌ {κ} : {B : Type κ} → Result E (Unit {0}) → Result E B → Result E B
  first >> next = first >>= λ _. next

  -- `if bad { return Err(e) }`
  abbrev pub reject_if : Bool → E → Result E (Unit {0})
  reject_if true e = err e
  reject_if false e = ok tt

  -- `for x in xs { f(x)?; }`
  abbrev pub for_each {κ} : {A : Type κ} → (A → Result E (Unit {0})) → List A → Result E (Unit {0})
  for_each f [] = ok tt
  for_each f (x ∷ xs) = f x >>= λ _. for_each f xs

  -- What a chain that ends well has gone through.
  pub >>=-eq-ok {κ μ} :
      {X : Type κ} {Y : Type μ} (r : Result E X) (next : X → Result E Y) {y : Y}
      → (r >>= next) ≡ ok y
      → (x : X) × (r ≡ ok x) × (next x ≡ ok y)
  >>=-eq-ok (err why) next h = cc
  >>=-eq-ok (ok x) next h = (x, refl, h)

  pub Result-cases {κ} :
      {A : Type κ} (r : Result E A) → ((a : A) × (r ≡ ok a)) ⊎ ((e : E) × (r ≡ err e))
  Result-cases (ok a) = inl (a, refl)
  Result-cases (err e) = inr (e, refl)

  pub reject_if-eq-ok : (b : Bool) (e : E) → reject_if b e ≡ ok tt → b ≡ false
  reject_if-eq-ok true e h = cc
  reject_if-eq-ok false e h = refl

-- `.map_err(f)`, and the `From` conversion that `?` makes.
abbrev pub map_err {ℓ κ μ} :
    {E : Type ℓ} {F : Type κ} {A : Type μ} → (E → F) → Result E A → Result F A
map_err f (ok a) = ok a
map_err f (err e) = err (f e)

pub map_err-eq-ok {ℓ κ μ} :
    {E : Type ℓ} {F : Type κ} {A : Type μ} (f : E → F) (r : Result E A) {a : A}
    → map_err f r ≡ ok a
    → r ≡ ok a
map_err-eq-ok f (ok b) h = cc
map_err-eq-ok f (err e) h = cc

pub ok-injective {ℓ κ} :
    {E : Type ℓ} {A : Type κ} {a b : A} → ◌≡◌ {A = Result E A} (ok a) (ok b) → a ≡ b
ok-injective h = cc
