-- ===== src/Prelude/Checks.antt =====
-- What a check that ends well says, both ways.
use mathlib.Core.Path.{◌≡◌, refl, subst}
use mathlib.Core.Logic.{◌↔◌, ◌≢◌, ◌⊎◌, inl, inr}
use mathlib.Core.Bool.{Bool, true, false, not}
use mathlib.Core.List.{List, [], ◌∷◌, map}
use mathlib.Core.Option.{none, some}
use pipe_bolt.Prelude.Lists.{All, any, find, keep}
use pipe_bolt.Prelude.Tests.{Bool-cases, some-injective}
use pipe_bolt.Prelude.Results.{Result, err, for_each, ok, reject_if, ◌>>◌}

-- A member of a list has a property.
abbrev pub Exists : {A : Type 0} → (A → Type 0) → List A → Type 0
Exists P [] = ⊥
Exists P (x ∷ xs) = P x ⊎ Exists P xs

module _ {E : Type 0} where
  pub then-eq-ok_iff :
      (a b : Result E (Unit {0})) → ((a >> b) ≡ ok tt) ↔ ((a ≡ ok tt) × (b ≡ ok tt))
  then-eq-ok_iff (ok u) b = (λ h. (refl, h), λ h. h.1)
  then-eq-ok_iff (err e) b = (λ h. cc, λ h. h.0)

  pub reject_if-eq-ok_iff : (b : Bool) (e : E) → (reject_if b e ≡ ok tt) ↔ (b ≡ false)
  reject_if-eq-ok_iff true e = (λ h. cc, λ h. cc)
  reject_if-eq-ok_iff false e = (λ h. refl, λ h. refl)

  pub for_each-eq-ok_iff :
      {A : Type 0} (f : A → Result E (Unit {0})) (P : A → Type 0)
      → ((a : A) → (f a ≡ ok tt) ↔ P a)
      → (xs : List A) → (for_each f xs ≡ ok tt) ↔ All P xs
  for_each-eq-ok_iff f P each [] = (λ h. tt, λ h. refl)
  for_each-eq-ok_iff f P each (x ∷ xs) =
      let both = then-eq-ok_iff (f x) (for_each f xs) in
      let rest = for_each-eq-ok_iff f P each xs in
      (
        λ h. ((each x).0 (both.0 h).0, rest.0 (both.0 h).1),
        λ h. both.1 ((each x).1 h.0, rest.1 h.1),
      )

pub All-keep_iff :
    {A : Type 0} (test : A → Bool) (P : A → Type 0) (xs : List A)
    → All P (keep test xs) ↔ All (λ x. test x ≡ true → P x) xs
All-keep_iff test P [] = (λ h. tt, λ h. tt)
All-keep_iff test P (x ∷ xs) =
    let rest = All-keep_iff test P xs in
    elim (Bool-cases (test x)) [
      | inl kept ↦ rw kept (λ h. ((λ _. h.0), rest.0 h.1), λ h. (h.0 refl, rest.1 h.1))
      | inr dropped ↦ rw dropped (λ h. ((λ e. cc), rest.0 h), λ h. rest.1 h.1)
    ]

pub Exists-map :
    {A : Type 0} (P Q : A → Type 0)
    → ((a : A) → P a → Q a)
    → (xs : List A) → Exists P xs
    → Exists Q xs
Exists-map P Q f [] h = h
Exists-map P Q f (x ∷ xs) (inl h) = inl (f x h)
Exists-map P Q f (x ∷ xs) (inr h) = inr (Exists-map P Q f xs h)

-- The test of a member of the part of a list that passes a first test.
pub any-keep_iff :
    {A : Type 0} (first second : A → Bool) (xs : List A)
    → (any second (keep first xs) ≡ true) ↔ Exists (λ x. (first x ≡ true) × (second x ≡ true)) xs
any-keep_iff first second [] = (λ h. cc, λ h. elim h [ ])
any-keep_iff first second (x ∷ xs) =
    let rest = any-keep_iff first second xs in
    elim (Bool-cases (first x)) [
      | inr dropped ↦
          rw dropped (λ h. inr (rest.0 h), λ h. elim h [ inl both ↦ cc | inr later ↦ rest.1 later ])
      | inl kept ↦ elim (Bool-cases (second x)) [
        | inl found ↦ rw (kept, found) (λ h. inl (refl, refl), λ h. refl)
        | inr other ↦
            rw (kept, other)
              (λ h. inr (rest.0 h), λ h. elim h [ inl both ↦ cc | inr later ↦ rest.1 later ])
      ]
    ]

pub any_iff :
    {A : Type 0} (test : A → Bool) (xs : List A)
    → (any test xs ≡ true) ↔ Exists (λ x. test x ≡ true) xs
any_iff test [] = (λ h. cc, λ h. elim h [ ])
any_iff test (x ∷ xs) =
    let rest = any_iff test xs in
    elim (Bool-cases (test x)) [
      | inl found ↦ rw found (λ h. inl refl, λ h. refl)
      | inr other ↦
          rw other (λ h. inr (rest.0 h), λ h. elim h [ inl e ↦ cc | inr later ↦ rest.1 later ])
    ]

-- The test of the members of an image is the test of the members before it.
pub any-map :
    {A B : Type 0} (test : B → Bool) (f : A → B) (xs : List A)
    → any test (map f xs) ≡ any (λ x. test (f x)) xs
any-map test f [] = refl
any-map test f (x ∷ xs) = rw (any-map test f xs) refl

pub All-same :
    {A : Type 0} (P Q : A → Type 0) → ((a : A) → P a ↔ Q a) → (xs : List A) → All P xs ↔ All Q xs
All-same P Q each [] = (λ h. tt, λ h. tt)
All-same P Q each (x ∷ xs) =
    let rest = All-same P Q each xs in
    (λ h. ((each x).0 h.0, rest.0 h.1), λ h. ((each x).1 h.0, rest.1 h.1))

pub both_iff : {A B C D : Type 0} → A ↔ C → B ↔ D → (A × B) ↔ (C × D)
both_iff h k = (λ p. (h.0 p.0, k.0 p.1), λ p. (h.1 p.0, k.1 p.1))

pub trans_iff : {A B C : Type 0} → A ↔ B → B ↔ C → A ↔ C
trans_iff h k = (λ a. k.0 (h.0 a), λ c. h.1 (k.1 c))

pub true≢false : true ≢ false
true≢false e = cc

pub not-eq-false_iff : (b : Bool) → (not b ≡ false) ↔ (b ≡ true)
not-eq-false_iff true = (λ h. refl, λ h. refl)
not-eq-false_iff false = (λ h. cc, λ h. cc)

-- What is found passes the test.
pub find-passes :
    {A : Type 0} (test : A → Bool) (xs : List A) {a : A} → find test xs ≡ some a → test a ≡ true
find-passes test [] h = cc
find-passes test (x ∷ xs) {a = a} h = elim (Bool-cases (test x)) [
  | inl kept ↦ subst (λ y. test y ≡ true) (some-injective (rw kept at h)) kept
  | inr dropped ↦ find-passes test xs (rw dropped at h)
]

-- What is found has what all have.
pub find-All :
    {A : Type 0} (test : A → Bool) (P : A → Type 0) (xs : List A) {a : A}
    → find test xs ≡ some a
    → All P xs
    → P a
find-All test P [] h p = elim (none≢some h) [ ]
  where
    none≢some : {A : Type 0} {a : A} → none ≢ some a
    none≢some e = cc
find-All test P (x ∷ xs) {a = a} h (p, ps) = elim (Bool-cases (test x)) [
  | inl kept ↦ subst P (some-injective (rw kept at h)) p
  | inr dropped ↦ find-All test P xs (rw dropped at h) ps
]

pub Exists-All :
    {A : Type 0} {P Q : A → Type 0} (xs : List A) → All P xs → Exists Q xs → (x : A) × P x × Q x
Exists-All [] p q = elim q [ ]
Exists-All (x ∷ xs) (p, ps) (inl q) = (x, p, q)
Exists-All (x ∷ xs) (p, ps) (inr q) = Exists-All xs ps q
