-- ===== src/Text/Equality.antt =====
-- The equality test on texts decides equality.
use pipe_bolt.Prelude.{
  ◌≡◌, refl, ap₂, true, false, [], ◌∷◌, ◌↔◌, arith, ==_iff, and-eq-true, ◌⊎◌, inl, inr, ◌≢◌,
  Bool-cases,
}
use pipe_bolt.Text.{Str, str_eq}

pub eq_of_str_eq : (s t : Str) → str_eq s t ≡ true → s ≡ t
unfolding str_eq
eq_of_str_eq [] [] h = refl
eq_of_str_eq [] (d ∷ t) h = cc
eq_of_str_eq (c ∷ s) [] h = cc
eq_of_str_eq (c ∷ s) (d ∷ t) h =
    let (p, q) = and-eq-true _ _ h in ap₂ ◌∷◌ ((==_iff c d).0 p) (eq_of_str_eq s t q)

pub str_eq_refl : (s : Str) → str_eq s s ≡ true
unfolding str_eq
str_eq_refl [] = refl
str_eq_refl (c ∷ s) = ground (arith, str_eq_refl s)

pub str_eq_iff : (s t : Str) → (str_eq s t ≡ true) ↔ (s ≡ t)
str_eq_iff s t = (eq_of_str_eq s t, λ e. rw e (str_eq_refl t))

-- To split on whether two texts are the same.
pub str_eq-cases : (s t : Str) → ((str_eq s t ≡ true) × (s ≡ t)) ⊎ ((str_eq s t ≡ false) × (s ≢ t))
str_eq-cases s t = elim (Bool-cases (str_eq s t)) [
  | inl e ↦ inl (e, eq_of_str_eq s t e)
  | inr e ↦ inr (e, λ p. cc (e, (str_eq_iff s t).1 p))
]
