-- ===== src/Text/Levels.antt =====
-- Splitting a text at a separator and joining the parts.

use pipe_bolt.Prelude.{
  ==_iff, All, Bool-cases, List, [], ap, ap₂, append_assoc, arith, false, if◌then◌else◌, inl, inr,
  length, refl, suc, sym, ℕ, ◌++◌, ◌+◌, ◌==◌, ◌||◌, ◌∙◌, ◌∷◌, ◌≡◌,
}
use pipe_bolt.Text.{Str, contains, join, push_head, split}

-- How often a character stands in a text.
unfoldable pub occurrences : ℕ → Str → ℕ
occurrences c [] = 0
occurrences c (x ∷ s) = (if x == c then 1 else 0) + occurrences c s

pub occurrences-append :
    (c : ℕ) (s t : Str) → occurrences c (s ++ t) ≡ occurrences c s + occurrences c t
unfolding occurrences
occurrences-append c [] t = omega arith
occurrences-append c (x ∷ s) t = omega (arith, occurrences-append c s t)

pub occurrences_of_not_contains : (c : ℕ) (s : Str) → contains c s ≡ false → occurrences c s ≡ 0
unfolding occurrences contains
occurrences_of_not_contains c [] h = refl
occurrences_of_not_contains c (x ∷ s) h = ground (arith, occurrences_of_not_contains c s)

pub contains-append : (c : ℕ) (s t : Str) → contains c (s ++ t) ≡ (contains c s || contains c t)
unfolding contains
contains-append c [] t = refl
contains-append c (x ∷ s) t = ground (arith, contains-append c s t)

length-push_head :
    (c : ℕ) (s : Str) (sep : ℕ) → length (push_head c (split sep s)) ≡ length (split sep s)
unfolding split push_head
length-push_head c [] sep = refl
length-push_head c (x ∷ s) sep = ground (arith, length-push_head x s sep)

-- A text has one level more than it has separators.
pub length-split : (sep : ℕ) (s : Str) → length (split sep s) ≡ suc (occurrences sep s)
unfolding split occurrences
length-split sep [] = refl
length-split sep (x ∷ s) = ground (arith, length-split sep s, length-push_head x s sep)

-- A part without the separator, the separator and a rest split into that part and the rest's.
pub split-append :
    (sep : ℕ) (p s : Str) → contains sep p ≡ false → split sep (p ++ (sep ∷ s)) ≡ p ∷ split sep s
unfolding split contains
split-append sep [] s h = ground arith
split-append sep (x ∷ p) s h = ground (arith, split-append sep p s)

-- A text without the separator is one level.
pub split_of_not_contains : (sep : ℕ) (s : Str) → contains sep s ≡ false → split sep s ≡ s ∷ []
unfolding split contains
split_of_not_contains sep [] h = refl
split_of_not_contains sep (x ∷ s) h = ground (arith, split_of_not_contains sep s)

join-push_head :
    (sep c : ℕ) (p : Str) (ps : List Str) → join sep (push_head c (p ∷ ps)) ≡ c ∷ join sep (p ∷ ps)
unfolding join push_head
join-push_head sep c p [] = refl
join-push_head sep c p (q ∷ ps) = refl

-- The parts of a text, which are never none.
pub split-cons : (sep : ℕ) (s : Str) → (p : Str) × (ps : List Str) × (split sep s ≡ p ∷ ps)
unfolding split push_head
split-cons sep [] = ([], [], refl)
split-cons sep (x ∷ s) =
    let (p, ps, e) = split-cons sep s in
    elim (Bool-cases (x == sep)) [
      | inl same ↦ ([], split sep s, rw same)
      | inr other ↦ (x ∷ p, ps, rw (other, e))
    ]

join-empty : (sep : ℕ) (p : Str) (ps : List Str) → join sep ([] ∷ p ∷ ps) ≡ sep ∷ join sep (p ∷ ps)
unfolding join
join-empty sep p ps = refl

join-nil : (sep : ℕ) → join sep ([] ∷ []) ≡ []
unfolding join
join-nil sep = refl

-- Joining the parts of a text gives the text back.
pub join-split : (sep : ℕ) (s : Str) → join sep (split sep s) ≡ s
unfolding split
join-split sep [] = join-nil sep
join-split sep (x ∷ s) =
    let (p, ps, e) = split-cons sep s in
    elim (Bool-cases (x == sep)) [
      | inl same ↦
          rw (same, e, join-empty)
            (ap₂ ◌∷◌ (sym ((==_iff x sep).0 same)) (rw (← e) (join-split sep s)))
      | inr other ↦ rw (other, e, join-push_head) (ap (λ t. x ∷ t) (rw (← e) (join-split sep s)))
    ]

module _ (sep : ℕ) where
  abbrev pub HasNoSep : Str → Type 0
  HasNoSep p = contains sep p ≡ false

  HasNoSep-nil : HasNoSep []
  unfolding contains
  HasNoSep-nil = refl

  All-push_head :
      (x : ℕ) (ps : List Str) → (x == sep) ≡ false → All HasNoSep ps → All HasNoSep (push_head x ps)
  unfolding push_head contains
  All-push_head x [] e h = (ground arith, tt)
  All-push_head x (p ∷ ps) e h = (ground arith, h.1)

  -- No part of a split text holds the separator.
  pub split-All_not_contains : (s : Str) → All HasNoSep (split sep s)
  unfolding split
  split-All_not_contains [] = (HasNoSep-nil, tt)
  split-All_not_contains (x ∷ s) = elim (Bool-cases (x == sep)) [
    | inl same ↦ rw same (HasNoSep-nil, split-All_not_contains s)
    | inr other ↦ rw other (All-push_head x _ other (split-All_not_contains s))
  ]

push_head-append :
    (c : ℕ) (s : Str) (sep : ℕ) (ps : List Str)
    → push_head c (split sep s ++ ps) ≡ push_head c (split sep s) ++ ps
unfolding push_head
push_head-append c s sep ps = let (q, qs, e) = split-cons sep s in rw e refl

-- A text splits at a separator into the levels before it and those after it.
pub split_at : (sep : ℕ) (p r : Str) → split sep (p ++ (sep ∷ r)) ≡ split sep p ++ split sep r
unfolding split
split_at sep [] r = ground arith
split_at sep (x ∷ p) r = ground (arith, split_at sep p r, push_head-append x p sep (split sep r))

-- Joining levels and further levels.
pub join-append :
    (sep : ℕ) (p : Str) (ps : List Str) (q : Str) (qs : List Str)
    → join sep ((p ∷ ps) ++ (q ∷ qs)) ≡ join sep (p ∷ ps) ++ (sep ∷ join sep (q ∷ qs))
unfolding join
join-append sep p [] q qs = refl
join-append sep p (r ∷ ps) q qs =
    ap (λ t. p ++ (sep ∷ t)) (join-append sep r ps q qs)
    ∙ sym (append_assoc p (sep ∷ join sep (r ∷ ps)) (sep ∷ join sep (q ∷ qs)))
