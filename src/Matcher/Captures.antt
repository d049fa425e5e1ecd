-- ===== src/Matcher/Captures.antt =====
-- What the matching loop means: which parts of a topic a filter captures.
use mathlib.Core.Option
use native.Mathlib.Numerals.{add-one}
use pipe_bolt.Prelude.{
  List, Option, [], ap, append-nil, append_assoc, arith, drop, false, get_elem?, if◌then◌else◌, inl,
  inr, is_empty, length, none, refl, some, suc, sym, zero, ℕ, ◌++◌, ◌<◌, ◌↔◌, ◌∙◌, ◌∷◌, ◌≡◌, ◌≤◌,
}
use pipe_bolt.Text.{Str, contains, split, str_eq}
use pipe_bolt.Text.Equality.{str_eq-cases, str_eq_refl}
use pipe_bolt.Domain.Config.Filter.{hash, plus, slash}
use pipe_bolt.Matcher.{
  TopicFilter, TopicFilterLevel, TopicParams, exact, match_levels, matches, multi_wildcard,
  single_wildcard,
}

-- The levels of a topic fit the levels of a filter, a `+` capturing one level and a `#` the rest.
abbrev pub Captures : List TopicFilterLevel → List Str → List Str → List Str → Type 0
Captures [] topic singles multi = (topic ≡ []) × (singles ≡ []) × (multi ≡ [])
Captures (exact e ∷ levels) [] singles multi = ⊥
Captures (exact e ∷ levels) (t ∷ topic) singles multi =
    (e ≡ t) × Captures levels topic singles multi
Captures (single_wildcard ∷ levels) [] singles multi = ⊥
Captures (single_wildcard ∷ levels) (t ∷ topic) [] multi = ⊥
Captures (single_wildcard ∷ levels) (t ∷ topic) (s ∷ singles) multi =
    (s ≡ t) × Captures levels topic singles multi
Captures (multi_wildcard ∷ levels) topic singles multi = (singles ≡ []) × (multi ≡ topic)

abbrev add_single : Str → List Str × List Str → List Str × List Str
add_single t c = (t ∷ c.0, c.1)

-- The captures of a topic, by recursion on its levels instead of on an index.
capture : List TopicFilterLevel → List Str → Option (List Str × List Str)
capture [] [] = some ([], [])
capture [] (t ∷ topic) = none
capture (exact e ∷ levels) [] = none
capture (exact e ∷ levels) (t ∷ topic) =
    let rest = capture levels topic in if str_eq e t then rest else none
capture (single_wildcard ∷ levels) [] = none
capture (single_wildcard ∷ levels) (t ∷ topic) = Option.map (add_single t) (capture levels topic)
capture (multi_wildcard ∷ levels) topic = some ([], topic)

map-add_single :
    (t s : Str) (singles multi : List Str) (o : Option (List Str × List Str))
    → Option.map (add_single t) o ≡ some (s ∷ singles, multi)
    → (s ≡ t) × (o ≡ some (singles, multi))
map-add_single t s singles multi none h = cc
map-add_single t s singles multi (some (ss, ms)) h = (cc, cc)

none≢some : {c : List Str × List Str} → ¬ (none ≡ some c)
none≢some h = cc

capture-Captures :
    (levels : List TopicFilterLevel) (topic singles multi : List Str)
    → capture levels topic ≡ some (singles, multi)
    → Captures levels topic singles multi
unfolding capture
capture-Captures [] [] singles multi h = (refl, cc, cc)
capture-Captures [] (t ∷ topic) singles multi h = cc
capture-Captures (exact e ∷ levels) [] singles multi h = cc
capture-Captures (exact e ∷ levels) (t ∷ topic) singles multi h = elim (str_eq-cases e t) [
  | inl (same, p) ↦ (p, capture-Captures levels topic singles multi (rw same at h))
  | inr (other, p) ↦ absurd (none≢some (rw other at h))
]
capture-Captures (single_wildcard ∷ levels) [] singles multi h = cc
capture-Captures (single_wildcard ∷ levels) (t ∷ topic) [] multi h =
    let (c, found, same) = (Option.map-eq-some_iff _ _).0 h in cc
capture-Captures (single_wildcard ∷ levels) (t ∷ topic) (s ∷ singles) multi h =
    let (same, found) = map-add_single t s singles multi _ h in
    (same, capture-Captures levels topic singles multi found)
capture-Captures (multi_wildcard ∷ levels) topic singles multi h = (cc, cc)

Captures-capture :
    (levels : List TopicFilterLevel) (topic singles multi : List Str)
    → Captures levels topic singles multi
    → capture levels topic ≡ some (singles, multi)
unfolding capture
Captures-capture [] [] singles multi h = cc (h.1, h.2)
Captures-capture [] (t ∷ topic) singles multi h = cc (h.0)
Captures-capture (exact e ∷ levels) [] singles multi h = absurd h
Captures-capture (exact e ∷ levels) (t ∷ topic) singles multi h =
    rw (h.0, str_eq_refl t) (Captures-capture levels topic singles multi h.1)
Captures-capture (single_wildcard ∷ levels) [] singles multi h = absurd h
Captures-capture (single_wildcard ∷ levels) (t ∷ topic) [] multi h = absurd h
Captures-capture (single_wildcard ∷ levels) (t ∷ topic) (s ∷ singles) multi h =
    rw (Captures-capture levels topic singles multi h.1, h.0)
Captures-capture (multi_wildcard ∷ levels) topic singles multi h = cc (h.0, h.1)

abbrev finish : List Str → Option (List Str × List Str) → Option TopicParams
finish singles none = none
finish singles (some (ss, ms)) = some (record { single_level = singles ++ ss; multi_level = ms })

abbrev with_singles : List Str → TopicParams
with_singles singles = record { single_level = singles; multi_level = [] }

drop-get :
    (topic : List Str) (i : ℕ) {t : Str} {rest : List Str}
    → drop i topic ≡ t ∷ rest
    → (get_elem? topic i ≡ some t) × (drop (suc i) topic ≡ rest) × (i < length topic)
drop-get [] zero h = cc
drop-get [] (suc i) h = cc
drop-get (x ∷ topic) zero h = (cc, cc, omega arith)
drop-get (x ∷ topic) (suc i) h = let (a, b, c) = drop-get topic i h in (a, b, omega arith)

drop-nil :
    (topic : List Str) (i : ℕ) → drop i topic ≡ [] → (get_elem? topic i ≡ none) × (length topic ≤ i)
drop-nil [] zero h = (refl, omega arith)
drop-nil [] (suc i) h = (refl, omega arith)
drop-nil (x ∷ topic) zero h = cc
drop-nil (x ∷ topic) (suc i) h = let (a, b) = drop-nil topic i h in (a, omega arith)

finish-add_single :
    (singles : List Str) (t : Str) (o : Option (List Str × List Str))
    → finish (singles ++ t ∷ []) o ≡ finish singles (Option.map (add_single t) o)
finish-add_single singles t none = refl
finish-add_single singles t (some (ss, ms)) = simp append_assoc

match_levels-eq-capture :
    (levels : List TopicFilterLevel) (topic rest : List Str) (i : ℕ) (singles : List Str)
    → i ≤ length topic
    → drop i topic ≡ rest
    → match_levels levels topic i (with_singles singles) ≡ finish singles (capture levels rest)
unfolding match_levels capture
match_levels-eq-capture [] topic [] i singles le h =
    let (absent, above) = drop-nil topic i h in simp append-nil (ground arith)
match_levels-eq-capture [] topic (t ∷ rest) i singles le h =
    let (found, next, below) = drop-get topic i h in ground arith
match_levels-eq-capture (exact e ∷ levels) topic [] i singles le h =
    rw ((drop-nil topic i h).0, match_levels)
match_levels-eq-capture (exact e ∷ levels) topic (t ∷ rest) i singles le h =
    let (found, next, below) = drop-get topic i h in
    elim (str_eq-cases e t) [
      | inl (same, p) ↦
          rw (found, match_levels, same, add-one)
            (match_levels-eq-capture levels topic rest (suc i) singles below next)
      | inr (other, p) ↦ rw (found, match_levels, other)
    ]
match_levels-eq-capture (single_wildcard ∷ levels) topic [] i singles le h =
    rw ((drop-nil topic i h).0, match_levels)
match_levels-eq-capture (single_wildcard ∷ levels) topic (t ∷ rest) i singles le h =
    let (found, next, below) = drop-get topic i h in
    rw (found, match_levels, add-one, ← finish-add_single)
      (match_levels-eq-capture levels topic rest (suc i) (singles ++ t ∷ []) below next)
match_levels-eq-capture (multi_wildcard ∷ levels) topic rest i singles le h = rw (h, append-nil)

abbrev with_params : TopicParams → List Str × List Str
with_params p = (p.single_level, p.multi_level)

abbrev of_captures : List Str × List Str → TopicParams
of_captures c = record { single_level = c.0; multi_level = c.1 }

finish-eq-some :
    (o : Option (List Str × List Str)) (p : TopicParams)
    → (finish [] o ≡ some p) ↔ (o ≡ some (p.single_level, p.multi_level))
finish-eq-some none p = (λ h. cc, λ h. cc)
finish-eq-some (some (ss, ms)) p =
    (λ h. ap (Option.map with_params) h, λ h. ap (Option.map of_captures) h)

-- The topics that a filter is tried on: not empty, and without wildcards.
abbrev pub IsConcrete : Str → Type 0
IsConcrete topic =
    (is_empty topic ≡ false) × (contains plus topic ≡ false) × (contains hash topic ≡ false)

-- A filter matches a topic, with the given parameters, exactly if the topic is not empty and holds
-- no wildcard, and its levels fit those of the filter: equal texts at the exact levels, the single
-- parameters at the `+` levels in order, and the multi parameters for what a `#` is left with.
pub matches_iff :
    (filter : TopicFilter) (topic : Str) (p : TopicParams)
    → (matches filter topic ≡ some p)
      ↔ (IsConcrete topic × Captures filter.levels (split slash topic) p.single_level p.multi_level)
unfolding matches
matches_iff filter topic p =
    let whole =
      match_levels-eq-capture filter.levels (split slash topic) (split slash topic) 0 []
        (omega arith) refl in
    let fin = finish-eq-some (capture filter.levels (split slash topic)) p in
    (
      λ h. (
        ground arith,
        capture-Captures filter.levels (split slash topic) _ _ (fin.0 (sym whole ∙ ground arith)),
      ),
      λ h.
          rw (h.0.0, h.0.1, h.0.2)
            (whole ∙ fin.1 (Captures-capture filter.levels (split slash topic) _ _ h.1)),
    )
