-- ===== src/Realtime/Prefix.antt =====
-- The prefixes of topics in crates/pipe-bolt-core/src/web/realtime/filter.rs, by their levels.
use pipe_bolt.Prelude.{
  ==_iff, Bool-cases, List, Option, [], ap, append-nil, arith, inl, inr, none, refl, some,
  some-injective, sym, true, ◌++◌, ◌∙◌, ◌∷◌, ◌↔◌, ◌≡◌,
}
use pipe_bolt.Text.{Str, join, split, str_eq}
use pipe_bolt.Text.Equality.{eq_of_str_eq, str_eq_iff}
use pipe_bolt.Text.Levels.{join-append, join-split, split-cons, split_at}
use pipe_bolt.Domain.Config.Filter.{slash}
use pipe_bolt.Realtime.{is_below, strip_prefix, topic_matches_prefix}

strip_prefix-append : (p r : Str) → strip_prefix p (p ++ r) ≡ some r
unfolding strip_prefix
strip_prefix-append [] r = refl
strip_prefix-append (x ∷ p) r = ground (arith, strip_prefix-append p r)

append_of_strip_prefix : (p s r : Str) → strip_prefix p s ≡ some r → s ≡ p ++ r
unfolding strip_prefix
append_of_strip_prefix [] s r h = some-injective h
append_of_strip_prefix (x ∷ p) [] r h = cc
append_of_strip_prefix (x ∷ p) (c ∷ s) r h = ground (arith, append_of_strip_prefix p s r)

-- The levels of the topic begin with those of the prefix.
abbrev pub LiesUnder : Str → Str → Type 0
LiesUnder prefix topic = (rest : List Str) × (split slash topic ≡ split slash prefix ++ rest)

below-LiesUnder :
    (topic prefix : Str) (o : Option Str)
    → strip_prefix prefix topic ≡ o
    → is_below o ≡ true
    → LiesUnder prefix topic
below-LiesUnder topic prefix none e h = cc
below-LiesUnder topic prefix (some []) e h = cc
below-LiesUnder topic prefix (some (c ∷ r)) e h =
    let is_slash : c ≡ slash = (==_iff c slash).0 h in
    (
      split slash r,
      rw (append_of_strip_prefix prefix topic (c ∷ r) e, is_slash) (split_at slash prefix r),
    )

prefix-LiesUnder :
    (topic prefix : Str) → topic_matches_prefix topic prefix ≡ true → LiesUnder prefix topic
unfolding topic_matches_prefix
prefix-LiesUnder topic prefix h = elim (Bool-cases (str_eq topic prefix)) [
  | inl same ↦ ([], rw (eq_of_str_eq _ _ same) (sym (append-nil (split slash prefix))))
  | inr other ↦ below-LiesUnder topic prefix (strip_prefix prefix topic) refl (rw other at h)
]

LiesUnder-prefix :
    (topic prefix : Str) → LiesUnder prefix topic → topic_matches_prefix topic prefix ≡ true
unfolding topic_matches_prefix
LiesUnder-prefix topic prefix ([], e) =
    let same : topic ≡ prefix =
      sym (join-split slash topic)
      ∙ ap (join slash) (e ∙ append-nil (split slash prefix))
      ∙ join-split slash prefix in
    rw ((str_eq_iff topic prefix).1 same) refl
LiesUnder-prefix topic prefix (q ∷ qs, e) =
    let (p, ps, cut) = split-cons slash prefix in
    let ends : topic ≡ prefix ++ (slash ∷ join slash (q ∷ qs)) =
      sym (join-split slash topic)
      ∙ ap (join slash) (rw cut at e)
      ∙ join-append slash p ps q qs
      ∙ rw (← cut) (ap (λ t. t ++ (slash ∷ join slash (q ∷ qs))) (join-split slash prefix)) in
    let below : strip_prefix prefix topic ≡ some (slash ∷ join slash (q ∷ qs)) =
      rw ends (strip_prefix-append prefix (slash ∷ join slash (q ∷ qs))) in
    elim (Bool-cases (str_eq topic prefix)) [
      | inl same ↦ rw same refl
      | inr other ↦ rw (other, below) refl
    ]

-- A prefix matches exactly the topics whose levels begin with its own.
pub prefix_iff :
    (topic prefix : Str) → (topic_matches_prefix topic prefix ≡ true) ↔ LiesUnder prefix topic
prefix_iff topic prefix = (prefix-LiesUnder topic prefix, LiesUnder-prefix topic prefix)
