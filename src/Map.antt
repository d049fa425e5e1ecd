-- ===== src/Map.antt =====
-- Rust's `BTreeMap` with text keys, as an association list. The model keeps the order of the
-- entries it is given and adds new keys at the end: no modelled code depends on the place of a key
-- that `insert` has added.
pub mod Extend
use pipe_bolt.Prelude.{
  All, Bool, List, Option, [], arith, false, if◌then◌else◌, inl, inr, length, none, refl, some, suc,
  true, ◌||◌, ◌∷◌, ◌≡◌, ◌≤◌,
}
use pipe_bolt.Text.{Str, str_eq}
use pipe_bolt.Text.Equality.{str_eq-cases, str_eq_iff}

abbrev pub BTreeMap : Type 0 → Type 0
BTreeMap V = List (Str × V)

module _ {V : Type 0} where
  -- `get`
  unfoldable pub lookup : Str → BTreeMap V → Option V
  lookup k [] = none
  lookup k ((j, v) ∷ m) = let rest = lookup k m in if str_eq j k then some v else rest

  -- `contains_key`
  unfoldable pub contains_key : Str → BTreeMap V → Bool
  contains_key k [] = false
  contains_key k ((j, v) ∷ m) = str_eq j k || contains_key k m

  -- `insert`
  unfoldable pub insert : Str → V → BTreeMap V → BTreeMap V
  insert k v [] = (k, v) ∷ []
  insert k v ((j, w) ∷ m) =
      let rest = insert k v m in if str_eq j k then (j, v) ∷ m else (j, w) ∷ rest

  -- `extend`
  unfoldable pub extend : BTreeMap V → BTreeMap V → BTreeMap V
  unfolding insert
  extend m [] = m
  extend m ((k, v) ∷ entries) = extend (insert k v m) entries

  -- `keys`
  abbrev pub keys : BTreeMap V → List Str
  keys [] = []
  keys ((k, v) ∷ m) = k ∷ keys m

  abbrev pub or_else : Option V → Option V → Option V
  or_else (some v) other = some v
  or_else none other = other

  pub lookup-insert :
      (k j : Str) (v : V) (m : BTreeMap V)
      → lookup j (insert k v m) ≡ (if str_eq k j then some v else lookup j m)
  unfolding lookup insert
  lookup-insert k j v [] = refl
  lookup-insert k j v ((i, w) ∷ m) =
      ground (arith, str_eq_iff k j, str_eq_iff i k, str_eq_iff i j, lookup-insert k j v m)

  pub contains_key_iff_lookup :
      (k : Str) (m : BTreeMap V) → contains_key k m ≡ false → lookup k m ≡ none
  unfolding lookup contains_key
  contains_key_iff_lookup k [] h = refl
  contains_key_iff_lookup k ((j, v) ∷ m) h = ground (arith, contains_key_iff_lookup k m)

  pub length-insert_old :
      (k : Str) (v : V) (m : BTreeMap V)
      → contains_key k m ≡ true
      → length (insert k v m) ≡ length m
  unfolding contains_key insert
  length-insert_old k v [] h = cc
  length-insert_old k v ((j, w) ∷ m) h = ground (arith, length-insert_old k v m)

  pub length-insert : (k : Str) (v : V) (m : BTreeMap V) → length (insert k v m) ≤ suc (length m)
  unfolding insert
  length-insert k v [] = omega arith
  length-insert k v ((j, w) ∷ m) = ground (arith, length-insert k v m)

  -- What an insertion adds satisfies a predicate that it and the map satisfied.
  pub All-insert :
      (P : Str × V → Type 0) (k : Str) (v : V) (m : BTreeMap V)
      → P (k, v)
      → All P m
      → All P (insert k v m)
  unfolding insert
  All-insert P k v [] p h = (p, tt)
  All-insert P k v ((j, w) ∷ m) p (q, h) = elim (str_eq-cases j k) [
    | inl (e, same) ↦ rw e (rw same p, h)
    | inr (e, other) ↦ rw e (q, All-insert P k v m p h)
  ]
