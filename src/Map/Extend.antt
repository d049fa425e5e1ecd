-- ===== src/Map/Extend.antt =====
-- What a map holds after another map with distinct keys has been added to it.
use pipe_bolt.Prelude.{[], arith, false, inl, inr, none, refl, ◌||◌, ◌∙◌, ◌∷◌, ◌≡◌}
use pipe_bolt.Text.{Str, str_eq}
use pipe_bolt.Text.Equality.{str_eq-cases, str_eq_iff}
use pipe_bolt.Map.{
  BTreeMap, contains_key, contains_key_iff_lookup, extend, insert, lookup, lookup-insert, or_else,
}

module _ {V : Type 0} where
  -- No key stands twice in the entries of the map.
  abbrev pub HasDistinctKeys : BTreeMap V → Type 0
  HasDistinctKeys [] = Unit
  HasDistinctKeys ((k, v) ∷ m) = (contains_key k m ≡ false) × HasDistinctKeys m

  contains_key-insert :
      (k j : Str) (v : V) (m : BTreeMap V)
      → contains_key j (insert k v m) ≡ (str_eq k j || contains_key j m)
  unfolding contains_key insert
  contains_key-insert k j v [] = refl
  contains_key-insert k j v ((i, w) ∷ m) =
      ground (arith, str_eq_iff k j, str_eq_iff i k, str_eq_iff i j, contains_key-insert k j v m)

  pub HasDistinctKeys-insert :
      (k : Str) (v : V) (m : BTreeMap V) → HasDistinctKeys m → HasDistinctKeys (insert k v m)
  unfolding contains_key insert
  HasDistinctKeys-insert k v [] h = (refl, tt)
  HasDistinctKeys-insert k v ((j, w) ∷ m) (fresh, h) = elim (str_eq-cases j k) [
    | inl (e, same) ↦ rw e (fresh, h)
    | inr (e, other) ↦ rw e (
      ground (arith, contains_key-insert k j v m, str_eq_iff k j, fresh),
      HasDistinctKeys-insert k v m h,
    )
  ]

  -- The added entries take precedence.
  pub lookup-extend :
      (j : Str) (m entries : BTreeMap V)
      → HasDistinctKeys entries
      → lookup j (extend m entries) ≡ or_else (lookup j entries) (lookup j m)
  unfolding lookup extend
  lookup-extend j m [] h = refl
  lookup-extend j m ((k, v) ∷ entries) (fresh, h) = elim (str_eq-cases k j) [
    | inl (e, same) ↦
        let gone : lookup j entries ≡ none = contains_key_iff_lookup j entries (rw same at fresh) in
        rw (lookup-extend j (insert k v m) entries h, gone, e) (lookup-insert k j v m ∙ rw e)
    | inr (e, other) ↦ rw (lookup-extend j (insert k v m) entries h, lookup-insert k j v m, e)
  ]
