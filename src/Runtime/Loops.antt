-- ===== src/Runtime/Loops.antt =====
-- What the loops of the checks of crates/pipe-bolt-daemon/src/runtime.rs ask for.
use pipe_bolt.Prelude.{
  All, Bool-cases, List, Result, String, [], arith, err, false, inl, inr, length, map, map_err, ok,
  refl, reject_if, reject_if-eq-ok_iff, then-eq-ok_iff, true≢false, ℕ, ◌+◌, ◌<◌, ◌==◌, ◌>>=◌, ◌↔◌,
  ◌∷◌, ◌≡◌, ◌≢◌,
}
use pipe_bolt.Text.Equality.{str_eq-cases}
use pipe_bolt.Domain.Error.{Check, DomainError}
use pipe_bolt.Domain.Id.{Identifier}
use pipe_bolt.Runtime.{RuntimeError, domain_error}
use pipe_bolt.Runtime.Validation.{
  allow_single, contains_id, count_checked, insert_each, insert_unique_id, no_check,
}

abbrev pub IsDistinct : List Identifier → Type 0
IsDistinct [] = Unit
IsDistinct (id ∷ ids) = All (λ other. id ≢ other) ids × IsDistinct ids

pub map_err-ok_iff : (r : Check DomainError) → (map_err domain_error r ≡ ok tt) ↔ (r ≡ ok tt)
map_err-ok_iff (ok u) = (λ h. refl, λ h. refl)
map_err-ok_iff (err e) = (λ h. cc, λ h. cc)

module _ {A : Type 0} (check : A → Check RuntimeError) (id_of : A → Identifier)
    (collection : String) where
  abbrev Unseen : List Identifier → List A → Type 0
  Unseen seen xs = All (λ x. contains_id seen (id_of x) ≡ false) xs

  Unseen-cons :
      (x : A) (seen : List Identifier) (xs : List A)
      → Unseen (id_of x ∷ seen) xs ↔ (All (λ id. id_of x ≢ id) (map id_of xs) × Unseen seen xs)
  Unseen-cons x seen [] = (λ h. (tt, tt), λ h. tt)
  Unseen-cons x seen (y ∷ ys) =
      let rest = Unseen-cons x seen ys in
      elim (str_eq-cases (id_of x) (id_of y)) [
        | inl (same, e) ↦ rw same (λ h. elim (true≢false h.0) [ ], λ h. elim (h.0.0 e) [ ])
        | inr (other, differ) ↦ rw other (
          λ h. let r = rest.0 h.1 in ((differ, r.0), (h.0, r.1)),
          λ h. (h.1.0, rest.1 (h.0.1, h.1.1)),
        )
      ]

  insert_new-ok_iff :
      (seen : List Identifier) (id : Identifier) (next : List Identifier → Check RuntimeError)
      → ((insert_unique_id seen id collection >>= next) ≡ ok tt)
        ↔ ((contains_id seen id ≡ false) × (next (id ∷ seen) ≡ ok tt))
  insert_new-ok_iff seen id next = elim (Bool-cases (contains_id seen id)) [
    | inl old ↦ rw old (λ h. cc, λ h. elim (true≢false h.0) [ ])
    | inr new ↦ rw new (λ h. (refl, h), λ h. h.1)
  ]

  -- The loop ends well when each check does and no id is seen or comes twice.
  insert_each-ok_iff :
      (seen : List Identifier) (xs : List A)
      → (insert_each check id_of collection seen xs ≡ ok tt)
        ↔ (All (λ x. check x ≡ ok tt) xs × (Unseen seen xs × IsDistinct (map id_of xs)))
  unfolding insert_each
  insert_each-ok_iff seen [] = (λ h. (tt, (tt, tt)), λ h. refl)
  insert_each-ok_iff seen (x ∷ xs) =
      let first = then-eq-ok_iff (check x) _ in
      let second =
        insert_new-ok_iff seen (id_of x) (λ now. insert_each check id_of collection now xs) in
      let rest = insert_each-ok_iff (id_of x ∷ seen) xs in
      let unseen = Unseen-cons x seen xs in
      (
        λ h.
            let (checked, h) = first.0 h in
            let (new, h) = second.0 h in
            let (all_checked, (still, distinct)) = rest.0 h in
            let (apart, others) = unseen.0 still in
            ((checked, all_checked), ((new, others), (apart, distinct))),
        λ h.
            first.1
              (h.0.0, second.1 (h.1.0.0, rest.1 (h.0.1, (unseen.1 (h.1.1.0, h.1.0.1), h.1.1.1)))),
      )

  Unseen-nil : (xs : List A) → Unseen [] xs
  Unseen-nil [] = tt
  Unseen-nil (x ∷ xs) = (refl, Unseen-nil xs)

  -- From no id, what the loop asks for is that the ids are distinct.
  pub unique_iff :
      (xs : List A)
      → (insert_each check id_of collection [] xs ≡ ok tt)
        ↔ (All (λ x. check x ≡ ok tt) xs × IsDistinct (map id_of xs))
  unique_iff xs =
      let all_of = insert_each-ok_iff [] xs in
      (λ h. ((all_of.0 h).0, (all_of.0 h).1.1), λ h. all_of.1 (h.0, (Unseen-nil xs, h.1)))

pub unchecked_iff :
    {A : Type 0} (id_of : A → Identifier) (collection : String) (xs : List A)
    → (insert_each no_check id_of collection [] xs ≡ ok tt) ↔ IsDistinct (map id_of xs)
unchecked_iff id_of collection xs =
    let all_of = unique_iff no_check id_of collection xs in
    (λ h. (all_of.0 h).1, λ h. all_of.1 (passed xs, h))
  where
    passed : {A : Type 0} (xs : List A) → All (λ x. no_check x ≡ ok tt) xs
    passed [] = tt
    passed (x ∷ xs) = (refl, passed xs)

chain-ok_iff :
    {B : Type 0} (c : Check RuntimeError) (r : Result RuntimeError B)
    (next : B → Check RuntimeError)
    → (((c >>= λ _. r) >>= next) ≡ ok tt) ↔ ((c ≡ ok tt) × ((r >>= next) ≡ ok tt))
chain-ok_iff (ok u) r next = (λ h. (refl, h), λ h. h.1)
chain-ok_iff (err e) r next = (λ h. cc, λ h. h.0)

pub count_checked-ok_iff :
    {A : Type 0} (check : A → Check RuntimeError) (e : RuntimeError) (n : ℕ) (xs : List A)
    → ((count_checked check n xs >>= λ m. reject_if (m == 0) e) ≡ ok tt)
      ↔ (All (λ x. check x ≡ ok tt) xs × (0 < n + length xs))
unfolding count_checked
count_checked-ok_iff check e n [] =
    let rejects = reject_if-eq-ok_iff (n == 0) e in
    (λ h. (tt, positive n (rejects.0 h)), λ h. rejects.1 (nonzero n h.1))
  where
    positive : (n : ℕ) → (n == 0) ≡ false → 0 < n + 0
    positive n h = ground arith

    nonzero : (n : ℕ) → 0 < n + 0 → (n == 0) ≡ false
    nonzero n h = ground arith
count_checked-ok_iff check e n (x ∷ xs) =
    let first =
      chain-ok_iff (check x) (count_checked check (n + 1) xs) (λ m. reject_if (m == 0) e) in
    let rest = count_checked-ok_iff check e (n + 1) xs in
    (
      λ h.
          let (checked, h) = first.0 h in
          let (others, h) = rest.0 h in ((checked, others), omega arith),
      λ h. let long = h.1 in first.1 (h.0.0, rest.1 (h.0.1, omega arith)),
    )

pub single_iff :
    {A : Type 0} (xs : List A) → (allow_single (length xs) ≡ ok tt) ↔ ((x : A) × (xs ≡ x ∷ []))
single_iff [] = (λ h. cc, λ h. cc)
single_iff (x ∷ []) = (λ h. (x, refl), λ h. refl)
single_iff (x ∷ y ∷ xs) = (λ h. cc, λ h. let (z, e) = h in cc)
