-- ===== src/Forwarder/Responses.antt =====
-- What the reading of a response gives.
use pipe_bolt.Prelude.{
  Bool-cases, List, Option, Result, [], ap, arith, err, false, inl, inr, ltb, ltb→le, ltb→lt, map,
  none, ok, refl, some, subst, true, ℕ, ◌++◌, ◌+◌, ◌<◌, ◌||◌, ◌∷◌, ◌≡◌, ◌≤◌,
}
use pipe_bolt.Forwarder.Delivery.{
  Response, ResponseReadError, declares_more, read_chunks, read_failed, read_limited_response,
  too_large,
}
use pipe_bolt.Storage.Durations.{u64_max}

abbrev pub total_length : List ℕ → ℕ
total_length [] = 0
total_length (n ∷ ns) = n + total_length ns

abbrev pub whole : List ℕ → List (Option ℕ)
whole = map some

-- The body is read whole, or its first chunk that is too much or cannot be read ends the reading.
pub data Reading (limit total : ℕ) (chunks : List (Option ℕ))
    : Result ResponseReadError ℕ → Type 0 where
  all_read :
      (ns : List ℕ)
      → chunks ≡ whole ns
      → total + total_length ns ≤ limit
      → Reading limit total chunks (ok (total + total_length ns))
  overflowed :
      (before : List ℕ) (n : ℕ) (after : List (Option ℕ))
      → chunks ≡ whole before ++ some n ∷ after
      → total + total_length before ≤ limit
      → limit < total + total_length before + n
      → Reading limit total chunks (err too_large)
  broken :
      (before : List ℕ) (after : List (Option ℕ))
      → chunks ≡ whole before ++ none ∷ after
      → total + total_length before ≤ limit
      → Reading limit total chunks (err read_failed)

Reading-later :
    (limit total n : ℕ) (chunks : List (Option ℕ)) {r : Result ResponseReadError ℕ}
    → Reading limit (total + n) chunks r
    → Reading limit total (some n ∷ chunks) r
Reading-later limit total n chunks (all_read ns e fits) =
    subst (λ m. Reading limit total (some n ∷ chunks) (ok m)) (omega arith)
      (all_read (n ∷ ns) (ap (λ cs. some n ∷ cs) e) (omega arith))
Reading-later limit total n chunks (overflowed before m after e fits over) =
    overflowed (n ∷ before) m after (ap (λ cs. some n ∷ cs) e) (omega arith) (omega arith)
Reading-later limit total n chunks (broken before after e fits) =
    broken (n ∷ before) after (ap (λ cs. some n ∷ cs) e) (omega arith)

read_chunks-Reading :
    (limit total : ℕ) (chunks : List (Option ℕ))
    → limit ≤ u64_max
    → total ≤ limit
    → Reading limit total chunks (read_chunks limit total chunks)
unfolding read_chunks
read_chunks-Reading limit total [] small fits =
    subst (λ m. Reading limit total [] (ok m)) (omega arith) (all_read [] refl (omega arith))
read_chunks-Reading limit total (none ∷ chunks) small fits = broken [] chunks refl (omega arith)
read_chunks-Reading limit total (some n ∷ chunks) small fits =
    elim (Bool-cases (ltb limit (total + n))) [
      | inl over ↦
          let stops : (ltb u64_max (total + n) || ltb limit (total + n)) ≡ true = ground arith in
          rw stops (overflowed [] n chunks refl (omega arith) (omega (arith, ltb→lt _ _ over)))
      | inr under ↦
          let goes : (ltb u64_max (total + n) || ltb limit (total + n)) ≡ false = ground arith in
          rw goes (
            Reading-later limit total n chunks
              (read_chunks-Reading limit (total + n) chunks small (ltb→le _ _ under)))
    ]

-- A response that does not declare more than the limit is read to its end, if all of its chunks can
-- be read and are together within the limit; otherwise the first chunk that goes over the limit or
-- cannot be read decides the error.
pub read_limited_response-Reading :
    (response : Response) (limit : ℕ)
    → limit ≤ u64_max
    → declares_more response.content_length limit ≡ false
    → Reading limit 0 response.chunks (read_limited_response response limit)
unfolding read_limited_response
read_limited_response-Reading response limit small modest =
    rw modest (read_chunks-Reading limit 0 response.chunks small (omega arith))
