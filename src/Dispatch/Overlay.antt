-- ===== src/Dispatch/Overlay.antt =====
-- The metadata that actions add: allowed entries, within the limit on their number.
use pipe_bolt.Prelude.{
  >>=-eq-ok, All, Bool, Bool-cases, List, Result, String, [], arith, err, false, inl, inr, leb,
  length, map_err-eq-ok, not, ok, ok-injective, refl, reject_if, reject_if-eq-ok, subst, ◌&&◌, ◌∷◌,
  ◌≡◌, ◌≤◌,
}
use pipe_bolt.Text.{Str, str_eq}
use pipe_bolt.Map.{All-insert, BTreeMap, contains_key, insert, length-insert, length-insert_old}
use pipe_bolt.Metadata.{IsAllowed, validate_action_metadata_iff}
use pipe_bolt.Domain.Event.{
  ActionIntent, NormalizedEvent, add_metadata, drop_event, execute_command, forward_to_sink,
  stream_to_ui,
}
use pipe_bolt.Error.{DispatchError}
use pipe_bolt.Dispatch.{
  Boundaries, DispatchLimits, DispatchOutcome, ExecutedAction, Progress, dispatch, dispatch_all,
  dispatch_intent, execute, insert_metadata, intent_event_id, metadata_error, metadata_limits,
  record_answer, record_metadata, start, validate_metadata,
}

abbrev pub IsAllowedEntry : DispatchLimits → Str × Str → Type 0
IsAllowedEntry limits e = IsAllowed (metadata_limits limits) e.0 e.1

pub record IsBounded (limits : DispatchLimits) (overlay : BTreeMap Str) : Type 0 where
  pub few : length overlay ≤ limits.max_metadata_entries_per_event
  pub allowed : All (IsAllowedEntry limits) overlay

abbrev is_full : BTreeMap Str → Str → DispatchLimits → Bool
is_full overlay key limits =
    not (contains_key key overlay) && leb limits.max_metadata_entries_per_event (length overlay)

length_inserted :
    (overlay : BTreeMap Str) (key value : Str) (limits : DispatchLimits)
    → length overlay ≤ limits.max_metadata_entries_per_event
    → is_full overlay key limits ≡ false
    → length (insert key value overlay) ≤ limits.max_metadata_entries_per_event
length_inserted overlay key value limits h room =
    ground (arith, length-insert_old key value overlay, length-insert key value overlay)

inserted :
    (overlay out : BTreeMap Str) (key value : Str) (limits : DispatchLimits)
    → IsBounded limits overlay
    → is_full overlay key limits ≡ false
    → IsAllowed (metadata_limits limits) key value
    → insert key value overlay ≡ out
    → IsBounded limits out
inserted overlay out key value limits h room allowed same = subst (IsBounded limits) same (record {
  few = length_inserted overlay key value limits h.few room;
  allowed = All-insert (IsAllowedEntry limits) key value overlay allowed h.allowed;
})

insert_metadata-IsBounded :
    (overlay out : BTreeMap Str) (key value : Str) (limits : DispatchLimits)
    → IsBounded limits overlay
    → insert_metadata overlay key value limits ≡ ok out
    → IsBounded limits out
unfolding insert_metadata validate_metadata
insert_metadata-IsBounded overlay out key value limits h e =
    let (u, valid, e1) = >>=-eq-ok (validate_metadata key value limits) _ e in
    let (v, room, e2) = >>=-eq-ok (reject_if (is_full overlay key limits) _) _ e1 in
    inserted overlay out key value limits h (reject_if-eq-ok _ _ room)
      ((validate_action_metadata_iff key value (metadata_limits limits)).0
        (map_err-eq-ok metadata_error _ (unfold validate_metadata in valid)))
      (ok-injective e2)

module _ {N W : Type 0} (b : Boundaries N W) (limits : DispatchLimits)
    (event : NormalizedEvent N) where
  abbrev IsBoundedAt : Progress W → Type 0
  IsBoundedAt p = IsBounded limits p.overlay

  record_answer-IsBounded :
      {A : Type 0} (p : Progress W) (kind : String) (f : A → ExecutedAction)
      (answer : Result DispatchError A × W)
      → IsBoundedAt p
      → IsBoundedAt (record_answer b limits event p kind f answer)
  record_answer-IsBounded p kind f (ok r, w) h = h
  record_answer-IsBounded p kind f (err e, w) h = h

  record_metadata-IsBounded :
      (p : Progress W) (key value : Str) (r : Result DispatchError (BTreeMap Str))
      → insert_metadata p.overlay key value limits ≡ r
      → IsBoundedAt p
      → IsBoundedAt (record_metadata b limits event p key r)
  record_metadata-IsBounded p key value (ok o) e h =
      insert_metadata-IsBounded p.overlay o key value limits h e
  record_metadata-IsBounded p key value (err x) e h = h

  execute-IsBounded :
      (p : Progress W) (i : ActionIntent N)
      → IsBoundedAt p
      → IsBoundedAt (execute b limits event p i)
  unfolding execute
  execute-IsBounded p (stream_to_ui id) h = record_answer-IsBounded p _ _ _ h
  execute-IsBounded p (forward_to_sink id sink projection) h = record_answer-IsBounded p _ _ _ h
  execute-IsBounded p (drop_event id reason) h = h
  execute-IsBounded p (add_metadata id key value) h =
      record_metadata-IsBounded p key value (insert_metadata p.overlay key value limits) refl h
  execute-IsBounded p (execute_command id template params correlation) h =
      record_answer-IsBounded p _ _ _ h

  dispatch_intent-IsBounded :
      (p : Progress W) (i : ActionIntent N)
      → IsBoundedAt p
      → IsBoundedAt (dispatch_intent b limits event p i)
  unfolding dispatch_intent
  dispatch_intent-IsBounded p i h = elim (Bool-cases p.dropped) [
    | inl dropped ↦ simp dropped h
    | inr live ↦ elim (Bool-cases (str_eq (intent_event_id i) event.id)) [
      | inl own ↦ simp (live, own) (execute-IsBounded p i h)
      | inr other ↦ simp (live, other) h
    ]
  ]

  dispatch_all-IsBounded :
      (p : Progress W) (intents : List (ActionIntent N))
      → IsBoundedAt p
      → IsBoundedAt (dispatch_all b limits event p intents)
  unfolding dispatch_all
  dispatch_all-IsBounded p [] h = h
  dispatch_all-IsBounded p (i ∷ intents) h =
      dispatch_all-IsBounded (dispatch_intent b limits event p i) intents
        (dispatch_intent-IsBounded p i h)

  -- The overlay of a dispatch has at most the limit's number of entries, and each of them is allowed.
  pub dispatch-IsBounded :
      (intents : List (ActionIntent N)) (w : W) (o : DispatchOutcome)
      → (dispatch b limits event intents w).0 ≡ ok o
      → IsBounded limits o.metadata_overlay
  unfolding dispatch
  dispatch-IsBounded intents w o h =
      let bounded =
        dispatch_all-IsBounded (start b limits event w) intents
          (record { few = omega arith; allowed = tt }) in
      let same : o.metadata_overlay
          ≡ (dispatch_all b limits event (start b limits event w) intents).overlay =
        ground arith in
      rw same bounded
