-- ===== src/Tests/Values.antt =====
-- Identifiers and delays.
use pipe_bolt.Backoff
use pipe_bolt.Backoff.{next_delay_after}
use pipe_bolt.Prelude.{arith, err, min, ok, refl, ◌*◌, ◌^◌, ◌↔◌, ◌≡◌}
use pipe_bolt.Text.{byte_len, codes, trim}
use pipe_bolt.Domain.Error.{invalid_control_characters}
use pipe_bolt.Domain.Id.{new_id}
use pipe_bolt.Domain.Id.Laws.{IsIdentifier, new_id_iff}
use pipe_bolt.Domain.Config.{ReconnectPolicy, from_millis, from_secs}
use pipe_bolt.Domain.Config.Validate.{validate_reconnect}

new_id_iff_example :
    (new_id "project_id" (codes "project-1") ≡ ok (codes "project-1"))
    ↔ (IsIdentifier (codes "project-1") × (codes "project-1" ≡ codes "project-1"))
new_id_iff_example = new_id_iff "project_id" (codes "project-1") (codes "project-1")

new_id_runs : new_id "project_id" (codes "a/b") ≡ err (invalid_control_characters "project_id")
unfolding new_id trim byte_len
new_id_runs = refl

abbrev policy : ReconnectPolicy
policy = record { min_delay = from_millis 500; max_delay = from_secs 30 }

next_delay_after_example :
    ((Backoff.next_delay
        (Backoff.after_failures 7 (Backoff.new policy.min_delay policy.max_delay))).0
      ≡ min (policy.min_delay * 2 ^ 7) policy.max_delay)
    × (Backoff.reset (Backoff.after_failures 7 (Backoff.new policy.min_delay policy.max_delay))
        ≡ Backoff.new policy.min_delay policy.max_delay)
unfolding validate_reconnect
next_delay_after_example = next_delay_after policy 7 refl (omega arith)
