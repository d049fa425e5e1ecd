-- ===== src/Storage/Durations.antt =====
-- The serialized times of the configuration: the modules `duration_seconds` and `duration_millis` of
-- crates/pipe-bolt-storage/src/project_config_codec.rs, and the same in
-- crates/pipe-bolt-domain/src/config.rs.
use pipe_bolt.Prelude.{min, ℕ, ◌/◌}
use pipe_bolt.Domain.Config.{Duration}

abbrev pub u64_max : ℕ
u64_max = 18446744073709551615

-- `duration_seconds::serialize`
unfoldable pub seconds_of : Duration → ℕ
seconds_of d = d / 1000000000

-- `duration_millis::serialize`
unfoldable pub millis_of : Duration → ℕ
millis_of d = min (d / 1000000) u64_max
