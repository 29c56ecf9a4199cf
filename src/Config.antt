-- ===== src/Config.antt =====
-- xraft-core/src/config.rs: the configuration of a node and its validation. The data directory is a
-- path that only the file system reads, and is left out.
use xraft.Prelude.{ℕ, leb, if◌then◌else◌, ◌<◌, ◌≡◌, ◌↔◌, arith}
use xraft.Prelude.Exec.{Result, ok, err}
use xraft.Types.{NodeId}

pub record RaftConfig : Type 0 where
  pub node_id : NodeId
  pub election_timeout_min_ms : ℕ
  pub election_timeout_max_ms : ℕ
  pub fetch_interval_ms : ℕ
  pub max_batch_size : ℕ
  pub max_fetch_bytes : ℕ
  pub snapshot_interval : ℕ

-- `RaftConfig::with_node_id`, with `default_inner`.
abbrev pub with_node_id : NodeId → RaftConfig
with_node_id node_id = record {
  node_id = node_id;
  election_timeout_min_ms = 150;
  election_timeout_max_ms = 300;
  fetch_interval_ms = 50;
  max_batch_size = 256;
  max_fetch_bytes = 1_048_576;
  snapshot_interval = 10_000;
}

-- The two messages of `validate`.
pub data ConfigError : Type 0 where
  empty_timeout_range fetch_interval_too_long : ConfigError

unfoldable pub validate : RaftConfig → Result ConfigError (Unit {0})
validate c =
    if leb c.election_timeout_max_ms c.election_timeout_min_ms
    then err empty_timeout_range
    else if leb c.election_timeout_min_ms c.fetch_interval_ms
    then err fetch_interval_too_long
    else ok tt

-- A configuration is accepted exactly when the fetch interval lies strictly below the smallest
-- election timeout, and the smallest below the largest.
validate-ok_iff :
    (c : RaftConfig)
    → (validate c ≡ ok tt) ↔ (
        (c.fetch_interval_ms < c.election_timeout_min_ms)
        × (c.election_timeout_min_ms < c.election_timeout_max_ms))
unfolding validate
validate-ok_iff c = ground arith
