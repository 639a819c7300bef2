-- ===== src/Store/Limits.antt =====
-- src/store.rs, `Limits`: what the broker allows, and what it allows where nothing is said.
use postino.Prelude.{ℕ}

pub record Limits : Type 0 where
  pub msg_ttl_ms : ℕ
  pub lease_ms : ℕ
  pub presence_ttl_ms : ℕ
  pub max_inbox : ℕ
  pub max_agents : ℕ
  pub max_broadcasts : ℕ
  pub history_limit : ℕ
  pub max_deliveries : ℕ
  pub max_rooms : ℕ
  pub room_history : ℕ
  pub max_keys : ℕ
  pub max_elements : ℕ
  pub max_memory : ℕ

-- `Limits::default`
abbrev pub default_limits : Limits
default_limits = record {
  msg_ttl_ms = 86400000;
  lease_ms = 30000;
  presence_ttl_ms = 30000;
  max_inbox = 1000;
  max_agents = 1000;
  max_broadcasts = 500;
  history_limit = 200;
  max_deliveries = 10;
  max_rooms = 200;
  room_history = 1000;
  max_keys = 1000000;
  max_elements = 1000000;
  max_memory = 0;
}
