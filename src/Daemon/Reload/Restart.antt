-- ===== src/Daemon/Reload/Restart.antt =====
-- Which settings a reload cannot apply (`diff_config` in daemon/src/reload.rs).
use fez_meshcore_controller.Prelude.{[], arith, eqb_iff, text_eq_iff, ◌↔◌, ◌≡◌}
use fez_meshcore_controller.Core.Config.{Config, ConnectionConfig-discrete}
use fez_meshcore_controller.Daemon.Reload.{restart_fields, changed_text, changed_number}

-- The settings that are read once, when the daemon starts.
pub record SameStartup (old new : Config) : Type 0 where
  pub connection : old.connection ≡ new.connection
  pub socket_path : old.daemon.socket_path ≡ new.daemon.socket_path
  pub refresh_interval_secs : old.daemon.refresh_interval_secs ≡ new.daemon.refresh_interval_secs
  pub log_level : old.daemon.log_level ≡ new.daemon.log_level
  pub log_dir : old.daemon.log_dir ≡ new.daemon.log_dir
  pub packet_log_capacity : old.daemon.packet_log_capacity ≡ new.daemon.packet_log_capacity
  pub db_path : old.daemon.db_path ≡ new.daemon.db_path

-- A reload warns of nothing just if each setting that needs a restart is what it was.
pub restart_fields-none : (old new : Config) → (restart_fields old new ≡ []) ↔ SameStartup old new
unfolding restart_fields changed_text changed_number
restart_fields-none old new = ground (
  arith,
  eqb_iff ConnectionConfig-discrete old.connection new.connection,
  text_eq_iff old.daemon.socket_path new.daemon.socket_path,
  text_eq_iff old.daemon.log_level new.daemon.log_level,
  text_eq_iff old.daemon.log_dir new.daemon.log_dir,
  text_eq_iff old.daemon.db_path new.daemon.db_path,
)
