-- ===== src/Metrics.antt =====
-- src/metrics.c: the counters of connections and of bytes.
--
-- A `long` is an integer here: its overflow is not modelled.
pub mod Account
use tpe_socks.Prelude.{ℕ}
use tpe_socks.Prelude.Int.{ℤ, pos, ◌+ℤ◌, ◌-ℤ◌}

-- `struct metrics_t`.
pub record Metrics : Type 0 where
  pub historic_socks_connections : ℤ
  pub current_socks_connections : ℤ
  pub historic_mgmt_connections : ℤ
  pub current_mgmt_connections : ℤ
  pub bytes_transferred : ℤ

unfoldable pub start_metrics : Metrics
start_metrics = record {
  historic_socks_connections = pos 0;
  current_socks_connections = pos 0;
  historic_mgmt_connections = pos 0;
  current_mgmt_connections = pos 0;
  bytes_transferred = pos 0;
}

unfoldable pub add_socks_connection : Metrics → Metrics
add_socks_connection m = record m {
  current_socks_connections = m.current_socks_connections +ℤ pos 1;
  historic_socks_connections = m.historic_socks_connections +ℤ pos 1;
}

unfoldable pub add_mgmt_connection : Metrics → Metrics
add_mgmt_connection m = record m {
  current_mgmt_connections = m.current_mgmt_connections +ℤ pos 1;
  historic_mgmt_connections = m.historic_mgmt_connections +ℤ pos 1;
}

unfoldable pub remove_current_socks_connection : Metrics → Metrics
remove_current_socks_connection m = record m {
  current_socks_connections = m.current_socks_connections -ℤ pos 1;
}

unfoldable pub remove_current_mgmt_connection : Metrics → Metrics
remove_current_mgmt_connection m = record m {
  current_mgmt_connections = m.current_mgmt_connections -ℤ pos 1;
}

unfoldable pub add_bytes_transferred : Metrics → ℤ → Metrics
add_bytes_transferred m bytes = record m { bytes_transferred = m.bytes_transferred +ℤ bytes }

unfoldable pub get_current_total : Metrics → ℤ
get_current_total m = m.current_mgmt_connections +ℤ m.current_socks_connections

unfoldable pub get_historic_total : Metrics → ℤ
get_historic_total m = m.historic_mgmt_connections +ℤ m.historic_socks_connections
