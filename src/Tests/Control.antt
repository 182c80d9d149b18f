-- ===== src/Tests/Control.antt =====
-- The parsers and the commands of the monitoring protocol on whole messages.
use tpe_socks.Prelude.{ℕ, true, List, [], ◌∷◌, ◌++◌, replicate, codes}
use tpe_socks.Control.AuthParser
use tpe_socks.Control.CommandParser
use tpe_socks.Control.Commands.{Server}
use tpe_socks.Metrics.{start_metrics}
use tpe_socks.Tests.Users.{two_users}

abbrev pub auth_parser : AuthParser.AuthParser
auth_parser = record {
  current_state = AuthParser.AuthState.check_auth_command;
  input_password = replicate 256 0;
  pass_len = 0;
}

abbrev pub pass_line : List ℕ
pass_line = b'0' ∷ 1 ∷ (codes "pass1234" ++ 10 ∷ [])

abbrev pub command_parser : CommandParser.CommandParser
command_parser = record {
  current_state = CommandParser.CommandState.command_code;
  code = 0;
  has_data = 0;
  buf = replicate 256 0;
  data_size = 0;
}

abbrev pub add_line : List ℕ
add_line = codes "carol:sesame"

abbrev pub server : Server
server = record { users = two_users; metrics = start_metrics; sniffer_on = true }
