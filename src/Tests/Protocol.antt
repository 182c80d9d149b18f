-- ===== src/Tests/Protocol.antt =====
-- The state machine of the monitoring protocol on a new connection.
use tpe_socks.Prelude.{
  ◌≡◌, ◌≢◌, refl, true, false, some, none, [], ◌∷◌, ◌++◌, arith, replicate, codes, store_all,
}
use tpe_socks.Prelude.Int.{pos}
use tpe_socks.Buffer.Inv.{IsValid}
use tpe_socks.Buffer.Refine.{contents}
use tpe_socks.Control.Conn.{
  Conn, State, cp_hello, cp_auth, cp_execute, op_read, op_write, hello_msg, new_control_prot_conn,
  auth_read,
}
use tpe_socks.Control.Protocol.{
  Env, Outcome, open_conn, cp_write_handler, send_answer, run_command, sent_bytes,
}
use tpe_socks.Control.Protocol.Auth.{accepted, cp_write_handler-Reach}
use tpe_socks.Control.Protocol.Password.{auth_read-password}
use tpe_socks.Control.Protocol.Replies.{Answered, add, run_command_overflows}
use tpe_socks.Control.CommandParser.Message.{finished}
use tpe_socks.Tests.Parsers.{full, full-IsValid}
use tpe_socks.Tests.Users.{plenty}
use tpe_socks.Tests.Control.{server, auth_parser, command_parser, pass_line, add_line}

abbrev env : Env
env = record { alloc = plenty; behind = 7 ∷ 0 ∷ [] }

-- A connection that waits for the password, with a message in its buffer.
abbrev waiting : Conn
waiting = record {
  interests = op_read;
  selected = op_read;
  read_buffer = full pass_line;
  write_buffer = record { bytes = replicate 8 0; limit = 8; read = 0; write = 0 };
  stm = cp_auth;
  current_state = cp_auth;
  auth_parser = auth_parser;
  command_parser = command_parser;
  valid_password = false;
  hello_written = true;
  auth_ans_written = false;
  exec_ans_written = false;
  exec_answer = none;
}

right_password :
    (c' : Conn) × (auth_read waiting ≡ some (cp_auth, c'))
    × (c'.valid_password ≡ true)
    × (c'.selected ≡ op_write)
    × IsValid c'.read_buffer
    × (contents c'.read_buffer ≡ [])
unfolding tpe_socks.Control.AuthParser.init_cp_auth_parser
right_password =
    auth_read-password waiting auth_parser (codes "pass1234") [] refl refl (omega arith)
      (ground arith) (full-IsValid pass_line) refl

added_answer :
    Answered
      (run_command env
        (finished b'1' 1 (store_all (replicate 256 0) 0 (add_line ++ 10 ∷ [])) 13)
        server).0
added_answer =
    run_command_overflows env
      (finished b'1' 1 (store_all (replicate 256 0) 0 (add_line ++ 10 ∷ [])) 13) server add

-- The greeting is written, and three bytes of it are sent.
abbrev greeted : Conn → Conn
greeted c = record c {
  write_buffer = record (c.write_buffer) {
    bytes = store_all c.write_buffer.bytes 0 hello_msg;
    read = 3;
    write = 7;
  };
  hello_written = true;
}

hello_sent :
    cp_write_handler env (pos 3) new_control_prot_conn server
    ≡ some (open_conn (greeted new_control_prot_conn), server)
unfolding new_control_prot_conn cp_write_handler tpe_socks.Control.Protocol.on_write_ready
    tpe_socks.Control.Protocol.flush tpe_socks.Control.Conn.hello_write
hello_sent = refl

no_password_yet :
    (cp_hello ≢ cp_execute)
    × (server.users ≡ server.users)
    × (server.sniffer_on ≡ server.sniffer_on)
unfolding new_control_prot_conn
no_password_yet =
    cp_write_handler-Reach env (pos 3) server server (open_conn (greeted new_control_prot_conn))
      accepted refl hello_sent
