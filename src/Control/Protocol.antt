-- ===== src/Control/Protocol.antt =====
-- src/controlProtocol/controlProtocol.c and include/controlProtocol.h: how a
-- connection of the monitoring protocol executes commands, and its state machine.
--
-- A handler returns the state that the machine jumps to, with the connection and the server after it.
-- `none` is a fault, also for the `abort` of src/stm.c where a state has no handler, and for what
-- `cpError` leads to: it frees the connection, whose machine src/stm.c goes on to use.
pub mod Inv
pub mod Auth
pub mod Password
pub mod Replies
pub mod Dispatch
use tpe_socks.Prelude.{
  ℕ, zero, suc, ◌+◌, ◌-◌, Bool, true, false, not, ◌&&◌, Option, none, some, List, [], ◌∷◌, ◌++◌,
  ◌==◌, if◌then◌else◌, ◌>>=◌, ltb, length, c_string, str_eq, store_all, codes,
}
use tpe_socks.Prelude.Int.{ℤ, pos, negsuc}
use tpe_socks.Buffer.{
  Buffer, buffer_can_read, buffer_can_write, buffer_read_ptr, buffer_write_ptr, buffer_read_adv,
  buffer_write_adv,
}
use tpe_socks.Buffer.For.{for_bytes}
use tpe_socks.Users.{Alloc}
use tpe_socks.Metrics.{remove_current_mgmt_connection}
use tpe_socks.Control.AuthParser
use tpe_socks.Control.CommandParser
use tpe_socks.Control.Commands.{
  Server, Answer, status_success, status_error, invalid_password, add_proxy_user, remove_proxy_user,
  change_password_command, get_socks_users, get_metrics, switch_pass_dissectors,
}
use tpe_socks.Control.Conn.{
  State, cp_hello, cp_auth, cp_execute, cp_ok, cp_error, Interest, op_read, op_write, Conn,
  buffer_size, admin_password, zeros, new_control_prot_conn, put, validate_password, hello_msg,
  hello_write, auth_read, auth_result, auth_write, execute_read,
}

-- What the environment decides while a command runs: the results of `malloc`, and the bytes of the
-- heap behind the answer's block, up to which `strlen` may read.
pub record Env : Type 0 where
  pub alloc : Alloc
  pub behind : List ℕ

-- The `switch` on the command's code; no answer for a code that is none of them.
unfoldable pub run_command : Env → CommandParser.CommandParser → Server → Option Answer × Server
unfolding add_proxy_user remove_proxy_user change_password_command get_socks_users get_metrics
    switch_pass_dissectors
run_command env p s =
    if p.code == CommandParser.cp_add_user
    then (let (a, s') = add_proxy_user env.alloc p s in (some a, s'))
    else if p.code == CommandParser.cp_rem_user
    then (let (a, s') = remove_proxy_user p s in (some a, s'))
    else if p.code == CommandParser.cp_change_pass
    then (let (a, s') = change_password_command p s in (some a, s'))
    else if p.code == CommandParser.cp_list_users
    then (let (a, s') = get_socks_users p s in (some a, s'))
    else if p.code == CommandParser.cp_get_metrics
    then (let (a, s') = get_metrics p s in (some a, s'))
    else if p.code == CommandParser.cp_dissector_on
    then (let (a, s') = switch_pass_dissectors p true s in (some a, s'))
    else if p.code == CommandParser.cp_dissector_off
    then (let (a, s') = switch_pass_dissectors p false s in (some a, s'))
    else (none, s)

-- What is sent of an answer: as many bytes as `strlen` counts.
abbrev pub sent_bytes : Env → Answer → List ℕ
sent_bytes env a = c_string (a.written ++ env.behind)

-- An answer is put into the buffer if it fits, and kept otherwise.
unfoldable pub send_answer : Env → Answer → Conn → Option (State × Conn)
unfolding buffer_write_ptr put CommandParser.init_cp_command_parser
send_answer env a c = buffer_write_ptr c.write_buffer >>= λ (_, max_write).
    if ltb max_write (length (sent_bytes env a))
    then some (cp_execute, record c { exec_answer = some a })
    else (put c.write_buffer (sent_bytes env a) >>= λ b. some (
      cp_execute,
      record c {
        write_buffer = b;
        exec_answer = some a;
        exec_ans_written = true;
        command_parser = CommandParser.init_cp_command_parser c.command_parser;
      },
    ))

unfoldable pub with_server : Server → Option (State × Conn) → Option (State × Conn × Server)
with_server s none = none
with_server s (some (t, c)) = some (t, c, s)

unfoldable pub answer_command : Env → Conn → Option Answer × Server → Option (State × Conn × Server)
unfolding send_answer with_server
answer_command env c (none, s) = some (cp_error, c, s)
answer_command env c (some a, s) = with_server s (send_answer env a c)

unfoldable pub execute_write : Env → Conn → Server → Option (State × Conn × Server)
unfolding buffer_can_read answer_command with_server
execute_write env c s =
    if c.exec_ans_written && not (buffer_can_read c.write_buffer)
    then some (
      cp_execute,
      record c {
        exec_ans_written = false;
        interests = op_read;
        selected = op_read;
        exec_answer = none;
      },
      s,
    )
    else if c.exec_ans_written
    then some (cp_execute, c, s)
    else elim c.exec_answer [
      | none ↦ answer_command env c (run_command env c.command_parser s)
      | some a ↦ with_server s (send_answer env a c)
    ]

-- `stm_handler_write` and `stm_handler_read` on this machine.
unfoldable pub on_write_ready : State → Env → Conn → Server → Option (State × Conn × Server)
unfolding with_server hello_write auth_write execute_write
on_write_ready cp_hello env c s = with_server s (hello_write c)
on_write_ready cp_auth env c s = with_server s (auth_write c)
on_write_ready cp_execute env c s = execute_write env c s
on_write_ready cp_ok env c s = none
on_write_ready cp_error env c s = none

unfoldable pub on_read_ready : State → Conn → Option (State × Conn)
unfolding auth_read execute_read
on_read_ready cp_hello c = none
on_read_ready cp_auth c = auth_read c
on_read_ready cp_execute c = execute_read c
on_read_ready cp_ok c = none
on_read_ready cp_error c = none

-- A connection after a handler: open, or freed.
pub data Outcome : Type 0 where
  open_conn : Conn → Outcome
  freed_conn : Outcome

-- `freeControlProtConn`, of which the server keeps the count of connections.
unfoldable pub free_control_prot_conn : Server → Outcome × Server
unfolding remove_current_mgmt_connection
free_control_prot_conn s =
    (freed_conn, record s { metrics = remove_current_mgmt_connection s.metrics })

-- What `cpWriteHandler` does behind the machine's handler; `sent` is what `send` returns.
unfoldable pub flush : ℤ → Option (State × Conn × Server) → Option (Outcome × Server)
unfolding buffer_can_read buffer_read_ptr buffer_read_adv free_control_prot_conn
flush sent none = none
flush sent (some (t, c, s)) =
    let c' = record c { stm = t; current_state = t } in
    elim t [
      | cp_error ↦ some (open_conn c', s)
      | _ ↦
          if buffer_can_read c'.write_buffer
          then (buffer_read_ptr c'.write_buffer >>= λ _. elim sent [
            | pos (suc n) ↦ buffer_read_adv c'.write_buffer (pos (suc n)) >>= λ b.
                some (open_conn (record c' { write_buffer = b }), s)
            | _ ↦ some (free_control_prot_conn s)
          ])
          else some (open_conn c', s)
    ]

unfoldable pub cp_write_handler : Env → ℤ → Conn → Server → Option (Outcome × Server)
unfolding on_write_ready flush
cp_write_handler env sent c s = flush sent (on_write_ready c.stm env c s)

unfoldable pub after_read : Server → Option (State × Conn) → Option (Outcome × Server)
after_read s none = none
after_read s (some (t, c)) = some (open_conn (record c { stm = t; current_state = t }), s)

-- `received` is what `recv` writes, or nothing if it returns 0 or an error.
unfoldable pub receive : List ℕ → Conn → Server → Option (Outcome × Server)
unfolding on_read_ready after_read put free_control_prot_conn
receive [] c s = some (free_control_prot_conn s)
receive (x ∷ xs) c s = put c.read_buffer (x ∷ xs) >>= λ b.
    after_read s (on_read_ready c.stm (record c { read_buffer = b }))

unfoldable pub cp_read_handler : List ℕ → Conn → Server → Option (Outcome × Server)
unfolding on_read_ready after_read buffer_can_write buffer_write_ptr receive
cp_read_handler received c s =
    if buffer_can_write c.read_buffer
    then (buffer_write_ptr c.read_buffer >>= λ _. receive received c s)
    else after_read s (on_read_ready c.stm c)
