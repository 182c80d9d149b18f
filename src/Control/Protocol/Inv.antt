-- ===== src/Control/Protocol/Inv.antt =====
-- What holds of a connection of src/controlProtocol/controlProtocol.c between two events, handler by
-- handler.
use tpe_socks.Prelude.{
  ℕ, ◌-◌, ◌<◌, ◌≡◌, ap, ◌∙◌, Bool, true, false, Option, none, some, arith, Bool-cases, Option-cases,
  inl, inr,
}
use tpe_socks.Buffer.{
  Buffer, buffer_write_adv, buffer_can_read, buffer_can_write, buffer_read_ptr, buffer_write_ptr,
}
use tpe_socks.Buffer.Inv.{IsValid}
use tpe_socks.Buffer.Refine.{length-contents}
use tpe_socks.Buffer.For.{for_bytes, for_bytes-IsValid}
use tpe_socks.Control.AuthParser
use tpe_socks.Control.CommandParser
use tpe_socks.Control.Commands.{Server, Answer}
use tpe_socks.Control.Conn.{
  State, cp_hello, cp_auth, cp_execute, op_read, op_write, Conn, new_control_prot_conn, put,
  hello_write, auth_read, auth_write, execute_read,
}
use tpe_socks.Control.Protocol.{
  Env, execute_write, send_answer, with_server, answer_command, run_command,
}

-- The command state and the positive answer are reached with the right password only, and once the
-- answer is written the connection reads nothing before it is in the command state.
pub record Gate (c : Conn) : Type 0 where
  pub execute_authed : c.stm ≡ cp_execute → c.valid_password ≡ true
  pub answered_authed : c.auth_ans_written ≡ true → c.valid_password ≡ true
  pub answered_writes : c.stm ≡ cp_auth → c.auth_ans_written ≡ true → c.selected ≡ op_write
  pub hello_first : c.stm ≡ cp_hello → c.auth_ans_written ≡ false
  pub buffer_valid : IsValid c.read_buffer
  pub has_room : 0 < c.read_buffer.limit

-- The machine's jump.
abbrev pub jump : State → Conn → Conn
jump t c = record c { stm = t; current_state = t }

-- A handler that returns leaves the gate closed or opens it rightly.
abbrev pub Leaves : Option (State × Conn) → Type 0
Leaves none = Unit
Leaves (some (t, c')) = Gate (jump t c')

pub new_control_prot_conn-Gate : Gate new_control_prot_conn
unfolding new_control_prot_conn
new_control_prot_conn-Gate = ground arith

pub hello_write-Gate : (c : Conn) → Gate c → c.stm ≡ cp_hello → Leaves (hello_write c)
unfolding hello_write buffer_can_read buffer_can_write buffer_write_ptr put buffer_write_adv
hello_write-Gate c g h = ground arith

pub auth_write-Gate :
    (c : Conn) → Gate c → c.stm ≡ cp_auth → c.selected ≡ op_write → Leaves (auth_write c)
unfolding auth_write buffer_can_read buffer_can_write buffer_write_ptr put buffer_write_adv
auth_write-Gate c g h w = ground arith

send_answer-Gate :
    (env : Env) (a : Answer) (c : Conn) → Gate c → c.stm ≡ cp_execute → Leaves (send_answer env a c)
unfolding send_answer buffer_write_ptr put buffer_write_adv
send_answer-Gate env a c g h = ground arith

-- The bytes that a loop of the parsers may take are those that the buffer holds.
loop_kept :
    {P : Type 0} (step : P → ℕ → Option P) (done failed : P → Bool) (p p' : P) (b b' : Buffer)
    → IsValid b
    → for_bytes step done failed (b.write - b.read) p b ≡ some (p', b')
    → IsValid b' × (b'.limit ≡ b.limit)
loop_kept step done failed p p' b b' v h =
    for_bytes-IsValid step done failed p p' b b' v
      (ap (λ (n : ℕ). for_bytes step done failed n p b) (length-contents b) ∙ h)

pub auth_read-Gate :
    (c : Conn) → Gate c → c.stm ≡ cp_auth → c.selected ≡ op_read → Leaves (auth_read c)
unfolding auth_read buffer_can_read buffer_read_ptr
auth_read-Gate c g h r =
    elim (Option-cases (
      for_bytes AuthParser.parse_step AuthParser.is_done AuthParser.is_error
        (c.read_buffer.write - c.read_buffer.read) c.auth_parser c.read_buffer)) [
          | inl bad ↦ ground arith
          | inr ((p, b), good) ↦
              let kept =
                loop_kept AuthParser.parse_step AuthParser.is_done AuthParser.is_error c.auth_parser
                  p c.read_buffer b g.buffer_valid good in
              ground arith
        ]

pub execute_read-Gate :
    (c : Conn)
    → Gate c
    → c.stm ≡ cp_execute
    → c.read_buffer.read < c.read_buffer.write
    → Leaves (execute_read c)
unfolding execute_read buffer_can_read buffer_read_ptr CommandParser.store
execute_read-Gate c g h r =
    elim (Option-cases (
      for_bytes CommandParser.parse_step CommandParser.is_done CommandParser.is_error
        (c.read_buffer.write - c.read_buffer.read) c.command_parser c.read_buffer)) [
          | inl bad ↦ ground arith
          | inr ((p, b), good) ↦
              let kept =
                loop_kept CommandParser.parse_step CommandParser.is_done CommandParser.is_error
                  c.command_parser p c.read_buffer b g.buffer_valid good in
              ground arith
        ]

-- The same for the command state, whose handler also changes the server.
abbrev pub LeavesServer : Option (State × Conn × Server) → Type 0
LeavesServer none = Unit
LeavesServer (some (t, c', s')) = Gate (jump t c')

pub with_server-Gate :
    (s : Server) (o : Option (State × Conn)) → Leaves o → LeavesServer (with_server s o)
unfolding with_server
with_server-Gate s none g = tt
with_server-Gate s (some (t, c')) g = g

pub execute_write-Gate :
    (env : Env) (c : Conn) (s : Server)
    → Gate c
    → c.stm ≡ cp_execute
    → LeavesServer (execute_write env c s)
unfolding execute_write buffer_can_read answer_command
execute_write-Gate env c s g h = elim (Bool-cases c.exec_ans_written) [
  | inl w ↦ ground arith
  | inr w ↦ rw w (elim (Option-cases c.exec_answer) [
    | inr (a, e) ↦ rw e (with_server-Gate s (send_answer env a c) (send_answer-Gate env a c g h))
    | inl e ↦ rw e (go (run_command env c.command_parser s))
  ])
]
  where
    go : (r : Option Answer × Server) → LeavesServer (answer_command env c r)
    go (none, s') = ground arith
    go (some a, s') = with_server-Gate s' (send_answer env a c) (send_answer-Gate env a c g h)
