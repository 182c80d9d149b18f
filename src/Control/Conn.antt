-- ===== src/Control/Conn.antt =====
-- src/controlProtocol/controlProtocol.c and include/controlProtocol.h: a connection of the monitoring
-- protocol over its two buffers, and the handlers of its states up to the commands.
--
-- A handler returns the state that the machine jumps to, with the connection after it. `none` is a
-- fault.
use tpe_socks.Prelude.{
  ℕ, zero, suc, Bool, true, false, not, ◌&&◌, Option, none, some, List, [], ◌∷◌, ◌++◌,
  if◌then◌else◌, ◌>>=◌, ltb, length, c_string, str_eq, store_all, codes,
}
use tpe_socks.Prelude.Int.{pos}
use tpe_socks.Buffer.{
  Buffer, buffer_can_read, buffer_can_write, buffer_read_ptr, buffer_write_ptr, buffer_write_adv,
}
use tpe_socks.Buffer.For.{for_bytes}
use tpe_socks.Control.AuthParser
use tpe_socks.Control.CommandParser
use tpe_socks.Control.Commands.{Answer, status_success, status_error, invalid_password}

-- `enum controlProtStmState`.
pub data State : Type 0 where
  cp_hello cp_auth cp_execute cp_ok cp_error : State

-- `fd_interest`, as far as this protocol uses it.
pub data Interest : Type 0 where
  op_read op_write : Interest

-- `struct controlProtConn`. `stm` is the current state of `connStm`; `selected` is the interest that
-- the selector was told last.
pub record Conn : Type 0 where
  pub interests : Interest
  pub selected : Interest
  pub read_buffer : Buffer
  pub write_buffer : Buffer
  pub stm : State
  pub current_state : State
  pub auth_parser : AuthParser.AuthParser
  pub command_parser : CommandParser.CommandParser
  pub valid_password : Bool
  pub hello_written : Bool
  pub auth_ans_written : Bool
  pub exec_ans_written : Bool
  pub exec_answer : Option Answer

abbrev pub buffer_size : ℕ
buffer_size = 1024

abbrev pub admin_password : List ℕ
admin_password = codes "pass1234"

abbrev pub zeros : ℕ → List ℕ
zeros zero = []
zeros (suc n) = 0 ∷ zeros n

-- `newControlProtConn`: the block is cleared by `calloc`.
unfoldable pub new_control_prot_conn : Conn
new_control_prot_conn = record {
  interests = op_write;
  selected = op_write;
  read_buffer = record { bytes = zeros buffer_size; limit = buffer_size; read = 0; write = 0 };
  write_buffer = record { bytes = zeros buffer_size; limit = buffer_size; read = 0; write = 0 };
  stm = cp_hello;
  current_state = cp_hello;
  auth_parser = record {
    current_state = AuthParser.check_auth_command;
    input_password = zeros 256;
    pass_len = 0;
  };
  command_parser = record {
    current_state = CommandParser.command_code;
    code = 0;
    has_data = 0;
    buf = zeros 256;
    data_size = 0;
  };
  valid_password = false;
  hello_written = false;
  auth_ans_written = false;
  exec_ans_written = false;
  exec_answer = none;
}

-- `memcpy` to the write pointer, and `buffer_write_adv`.
unfoldable pub put : Buffer → List ℕ → Option Buffer
unfolding buffer_write_adv
put b ys = buffer_write_adv (record b { bytes = store_all b.bytes b.write ys }) (pos (length ys))

unfoldable pub validate_password : AuthParser.AuthParser → Bool
validate_password p = str_eq admin_password (c_string p.input_password)

-- The message, which is sent with its terminator.
abbrev pub hello_msg : List ℕ
hello_msg = status_success ∷ 1 ∷ (codes "0.1" ++ 10 ∷ 0 ∷ [])

unfoldable pub hello_write : Conn → Option (State × Conn)
unfolding buffer_can_read buffer_can_write buffer_write_ptr put
hello_write c =
    if c.hello_written && not (buffer_can_read c.write_buffer)
    then some (cp_auth, record c { interests = op_read; selected = op_read })
    else if c.hello_written
    then some (cp_hello, c)
    else if not (buffer_can_write c.write_buffer)
    then some (cp_error, c)
    else (buffer_write_ptr c.write_buffer >>= λ (_, max_write).
        if ltb max_write (length hello_msg)
        then some (cp_error, c)
        else (put c.write_buffer hello_msg >>= λ b.
            some (cp_hello, record c { write_buffer = b; hello_written = true })))

unfoldable pub auth_read : Conn → Option (State × Conn)
unfolding buffer_can_read buffer_read_ptr validate_password AuthParser.init_cp_auth_parser
auth_read c =
    if not (buffer_can_read c.read_buffer)
    then some (cp_error, c)
    else (buffer_read_ptr c.read_buffer >>= λ (_, bytes_left).
        for_bytes AuthParser.parse_step AuthParser.is_done AuthParser.is_error bytes_left
          c.auth_parser c.read_buffer
        >>= λ (p, b).
            if AuthParser.is_error p
            then some (cp_error, record c { auth_parser = p; read_buffer = b })
            else if AuthParser.is_done p
            then some (
              cp_auth,
              record c {
                auth_parser = AuthParser.init_cp_auth_parser p;
                read_buffer = b;
                valid_password = validate_password p;
                selected = op_write;
              },
            )
            else some (cp_auth, record c { auth_parser = p; read_buffer = b }))

abbrev pub auth_result : Bool → List ℕ
auth_result true = status_success ∷ 0 ∷ []
auth_result false = status_error ∷ 1 ∷ invalid_password ∷ 10 ∷ []

unfoldable pub auth_write : Conn → Option (State × Conn)
unfolding buffer_can_read buffer_can_write buffer_write_ptr put
auth_write c =
    if c.auth_ans_written && not (buffer_can_read c.write_buffer)
    then some (cp_execute, record c { interests = op_read; selected = op_read })
    else if c.auth_ans_written
    then some (cp_auth, c)
    else if not (buffer_can_write c.write_buffer)
    then some (cp_auth, c)
    else (buffer_write_ptr c.write_buffer >>= λ (_, max_write).
        if ltb max_write (length (auth_result c.valid_password))
        then some (cp_auth, c)
        else (put c.write_buffer (auth_result c.valid_password) >>= λ b.
            if not c.valid_password
            then some
                (cp_auth, record c { write_buffer = b; interests = op_read; selected = op_read })
            else some (cp_auth, record c { write_buffer = b; auth_ans_written = true })))

unfoldable pub execute_read : Conn → Option (State × Conn)
unfolding buffer_can_read buffer_read_ptr
execute_read c =
    if not (buffer_can_read c.read_buffer)
    then some (cp_auth, c)
    else (buffer_read_ptr c.read_buffer >>= λ (_, bytes_left).
        for_bytes CommandParser.parse_step CommandParser.is_done CommandParser.is_error bytes_left
          c.command_parser c.read_buffer
        >>= λ (p, b).
            if CommandParser.is_error p
            then some (cp_error, record c { command_parser = p; read_buffer = b })
            else if CommandParser.is_done p
            then (CommandParser.store p p.data_size 0 >>= λ q. some (
              cp_execute,
              record c {
                command_parser = q;
                read_buffer = b;
                interests = op_write;
                selected = op_write;
              },
            ))
            else some (cp_execute, record c { command_parser = p; read_buffer = b }))
