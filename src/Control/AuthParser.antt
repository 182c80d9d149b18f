-- ===== src/Control/AuthParser.antt =====
-- src/controlProtocol/parsers/cpAuthParser.c and cpAuthParser.h: the automaton for the administrator's
-- password.
pub mod Message
use tpe_socks.Prelude.{
  ℕ, suc, ◌+◌, Bool, true, false, Option, none, some, List, ◌==◌, if◌then◌else◌, ltb, set, length,
}
use tpe_socks.Control.CommandParser.{cp_authentication, new_line}

abbrev pub max_pass_len : ℕ
max_pass_len = 256

-- `enum cpAuthParserState`.
pub data AuthState : Type 0 where
  check_auth_command has_data read_password done error : AuthState

-- `struct cpAuthParser`.
pub record AuthParser : Type 0 where
  pub current_state : AuthState
  pub input_password : List ℕ
  pub pass_len : ℕ

-- The array keeps what it held.
unfoldable pub init_cp_auth_parser : AuthParser → AuthParser
init_cp_auth_parser p = record p { current_state = AuthState.check_auth_command; pass_len = 0 }

-- `inputPassword[passLen++] = byte`: a store out of the array is a fault.
unfoldable pub append_byte : AuthParser → ℕ → Option AuthParser
append_byte p byte =
    if ltb p.pass_len (length p.input_password)
    then some (record p {
      input_password = set p.input_password p.pass_len byte;
      pass_len = suc p.pass_len;
    })
    else none

dispatch : AuthState → AuthParser → ℕ → Option (AuthState × AuthParser)
unfolding append_byte
dispatch AuthState.check_auth_command p byte =
    some (if byte == cp_authentication then AuthState.has_data else AuthState.error, p)
dispatch AuthState.has_data p byte =
    some (if byte == 1 then AuthState.read_password else AuthState.error, p)
dispatch AuthState.read_password p byte =
    if byte == new_line
    then elim (append_byte p 0) [ none ↦ none | some q ↦ some (AuthState.done, q) ]
    else if p.pass_len == max_pass_len
    then some (AuthState.error, p)
    else elim (append_byte p byte) [ none ↦ none | some q ↦ some (AuthState.read_password, q) ]
dispatch AuthState.done p byte = some (AuthState.error, p)
dispatch AuthState.error p byte = some (AuthState.error, p)

unfoldable pub cpap_parse_byte : AuthParser → ℕ → Option (AuthState × AuthParser)
unfolding dispatch
cpap_parse_byte p byte = dispatch p.current_state p byte

-- `parser->currentState = cpapParseByte(parser, byte)`.
unfoldable pub parse_step : AuthParser → ℕ → Option AuthParser
unfolding cpap_parse_byte
parse_step p byte = elim (cpap_parse_byte p byte) [
  | none ↦ none
  | some (s, q) ↦ some (record q { current_state = s })
]

abbrev pub is_done : AuthParser → Bool
is_done p = elim p.current_state [ AuthState.done ↦ true | _ ↦ false ]

abbrev pub is_error : AuthParser → Bool
is_error p = elim p.current_state [ AuthState.error ↦ true | _ ↦ false ]
