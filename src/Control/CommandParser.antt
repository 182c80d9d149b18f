-- ===== src/Control/CommandParser.antt =====
-- src/controlProtocol/parsers/cpCommandParser.c and cpCommandParser.h: the automaton for a command,
-- a code, a flag and, if the flag is set, a line of data.
pub mod Message
use tpe_socks.Prelude.{
  ℕ, suc, ◌+◌, Bool, true, false, Option, none, some, List, ◌==◌, ◌||◌, if◌then◌else◌, ltb, set,
  length,
}

-- `enum cpCommandCode`; the byte `'0'` is the authentication.
abbrev pub cp_no_command : ℕ
cp_no_command = 0

abbrev pub cp_authentication : ℕ
cp_authentication = b'0'

abbrev pub cp_add_user : ℕ
cp_add_user = b'1'

abbrev pub cp_rem_user : ℕ
cp_rem_user = b'2'

abbrev pub cp_change_pass : ℕ
cp_change_pass = b'3'

abbrev pub cp_list_users : ℕ
cp_list_users = b'4'

abbrev pub cp_get_metrics : ℕ
cp_get_metrics = b'5'

abbrev pub cp_dissector_on : ℕ
cp_dissector_on = b'6'

abbrev pub cp_dissector_off : ℕ
cp_dissector_off = b'7'

abbrev pub max_data_size : ℕ
max_data_size = 255

abbrev pub new_line : ℕ
new_line = 10

-- `enum cpCommandParserState`.
pub data CommandState : Type 0 where
  command_code has_data read_data done error : CommandState

-- `struct cpCommandParser`; `buf` is its `data`.
pub record CommandParser : Type 0 where
  pub current_state : CommandState
  pub code : ℕ
  pub has_data : ℕ
  pub buf : List ℕ
  pub data_size : ℕ

unfoldable pub init_cp_command_parser : CommandParser → CommandParser
init_cp_command_parser p = record p {
  current_state = CommandState.command_code;
  data_size = 0;
  code = cp_no_command;
  has_data = 0;
}

-- A store out of `data` is a fault.
unfoldable pub store : CommandParser → ℕ → ℕ → Option CommandParser
store p i byte = if ltb i (length p.buf) then some (record p { buf = set p.buf i byte }) else none

dispatch : CommandState → CommandParser → ℕ → Option (CommandState × CommandParser)
unfolding store
dispatch CommandState.command_code p byte =
    if ltb byte cp_add_user || ltb cp_dissector_off byte
    then some (CommandState.error, p)
    else some (CommandState.has_data, record p { code = byte })
dispatch CommandState.has_data p byte =
    if byte == 0
    then some (CommandState.done, p)
    else if byte == 1
    then some (CommandState.read_data, record p { has_data = 1 })
    else some (CommandState.error, p)
dispatch CommandState.read_data p byte =
    if p.data_size == max_data_size
    then some (CommandState.error, p)
    else elim (store p p.data_size byte) [
      | none ↦ none
      | some q ↦ some (
        if byte == new_line then CommandState.done else CommandState.read_data,
        record q { data_size = suc q.data_size },
      )
    ]
dispatch CommandState.done p byte = some (CommandState.error, p)
dispatch CommandState.error p byte = some (CommandState.error, p)

unfoldable pub cpcp_parse_byte : CommandParser → ℕ → Option (CommandState × CommandParser)
unfolding dispatch
cpcp_parse_byte p byte = dispatch p.current_state p byte

-- `parser->currentState = cpcpParseByte(parser, byte)`.
unfoldable pub parse_step : CommandParser → ℕ → Option CommandParser
unfolding cpcp_parse_byte
parse_step p byte = elim (cpcp_parse_byte p byte) [
  | none ↦ none
  | some (s, q) ↦ some (record q { current_state = s })
]

abbrev pub is_done : CommandParser → Bool
is_done p = elim p.current_state [ CommandState.done ↦ true | _ ↦ false ]

abbrev pub is_error : CommandParser → Bool
is_error p = elim p.current_state [ CommandState.error ↦ true | _ ↦ false ]
