-- ===== src/Sniffer.antt =====
-- src/sniffer/pop3_sniffer.c and pop3_sniffer.h: the automaton that looks for POP3 credentials in the
-- bytes that a client sends. (The list of sniffed users is commented out in the source.)
--
-- The parser's buffer is a second set of positions over the array of the caller's buffer. Reading
-- moves the positions only, so the caller's buffer is not changed and the second one is not kept.
pub mod Capture
pub mod Login
pub mod Noise
use tpe_socks.Prelude.{
  ℕ, zero, suc, ◌+◌, ◌-◌, Bool, true, false, Option, none, some, List, [], ◌∷◌, ◌==◌, ◌&&◌,
  if◌then◌else◌, ltb, leb, set, length, get_or,
}
use tpe_socks.Buffer.{Buffer}
use tpe_socks.Buffer.For.{for_bytes}

abbrev pub argument_length : ℕ
argument_length = 40

-- `enum pop3_state`.
pub data Pop3State : Type 0 where
  user_cmd user pass_cmd pass error done : Pop3State

-- `struct pop3_parser`, without `buff`. The names of `user` and `pass` are shared with states.
pub record Pop3Parser : Type 0 where
  pub state : Pop3State
  pub user_name : List ℕ
  pub password : List ℕ
  pub read_ptr : ℕ
  pub write_ptr : ℕ
  pub user_done : Bool

-- The two keywords, with their terminators.
abbrev pub pop3_user_cmd : List ℕ
pop3_user_cmd = b'U' ∷ b'S' ∷ b'E' ∷ b'R' ∷ 32 ∷ 0 ∷ []

abbrev pub pop3_pass_cmd : List ℕ
pop3_pass_cmd = b'P' ∷ b'A' ∷ b'S' ∷ b'S' ∷ 32 ∷ 0 ∷ []

-- `toupper` in the C locale.
abbrev pub to_upper : ℕ → ℕ
to_upper c = if leb b'a' c && leb c b'z' then c - 32 else c

unfoldable pub handle_error : Pop3Parser → Pop3State
handle_error p = if p.user_done then Pop3State.pass_cmd else Pop3State.user_cmd

unfoldable pub parse_user_cmd : Pop3Parser → ℕ → Pop3State × Pop3Parser
unfolding handle_error
parse_user_cmd p c =
    if to_upper c == get_or pop3_user_cmd p.read_ptr 0
    then (if get_or pop3_user_cmd (suc p.read_ptr) 0 == 0
        then (Pop3State.user, record p { read_ptr = 0 })
        else (Pop3State.user_cmd, record p { read_ptr = suc p.read_ptr }))
    else (handle_error p, p)

unfoldable pub parse_pass_cmd : Pop3Parser → ℕ → Pop3State × Pop3Parser
unfolding handle_error
parse_pass_cmd p c =
    if to_upper c == get_or pop3_pass_cmd p.read_ptr 0
    then (if get_or pop3_pass_cmd (suc p.read_ptr) 0 == 0
        then (Pop3State.pass, record p { read_ptr = 0 })
        else (Pop3State.pass_cmd, record p { read_ptr = suc p.read_ptr }))
    else (handle_error p, p)

-- A store out of the array is a fault.
unfoldable pub parse_user : Pop3Parser → ℕ → Option (Pop3State × Pop3Parser)
parse_user p c =
    if p.write_ptr + 1 == argument_length
    then some (Pop3State.error, p)
    else if ltb p.write_ptr (length p.user_name)
    then (if c == 10
        then some (
          Pop3State.pass_cmd,
          record p { user_name = set p.user_name p.write_ptr 0; write_ptr = 0; user_done = true },
        )
        else some (
          Pop3State.user,
          record p { user_name = set p.user_name p.write_ptr c; write_ptr = suc p.write_ptr },
        ))
    else none

unfoldable pub parse_pass : Pop3Parser → ℕ → Option (Pop3State × Pop3Parser)
parse_pass p c =
    if p.write_ptr + 1 == argument_length
    then some (Pop3State.error, p)
    else if ltb p.write_ptr (length p.password)
    then (if c == 10
        then some
            (Pop3State.done, record p { password = set p.password p.write_ptr 0; write_ptr = 0 })
        else some (
          Pop3State.pass,
          record p { password = set p.password p.write_ptr c; write_ptr = suc p.write_ptr },
        ))
    else none

dispatch : Pop3State → Pop3Parser → ℕ → Option (Pop3State × Pop3Parser)
unfolding parse_user_cmd parse_user parse_pass_cmd parse_pass handle_error
dispatch Pop3State.user_cmd p c = some (parse_user_cmd p c)
dispatch Pop3State.user p c = parse_user p c
dispatch Pop3State.pass_cmd p c = some (parse_pass_cmd p c)
dispatch Pop3State.pass p c = parse_pass p c
dispatch Pop3State.error p c = some (handle_error p, p)
dispatch Pop3State.done p c = some (Pop3State.done, p)

-- One round of the loop of `pop3_parse_char`.
unfoldable pub parse_step : Pop3Parser → ℕ → Option Pop3Parser
unfolding dispatch
parse_step p c = elim (dispatch p.state p c) [
  | none ↦ none
  | some (s, q) ↦ some (record q { state = s })
]

abbrev pub is_done : Pop3Parser → Bool
is_done p = elim p.state [ Pop3State.done ↦ true | _ ↦ false ]

abbrev pub never : Pop3Parser → Bool
never p = false

-- `while(buffer_can_read(&parser->buff) && parser->state != POP3_DONE)`: what can be read bounds the
-- rounds.
unfoldable pub pop3_parse_char : Pop3Parser → Buffer → Option (Pop3Parser × Buffer)
unfolding parse_step for_bytes
pop3_parse_char p b = for_bytes parse_step is_done never (b.write - b.read) p b

-- The arrays keep what they held.
unfoldable pub pop3_parser_init : Pop3Parser → Pop3Parser
pop3_parser_init p = record p {
  state = Pop3State.user_cmd;
  read_ptr = 0;
  write_ptr = 0;
  user_done = false;
}

unfoldable pub pop3_parse : Pop3Parser → Buffer → Option (Pop3State × Pop3Parser)
unfolding pop3_parse_char pop3_parser_init
pop3_parse p b = elim (pop3_parse_char p b) [
  | none ↦ none
  | some (q, _) ↦ some (q.state, if is_done q then pop3_parser_init q else q)
]
