-- ===== src/Client.antt =====
-- src/client/commands.c and client/commands.h: the terminal program of the monitoring protocol, its
-- strings and its messages.
--
-- A client is what it has yet to read from the terminal and from the socket, and what it has sent and
-- printed. `none` is a fault: a null pointer that is read, or an access out of an array. `send` is
-- taken to send the whole message.
pub mod Listing
pub mod Dialog
pub mod Connect
pub mod Strings
pub mod Messages
pub mod Session
pub mod Terminal
pub mod Ending
pub mod Responses
pub mod Logins
pub mod RoundTrip
pub mod Changes
pub mod Removal
pub mod Lines
pub mod Tokens
pub mod Rows
pub mod Printed
pub mod Listed
use tpe_socks.Prelude.{
  ℕ, zero, suc, ◌+◌, ◌-◌, Option, none, some, List, [], ◌∷◌, ◌++◌, ◌==◌, if◌then◌else◌, ◌>>=◌, ltb,
  length, c_string, store_all, set, get_or, take, replicate,
}

-- A byte string without a zero.
abbrev pub Text : Type 0
Text = List ℕ

abbrev pub failure : ℕ
failure = b'0'

abbrev pub success : ℕ
success = b'1'

abbrev pub command_auth : ℕ
command_auth = b'0'

abbrev pub command_add_user : ℕ
command_add_user = b'1'

abbrev pub command_delete_user : ℕ
command_delete_user = b'2'

abbrev pub command_edit_password : ℕ
command_edit_password = b'3'

abbrev pub command_list_users : ℕ
command_list_users = b'4'

abbrev pub command_obtain_metrics : ℕ
command_obtain_metrics = b'5'

abbrev pub command_dissector_on : ℕ
command_dissector_on = b'6'

abbrev pub command_dissector_off : ℕ
command_dissector_off = b'7'

abbrev pub has_not_data : ℕ
has_not_data = 0

abbrev pub has_data : ℕ
has_data = 1

abbrev pub maxlen : ℕ
maxlen = 1024

abbrev pub token : ℕ
token = 10

-- What one call of `recv` gives: an error, the end of the stream, or bytes.
pub data Reply : Type 0 where
  failed closed : Reply
  received : List ℕ → Reply

pub record Client : Type 0 where
  pub stdin : List ℕ
  pub replies : List Reply
  pub sent : List (List ℕ)
  pub printed : List Text

unfoldable pub print : Text → Client → Client
print text c = record c { printed = c.printed ++ text ∷ [] }

unfoldable pub send : List ℕ → Client → Client
send bytes c = record c { sent = c.sent ++ bytes ∷ [] }

-- A store out of the array is a fault.
unfoldable pub store : List ℕ → ℕ → ℕ → Option (List ℕ)
store buf i x = if ltb i (length buf) then some (set buf i x) else none

-- `strcat`, with the terminator that it stores.
unfoldable pub strcat : List ℕ → Text → Option (List ℕ)
strcat buf text =
    let n = length (c_string buf) in
    if ltb (n + length text) (length buf) then some (store_all buf n (text ++ 0 ∷ [])) else none

-- The string at the start of an array that ends it by a zero; any other is a fault.
unfoldable pub terminated : List ℕ → Option Text
terminated [] = none
terminated (x ∷ xs) =
    let rest = terminated xs in if x == 0 then some [] else (rest >>= λ text. some (x ∷ text))

-- `char to_send[MAXLEN] = {0}`.
abbrev pub zeros : ℕ → List ℕ
zeros n = replicate n 0

-- The start of a message with data: the code and the flag.
unfoldable pub with_data : ℕ → Option (List ℕ)
unfolding store
with_data command = store (zeros maxlen) 0 command >>= λ buf. store buf 1 has_data

-- The bytes `recv` writes to the array it is given.
abbrev pub fill : List ℕ → List ℕ → List ℕ
fill buf bytes = store_all buf 0 (take maxlen bytes)

-- The status of an answer in the array.
unfoldable pub status_of : List ℕ → ℕ
status_of buf =
    if get_or buf 0 0 == failure
    then (if get_or buf 1 0 == has_data then get_or buf 2 0 else b'x')
    else b'i'

unfoldable pub response_by : List ℕ → Reply → ℕ
unfolding status_of
response_by stack failed = b'x'
response_by stack closed = b'n'
response_by stack (received []) = b'n'
response_by stack (received (x ∷ xs)) = status_of (fill stack (x ∷ xs))

-- The next result of `recv`; the stream has ended behind the last of them.
abbrev pub next_reply : List Reply → Reply × List Reply
next_reply [] = (closed, [])
next_reply (r ∷ rs) = (r, rs)

-- `stack` is what the array on the stack holds at the start.
unfoldable pub receive_simple_response : List ℕ → Client → ℕ × Client
unfolding response_by
receive_simple_response stack c =
    let (reply, rest) = next_reply c.replies in
    (response_by stack reply, record c { replies = rest })

unfoldable pub send_simple : ℕ → Client → Client
unfolding send
send_simple command c = send (command ∷ has_not_data ∷ []) c

unfoldable pub single_message : ℕ → Text → Option (List ℕ)
single_message command username =
    let len = length username + 3 in
    with_data command >>= λ buf.
    strcat buf username >>= λ buf. store buf (len - 1) token >>= λ buf. some (take len buf)

unfoldable pub double_message : ℕ → Text → Text → Option (List ℕ)
double_message command username pass =
    let len = length username + length pass + 4 in
    with_data command >>= λ buf. strcat buf username >>= λ buf. strcat buf (b':' ∷ []) >>= λ buf.
    strcat buf pass >>= λ buf. store buf (len - 1) token >>= λ buf. some (take len buf)

unfoldable pub single_arg_command : ℕ → Text → List ℕ → Client → Option (ℕ × Client)
single_arg_command command username stack c =
    single_message command username >>= λ bytes. some (receive_simple_response stack (send bytes c))

unfoldable pub double_arg_command : ℕ → Text → Text → List ℕ → Client → Option (ℕ × Client)
double_arg_command command username pass stack c = double_message command username pass >>= λ bytes.
    some (receive_simple_response stack (send bytes c))

unfoldable pub dissector : ℕ → List ℕ → Client → ℕ × Client
dissector on stack c =
    receive_simple_response stack
      (send_simple (if on == 0 then command_dissector_off else command_dissector_on) c)
