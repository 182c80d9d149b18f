-- ===== src/Client/Connect.antt =====
-- src/client/client.c: the session of the client, from the greeting of the server over the password to the
-- loop of commands.
use tpe_socks.Prelude.{
  ℕ, zero, suc, Bool, true, false, Option, none, some, List, [], ◌∷◌, ◌++◌, ◌==◌, if◌then◌else◌,
  ◌>>=◌, store_all, get_or, drop, codes,
}
use tpe_socks.Prelude.Int.{ℤ, pos, negsuc}
use tpe_socks.Client.{
  Text, success, command_auth, Reply, failed, closed, received, Client, print, fill, next_reply,
  terminated, single_message, send, receive_simple_response,
}
use tpe_socks.Client.Dialog.{fgets, drop_last, new_command, Stack}

-- The message of a password, which is a line of the terminal.
unfoldable pub auth_message : Text → Option (List ℕ)
auth_message password = single_message command_auth password

-- What `admin_auth` makes of the answer: 1, 0 or -1.
unfoldable pub auth_by : ℕ × Client → ℤ × Client
unfolding print
auth_by (ret, c) =
    if ret == b'i'
    then (pos 1, c)
    else if ret == b'n'
    then (negsuc 0, c)
    else (pos 0, print (codes "Wrong password. Please, try again: ") c)

-- `buf` is the caller's array, which keeps its string where the terminal is at its end; the result is
-- that array, the returned value and the client.
unfoldable pub admin_auth : List ℕ → List ℕ → Client → Option (List ℕ × ℤ × Client)
admin_auth stack buf c =
    let (buf', rest) = fgets buf c.stdin in
    drop_last buf' >>= λ password. auth_message password >>= λ bytes.
    let (auth, c') =
      auth_by (receive_simple_response stack (send bytes (record c { stdin = rest }))) in
    some (store_all buf' 0 (password ++ 0 ∷ []), auth, c')

-- Another round while the password was refused.
unfoldable pub auth_next : ℤ → Client → Option (ℤ × Client) → Option (ℤ × Client)
auth_next (pos zero) c more = more
auth_next (pos (suc m)) c more = some (pos (suc m), c)
auth_next (negsuc m) c more = some (negsuc m, c)

-- `for(int i=0; i<3 && !auth; i++)`, with `n` rounds left: how the loop ends.
unfoldable pub auth_loop : ℕ → List ℕ → List ℕ → Client → Option (ℤ × Client)
auth_loop zero stack buf c = some (pos 0, c)
auth_loop (suc n) stack buf c =
    admin_auth stack buf c >>= λ (buf', auth, c'). auth_next auth c' (auth_loop n stack buf' c')

-- Another command unless the dialog is over.
unfoldable pub unless_over : ℕ → Client → Option (Option Client) → Option (Option Client)
unless_over zero c more = more
unless_over (suc n) c more = some (some c)

-- `while(!done)`; no result if the fuel runs out, and `some none` for a fault.
unfoldable pub command_loop : ℕ → (ℕ → Stack) → Client → Option (Option Client)
command_loop zero stacks c = none
command_loop (suc fuel) stacks c = elim (new_command (stacks fuel) c) [
  | none ↦ some none
  | some (done, c') ↦ unless_over done c' (command_loop fuel stacks c')
]

-- How the password loop ends: whether the dialog begins; the other way is `return -1`.
unfoldable pub login_end : ℤ × Client → Bool × Client
unfolding print
login_end (pos (suc _), c) =
    (true, print (10 ∷ (codes "Welcome to SCALO_NET! Use \"help\" for more options" ++ 10 ∷ [])) c)
login_end (pos zero, c) =
    (false, print (10 ∷ (codes "Too many failed attempts. Closing..." ++ 10 ∷ [])) c)
login_end (negsuc _, c) = (false, c)

-- What follows a greeting in the array: its version, and the password.
unfoldable pub greeted : List ℕ → List ℕ → Client → Option (Bool × Client)
unfolding print terminated login_end
greeted stack buf c =
    if get_or buf 0 0 == success
    then (terminated (drop 2 buf) >>= λ version.
        auth_loop 3 stack buf
          (print (codes "Password: ") (print (10 ∷ (codes "version: " ++ version ++ 10 ∷ [])) c))
        >>= λ r. some (login_end r))
    else some (false, c)

-- The start of `mng_connect` behind `connect`, by what `recv` gives; `buf` is the array before.
unfoldable pub login_by : List ℕ → List ℕ → Reply → Client → Option (Bool × Client)
login_by stack buf (received (x ∷ xs)) c = greeted stack (fill buf (x ∷ xs)) c
login_by stack buf (received []) c = some (false, c)
login_by stack buf failed c = some (false, c)
login_by stack buf closed c = some (false, c)

unfoldable pub mng_login : List ℕ → List ℕ → Client → Option (Bool × Client)
mng_login stack buf c =
    let (reply, rest) = next_reply c.replies in
    login_by stack buf reply (record c { replies = rest })
