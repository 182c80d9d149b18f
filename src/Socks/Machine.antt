-- ===== src/Socks/Machine.antt =====
-- The states of src/socks5/socks5.c, and src/conn_handler.c, which runs them on the engine of src/stm.c.
--
-- All that the system, the resolver and the allocator may decide in one event is its `Answers`.
pub mod Moves
use tpe_socks.Prelude.{
  ℕ, ◌+◌, Bool, true, false, Option, none, some, List, [], ◌∷◌, ◌>>=◌, if◌then◌else◌, ◌==◌, ◌||◌,
}
use tpe_socks.Prelude.Int.{ℤ}
use tpe_socks.Sniffer.{Pop3Parser}
use tpe_socks.Parsers.Req.{Errno}
use tpe_socks.Stm.{
  StateDefinition, StateMachine, stm_init, stm_handler_read, stm_handler_write, stm_handler_block,
}
use tpe_socks.Server.{close_socks_conn}
use tpe_socks.Socks.Conn.{
  SocksState, hello_reading, hello_writing, auth_reading, auth_writing, req_reading, req_writing,
  req_resolving, req_connecting, copying, failed, finished, SocksConn, World, Next, Recv, Send,
}
use tpe_socks.Socks.Hello.{hello_read, hello_write}
use tpe_socks.Socks.Auth.{auth_read, auth_write}
use tpe_socks.Socks.Request.{Dial, Thread, req_read, req_dns, req_connect, req_write}
use tpe_socks.Socks.Copy.{copy_on_arrival, copy_read, copy_write}

-- `fd` is the descriptor of the event; `again` is about the error of `recv` or `send`, and `optval` is
-- what `getsockopt` stores.
pub record Answers : Type 0 where
  pub fd : ℤ
  pub recv : Recv
  pub send : Send
  pub again : Bool
  pub dial : Dial
  pub thread : Thread
  pub optval : Option Errno
  pub fresh : Option Pop3Parser

-- The values of `enum socks_state`.
abbrev pub number : SocksState → ℕ
number hello_reading = 0
number hello_writing = 1
number auth_reading = 2
number auth_writing = 3
number req_reading = 4
number req_writing = 5
number req_resolving = 6
number req_connecting = 7
number copying = 8
number failed = 9
number finished = 10

-- What the engine passes to a callback, and gets from it.
abbrev pub Key : Type 0
Key = SocksConn × World

abbrev pub numbered : Next → Option (ℕ × Key)
numbered n = n >>= λ (t, c, w). some (number t, (c, w))

abbrev pub on_read : Answers → SocksState → Option (SocksConn → World → Next)
on_read a hello_reading = some (hello_read a.fd a.recv)
on_read a auth_reading = some (auth_read a.fd a.recv)
on_read a req_reading = some (req_read a.fd a.recv a.dial a.thread)
on_read a copying = some (copy_read a.fd a.recv a.again)
on_read a _ = none

abbrev pub on_write : Answers → SocksState → Option (SocksConn → World → Next)
on_write a hello_writing = some (hello_write a.fd a.send)
on_write a auth_writing = some (auth_write a.fd a.send)
on_write a req_writing = some (req_write a.fd a.send)
on_write a req_connecting = some (req_connect a.fd a.optval a.dial)
on_write a copying = some (copy_write a.fd a.send a.again)
on_write a _ = none

abbrev pub on_block : Answers → SocksState → Option (SocksConn → World → Next)
on_block a req_resolving = some (req_dns a.dial)
on_block a _ = none

abbrev pub arrival : Answers → SocksState → Option (ℕ → Key → Option Key)
arrival a copying =
    some (λ _ (c, w). copy_on_arrival a.fresh w.server.sniffer_on c >>= λ c'. some (c', w))
arrival a _ = none

abbrev pub callback : Option (SocksConn → World → Next) → Option (Key → Option (ℕ × Key))
callback none = none
callback (some f) = some (λ (c, w). numbered (f c w))

-- An entry of the table.
abbrev pub definition : Answers → SocksState → StateDefinition Key
definition a t = record {
  state = number t;
  on_arrival = arrival a t;
  on_departure = none;
  on_read_ready = callback (on_read a t);
  on_write_ready = callback (on_write a t);
  on_block_ready = callback (on_block a t);
}

abbrev pub states : Answers → List (StateDefinition Key)
states a =
    definition a hello_reading
    ∷ definition a hello_writing
    ∷ definition a auth_reading
    ∷ definition a auth_writing
    ∷ definition a req_reading
    ∷ definition a req_writing
    ∷ definition a req_resolving
    ∷ definition a req_connecting
    ∷ definition a copying
    ∷ definition a failed
    ∷ definition a finished
    ∷ []

-- The `stm` of a connection.
abbrev pub socks_stm : Answers → Option ℕ → StateMachine Key
socks_stm a current = record {
  initial = number hello_reading;
  states = states a;
  max_state = number finished;
  current = current;
}

-- Nothing is left of a connection that is over.
pub check_state : ℕ → SocksConn → World → Option (Option SocksConn × World)
check_state ret c w =
    let closed = (close_socks_conn c w >>= λ w'. some (none, w')) in
    if ret == number failed || ret == number finished then closed else some (some c, w)

-- The part that the handlers share, after the engine has returned.
unfoldable pub checked : Option (ℕ × StateMachine Key × Key) → Option (Option SocksConn × World)
checked r =
    r >>= λ (ret, stm, key). check_state ret (record (key.0) { current = stm.current }) (key.1)

pub socks_conn_read : Answers → SocksConn → World → Option (Option SocksConn × World)
socks_conn_read a c w = checked (stm_handler_read (socks_stm a c.current) (c, w))

pub socks_conn_write : Answers → SocksConn → World → Option (Option SocksConn × World)
socks_conn_write a c w = checked (stm_handler_write (socks_stm a c.current) (c, w))

pub socks_conn_block : Answers → SocksConn → World → Option (Option SocksConn × World)
socks_conn_block a c w = checked (stm_handler_block (socks_stm a c.current) (c, w))

unfoldable socks_conn_close : SocksConn → World → Option World
socks_conn_close c w = close_socks_conn c w
