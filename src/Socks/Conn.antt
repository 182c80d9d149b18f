-- ===== src/Socks/Conn.antt =====
-- src/socks5/socks5.h: the state of a SOCKS5 connection, and the two functions of src/socks5/socks5.c
-- that move bytes between a buffer and a socket.
--
-- A connection is a record, and so is all that it shares with others: the server's globals, the
-- selector, and what the system was told to close or to shut down. `none` is a fault.
use tpe_socks.Prelude.{
  ℕ, suc, Bool, true, false, Option, none, some, List, [], ◌∷◌, ◌>>=◌, length, replicate,
}
use tpe_socks.Prelude.Int.{ℤ, pos}
use tpe_socks.Buffer.{Buffer, buffer_init, buffer_write_ptr, buffer_read_ptr, buffer_read_adv}
use tpe_socks.Selector as Sel
pub use tpe_socks.Selector.Register.{is_success}
use tpe_socks.Control.Conn.{put}
use tpe_socks.Control.Commands.{Server}
use tpe_socks.Parsers.Conn.{ConnParser}
use tpe_socks.Parsers.Conn as ConnParsers
use tpe_socks.Parsers.Auth.{AuthParser}
use tpe_socks.Parsers.Auth as AuthParsers
use tpe_socks.Parsers.Req.{ReqParser, Sockaddr, Family, DstAddr}
use tpe_socks.Parsers.Req as ReqParsers
use tpe_socks.Sniffer.{Pop3Parser}

-- `enum socks_state`.
pub data SocksState : Type 0 where
  hello_reading hello_writing auth_reading auth_writing req_reading req_writing req_resolving :
      SocksState
  req_connecting copying failed finished : SocksState

-- `struct addrinfo`, of a list that `getaddrinfo` returned.
pub record AddrInfo : Type 0 where
  pub family : Family
  pub addr : Sockaddr

-- `struct copy_model_t`; its pointers are determined by the side that it belongs to.
pub record CopyModel : Type 0 where
  pub fd : ℤ
  pub interests : Sel.Interest
  pub int_connection : Sel.Interest

-- The two ends of a connection.
pub data Side : Type 0 where
  cli src : Side

-- `struct socks_conn_model` with the structs that it points to; `self` is its address. `resolved_addr`
-- is a null pointer or the list of the addresses, and `curr_addr` what is left of it; `current` is
-- `stm.current`, as an index of the table.
pub record SocksConn : Type 0 where
  pub self : ℕ
  pub cli_socket : ℤ
  pub src_socket : ℤ
  pub src_addr : Sockaddr
  pub src_addr_family : Family
  pub read_buff : Buffer
  pub write_buff : Buffer
  pub connect_parser : ConnParser
  pub auth_parser : AuthParser
  pub req_parser : ReqParser
  pub resolved_addr : Option (List AddrInfo)
  pub curr_addr : List AddrInfo
  pub current : Option ℕ
  pub pop3_parser : Option Pop3Parser
  pub cli_copy : CopyModel
  pub src_copy : CopyModel

-- What the connections share. The last two are what was passed to `close` and to `shutdown`, in
-- order; a descriptor is shut for reading (`true`) or for writing.
pub record World : Type 0 where
  pub server : Server
  pub selector : Sel.Selector
  pub closed : List ℤ
  pub shut : List (ℤ × Bool)

abbrev pub op_noop : Sel.Interest
op_noop = record { op_read = false; op_write = false }

abbrev pub op_read : Sel.Interest
op_read = record { op_read = true; op_write = false }

abbrev pub op_write : Sel.Interest
op_write = record { op_read = false; op_write = true }

abbrev buff_size : ℕ
buff_size = 2048

abbrev no_sockaddr : ℕ → Sockaddr
no_sockaddr n = record { family = ReqParsers.af_unspec; port = 0 ∷ 0 ∷ []; addr = replicate n 0 }

abbrev pub no_dst_addr : DstAddr
no_dst_addr = record { ipv4 = no_sockaddr 4; ipv6 = no_sockaddr 16; fqdn = replicate 255 0 }

abbrev no_copy : CopyModel
no_copy = record { fd = pos 0; interests = op_noop; int_connection = op_noop }

-- `new_socks_conn`, with all its allocations: the structs are cleared, the arrays of the buffers hold
-- what `malloc` left there.
unfoldable pub new_socks_conn : ℕ → List ℕ → List ℕ → SocksConn
unfolding buffer_init
new_socks_conn self aux_read_buff aux_write_buff = record {
  self = self;
  cli_socket = pos 0;
  src_socket = pos 0;
  src_addr = no_sockaddr 16;
  src_addr_family = ReqParsers.af_unspec;
  read_buff = buffer_init buff_size aux_read_buff;
  write_buff = buffer_init buff_size aux_write_buff;
  connect_parser = record { auth = 0; state = ConnParsers.conn_version; to_parse = 0 };
  auth_parser = record {
    state = AuthParsers.auth_ver;
    to_parse = 0;
    where_to = AuthParsers.null;
    username = replicate 255 0;
    password = replicate 255 0;
  };
  req_parser = record {
    state = ReqParsers.req_ver;
    to_parse = pos 0;
    where_to = ReqParsers.null;
    cmd = 0;
    type = 0;
    addr = no_dst_addr;
    port = 0 ∷ 0 ∷ [];
    res_parser = record { state = 0; type = 0; addr = no_dst_addr; port = 0 ∷ 0 ∷ [] };
  };
  resolved_addr = none;
  curr_addr = [];
  current = none;
  pop3_parser = none;
  cli_copy = no_copy;
  src_copy = no_copy;
}

-- The result of a handler.
abbrev pub Next : Type 0
Next = Option (SocksState × SocksConn × World)

-- What `recv` returns: bytes, none at the end of the stream, or an error.
pub data Recv : Type 0 where
  received : List ℕ → Recv
  recv_failed : Recv

-- What `send` returns.
pub data Send : Type 0 where
  sent : ℕ → Send
  send_failed : Send

-- `check_buff_and_receive`: the number of bytes, or nothing for -1.
unfoldable pub check_buff_and_receive : Recv → Buffer → Option (Option ℕ × Buffer)
check_buff_and_receive (received []) b = buffer_write_ptr b >>= λ _. some (none, b)
check_buff_and_receive (received (x ∷ xs)) b =
    buffer_write_ptr b >>= λ _. put b (x ∷ xs) >>= λ b'. some (some (suc (length xs)), b')
check_buff_and_receive recv_failed b = buffer_write_ptr b >>= λ _. some (none, b)

-- `check_buff_and_send`.
unfoldable pub check_buff_and_send : Send → Buffer → Option (Option ℕ × Buffer)
check_buff_and_send (sent n) b =
    buffer_read_ptr b >>= λ _. buffer_read_adv b (pos n) >>= λ b'. some (some n, b')
check_buff_and_send send_failed b = buffer_read_ptr b >>= λ _. some (none, b)

-- `selector_set_interest`, as a call that changes the world; also `selector_set_interest_key`.
unfoldable pub set_interest : World → ℤ → Sel.Interest → Option (Sel.Status × World)
unfolding Sel.selector_set_interest
set_interest w fd i =
    Sel.selector_set_interest w.selector fd i >>= λ (t, s). some (t, record w { selector = s })
