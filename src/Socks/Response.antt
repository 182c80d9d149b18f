-- ===== src/Socks/Response.antt =====
-- `req_response_message` of src/socks5/socks5.c and what it is built from: the reply to a request.
pub mod Bytes
use tpe_socks.Prelude.{
  ℕ, zero, suc, ◌+◌, Bool, true, false, Option, none, some, List, [], ◌∷◌, ◌++◌, ◌>>=◌,
  if◌then◌else◌, ltb, ◌==◌, length, c_string, replicate, ◌&&◌, ◌%◌,
}
use tpe_socks.Buffer.{Buffer, buffer_write_ptr}
use tpe_socks.Control.Conn.{put}
use tpe_socks.Parsers.Conn.{socks_version}
use tpe_socks.Parsers.Req.{ReqParser, ResParser}
use tpe_socks.Parsers.Req.ReqAtyp
use tpe_socks.Socks.Conn.{
  SocksState, req_writing, failed, SocksConn, World, Next, op_write, set_interest, is_success,
}

-- `strncpy(dst, src, n)`: the bytes of the string, and zeros up to `n`.
abbrev pub strncpy : List ℕ → ℕ → List ℕ
strncpy src zero = []
strncpy [] (suc n) = 0 ∷ strncpy [] n
strncpy (x ∷ xs) (suc n) = if x == 0 then replicate (suc n) 0 else x ∷ strncpy xs n

-- The address pointer and the length; no address for another type.
pub response_address : ResParser → Option (List ℕ × ℕ)
response_address p =
    if p.type == ReqAtyp.ipv4
    then some (p.addr.ipv4.addr, 4)
    else if p.type == ReqAtyp.ipv6
    then some (p.addr.ipv6.addr, 16)
    else if p.type == ReqAtyp.fqdn
    then some (p.addr.fqdn, length (c_string p.addr.fqdn))
    else none

-- The bytes of the reply; a name's length is stored in one byte.
pub response_bytes : ResParser → List ℕ → ℕ → List ℕ
response_bytes p addr n =
    socks_version
    ∷ p.state
    ∷ 0
    ∷ p.type
    ∷ ((if p.type == ReqAtyp.fqdn then n % 256 ∷ [] else []) ++ (strncpy addr n ++ p.port))

-- The number of bytes that were written, or nothing for -1.
pub req_response_message : Buffer → ResParser → Option (Option ℕ × Buffer)
req_response_message write_buff p = buffer_write_ptr write_buff >>= λ (_, n_bytes).
    elim (response_address p) [
      | none ↦ some (none, write_buff)
      | some (addr, n) ↦
          let space_needed = n + 6 + (if p.type == ReqAtyp.fqdn then 1 else 0) in
          if n == 0
          then some (none, write_buff)
          else if ltb n_bytes space_needed
          then some (none, write_buff)
          else (put write_buff (response_bytes p addr n) >>= λ b. some (some space_needed, b))
    ]

unfoldable pub set_res_parser : ReqParser → ℕ → ReqParser
set_res_parser p state = record p {
  res_parser = record { state = state; type = p.type; addr = p.addr; port = p.port };
}

-- The reply is written, and the client's interest is in reading it.
unfoldable pub manage_req_error : ℕ → SocksConn → World → Next
manage_req_error state c w =
    let parser = set_res_parser c.req_parser state in
    set_interest w c.cli_socket op_write >>= λ (t, w').
    req_response_message c.write_buff parser.res_parser >>= λ (n, b).
    let created : Bool = elim n [ none ↦ false | some _ ↦ true ] in
    some (
      if is_success t && created then req_writing else failed,
      record c { req_parser = parser; write_buff = b },
      w',
    )
