-- ===== src/Tests/Parsers.antt =====
-- The SOCKS5 parsers on whole messages.
use tpe_socks.Prelude.{
  ℕ, ◌≡◌, refl, true, some, none, List, [], ◌∷◌, arith, length, replicate, c_string, inl,
}
use tpe_socks.Prelude.Int.{pos}
use tpe_socks.Buffer.{Buffer}
use tpe_socks.Buffer.Inv.{IsValid}
use tpe_socks.Buffer.Refine.{contents}
use tpe_socks.Parsers.Conn.{conn_done, start_connection_parser, conn_parse_full}
use tpe_socks.Parsers.Conn.Select.{conn_parse_full-greeting}
use tpe_socks.Parsers.Auth.{
  AuthParser, auth_done, auth_ulen, null, auth_parser_init, auth_parse_byte, auth_parse_full,
}
use tpe_socks.Parsers.Auth.Credentials.{auth_parse_full-credentials}
use tpe_socks.Parsers.Auth.Aims.{IsSafe}
use tpe_socks.Parsers.Auth.Safety.{auth_parse_byte-overflow}
use tpe_socks.Parsers.Req
use tpe_socks.Parsers.Req.Message.{v4, Holds, req_parse_full-request}

-- A buffer that holds `xs` and nothing else.
abbrev pub full : List ℕ → Buffer
full xs = record { bytes = xs; limit = length xs; read = 0; write = length xs }

pub full-IsValid : (xs : List ℕ) → IsValid (full xs)
full-IsValid xs = ground arith

-- GSSAPI and username with password are offered, and a byte of the next message is there.
abbrev greeting : Buffer
greeting = full (5 ∷ 2 ∷ 1 ∷ 2 ∷ 1 ∷ [])

greet :
    (b' : Buffer) × (conn_parse_full true start_connection_parser greeting
      ≡ some (record { auth = 2; state = conn_done; to_parse = 0 }, b'))
    × IsValid b'
    × (contents b' ≡ 1 ∷ [])
greet =
    conn_parse_full-greeting true (1 ∷ 2 ∷ []) (1 ∷ []) greeting
      (full-IsValid (5 ∷ 2 ∷ 1 ∷ 2 ∷ 1 ∷ [])) refl

abbrev auth_parser : AuthParser
auth_parser = record {
  state = auth_ulen;
  to_parse = 0;
  where_to = null;
  username = replicate 255 0;
  password = replicate 255 0;
}

abbrev credentials : Buffer
credentials = full (1 ∷ 2 ∷ b'a' ∷ b'b' ∷ 1 ∷ b'c' ∷ 5 ∷ [])

log_in :
    (p' : AuthParser) × (b' : Buffer) × (auth_parse_full (auth_parser_init auth_parser) credentials
      ≡ some (p', b'))
    × (p'.state ≡ auth_done)
    × (c_string p'.username ≡ b'a' ∷ b'b' ∷ [])
    × (c_string p'.password ≡ b'c' ∷ [])
    × IsValid b'
    × (contents b' ≡ 5 ∷ [])
log_in =
    auth_parse_full-credentials auth_parser (b'a' ∷ b'b' ∷ []) (b'c' ∷ []) (5 ∷ []) credentials refl
      refl (omega arith, omega arith, (omega arith, (omega arith, tt)))
      (omega arith, omega arith, (omega arith, tt))
      (full-IsValid (1 ∷ 2 ∷ b'a' ∷ b'b' ∷ 1 ∷ b'c' ∷ 5 ∷ [])) refl

auth_parser-IsSafe : IsSafe auth_parser
auth_parser-IsSafe = record { username_size = refl; password_size = refl; aims = tt }

longest_name : auth_parse_byte auth_parser 255 ≡ none
longest_name = auth_parse_byte-overflow auth_parser auth_parser-IsSafe refl

abbrev no_address : Req.Sockaddr
no_address = record { family = Req.af_unspec; port = 0 ∷ 0 ∷ []; addr = [] }

abbrev no_dst : Req.DstAddr
no_dst = record { ipv4 = no_address; ipv6 = no_address; fqdn = replicate 255 0 }

abbrev req_parser : Req.ReqParser
req_parser = record {
  state = Req.req_error;
  to_parse = pos 3;
  where_to = Req.null;
  cmd = 9;
  type = 9;
  addr = no_dst;
  port = 0 ∷ 0 ∷ [];
  res_parser = record { state = 0; type = 0; addr = no_dst; port = 0 ∷ 0 ∷ [] };
}

abbrev local_80 : List ℕ
local_80 = 5 ∷ 1 ∷ 0 ∷ 1 ∷ 127 ∷ 0 ∷ 0 ∷ 1 ∷ 0 ∷ 80 ∷ b'G' ∷ []

connect_local :
    (p' : Req.ReqParser) × (b' : Buffer) × (Req.req_parse_full
        (Req.req_parser_init req_parser)
        (full local_80)
      ≡ some (p', b'))
    × (p'.state ≡ Req.req_done)
    × (p'.cmd ≡ 1)
    × Holds (v4 (127 ∷ 0 ∷ 0 ∷ 1 ∷ [])) p'
    × (p'.port ≡ 0 ∷ 80 ∷ [])
    × IsValid b'
    × (contents b' ≡ b'G' ∷ [])
connect_local =
    req_parse_full-request req_parser 1 0 80 (b'G' ∷ []) (v4 (127 ∷ 0 ∷ 0 ∷ 1 ∷ [])) (full local_80)
      (inl refl) refl refl (full-IsValid local_80) refl
