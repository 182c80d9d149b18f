-- ===== src/Parsers/Req/ResState.antt =====
-- `enum res_state` of src/parsers/req_parser.h: the byte that a reply carries.
use tpe_socks.Prelude.{ℕ}

abbrev pub success : ℕ
success = 0x00

abbrev pub socks_fail : ℕ
socks_fail = 0x01

abbrev pub net_unreachable : ℕ
net_unreachable = 0x03

abbrev pub host_unreachable : ℕ
host_unreachable = 0x04

abbrev pub conn_refused : ℕ
conn_refused = 0x05

abbrev pub ttl_expired : ℕ
ttl_expired = 0x06

abbrev pub cmd_unsupported : ℕ
cmd_unsupported = 0x07
