-- ===== src/Parsers/Req/ReqAtyp.antt =====
-- `enum req_atyp` of src/parsers/req_parser.h: the address type byte of a request.
use tpe_socks.Prelude.{ℕ}

abbrev pub none_yet : ℕ
none_yet = 0x00

abbrev pub ipv4 : ℕ
ipv4 = 0x01

abbrev pub fqdn : ℕ
fqdn = 0x03

abbrev pub ipv6 : ℕ
ipv6 = 0x04
