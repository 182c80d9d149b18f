-- ===== src/Parsers/Req/ReqCmd.antt =====
-- `enum req_cmd` of src/parsers/req_parser.h: the command byte of a request.
use tpe_socks.Prelude.{ℕ}

abbrev pub none_yet : ℕ
none_yet = 0x00

abbrev pub connect : ℕ
connect = 0x01

abbrev pub bind : ℕ
bind = 0x02

abbrev pub udp : ℕ
udp = 0x03
