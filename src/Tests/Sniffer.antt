-- ===== src/Tests/Sniffer.antt =====
-- The POP3 automaton on a login, on a half one, and on what is not its protocol.
use tpe_socks.Prelude.{◌≡◌, ◌≢◌, refl, false, some, [], ◌∷◌, arith, replicate, codes, c_string}
use tpe_socks.Sniffer.{Pop3State, Pop3Parser, pop3_parse, pop3_parser_init}
use tpe_socks.Sniffer.Login.{Login, IsLogin, login_bytes, pop3_parse-login}
use tpe_socks.Sniffer.Noise.{IsSafe, IsStuck, pop3_parse-IsSafe, pop3_parse-IsStuck}
use tpe_socks.Tests.Parsers.{full, full-IsValid}

abbrev fresh : Pop3Parser
fresh = record {
  state = Pop3State.user_cmd;
  user_name = replicate 40 0;
  password = replicate 40 0;
  read_ptr = 0;
  write_ptr = 0;
  user_done = false;
}

abbrev ana : Login
ana = record {
  u1 = b'u';
  u2 = b'S';
  u3 = b'e';
  u4 = b'R';
  u5 = 32;
  name = codes "ana";
  p1 = b'P';
  p2 = b'a';
  p3 = b's';
  p4 = b's';
  p5 = 32;
  secret = codes "x1";
}

ana-IsLogin : IsLogin ana
ana-IsLogin = record {
  user_keyword_spelt = (refl, refl, refl, refl, refl);
  pass_keyword_spelt = (refl, refl, refl, refl, refl);
  name_short = omega arith;
  secret_short = omega arith;
  name_line = ground arith;
  secret_line = ground arith;
}

sniff_ana :
    (p' : Pop3Parser) × (pop3_parse (pop3_parser_init fresh) (full (login_bytes ana (13 ∷ [])))
      ≡ some (Pop3State.done, p'))
    × (c_string p'.user_name ≡ codes "ana")
    × (c_string p'.password ≡ codes "x1")
    × (p'.state ≡ Pop3State.user_cmd)
    × (p'.user_done ≡ false)
sniff_ana =
    pop3_parse-login fresh ana (13 ∷ []) (full (login_bytes ana (13 ∷ []))) refl refl ana-IsLogin
      (full-IsValid (login_bytes ana (13 ∷ []))) refl

fresh-IsSafe : IsSafe fresh
fresh-IsSafe = ground arith

sniff_noise :
    (s : Pop3State) × (p' : Pop3Parser) × (pop3_parse fresh (full (codes "USER me")) ≡ some (s, p'))
    × IsSafe p'
sniff_noise =
    pop3_parse-IsSafe fresh (full (codes "USER me")) fresh-IsSafe (full-IsValid (codes "USER me"))

abbrev overlong : Pop3Parser
overlong = record fresh { write_ptr = 39 }

overlong-IsSafe : IsSafe overlong
overlong-IsSafe = ground arith

overlong-IsStuck : IsStuck overlong
overlong-IsStuck = ground arith

sniff_more :
    (s : Pop3State) × (p' : Pop3Parser) × (pop3_parse overlong (full (login_bytes ana []))
      ≡ some (s, p'))
    × (s ≢ Pop3State.done)
    × IsStuck p'
sniff_more =
    pop3_parse-IsStuck overlong (full (login_bytes ana [])) overlong-IsSafe overlong-IsStuck
      (full-IsValid (login_bytes ana []))
