-- ===== src/Sniffer/Login.antt =====
-- A whole login through the POP3 automaton of src/sniffer/pop3_sniffer.c.
use tpe_socks.Prelude.{
  ℕ, ◌+◌, ◌<◌, ◌≡◌, ◌≢◌, refl, ◌∙◌, true, false, some, List, ◌∷◌, ◌++◌, arith, length, All,
  c_string, store_all, set, c_string-terminated,
}
use tpe_socks.Buffer.{Buffer}
use tpe_socks.Buffer.Inv.{IsValid}
use tpe_socks.Buffer.Refine.{contents, length-contents}
use tpe_socks.Buffer.For.{for_bytes-some}
use tpe_socks.Sniffer.{
  Pop3State, Pop3Parser, argument_length, parse_step, is_done, never, pop3_parse, pop3_parser_init,
}
use tpe_socks.Sniffer.Capture.{
  SpellsUser, SpellsPass, at_state, run, user_line, pass_line, user_keyword, pass_keyword,
}

-- A login: the two commands, each with an argument on the rest of its line.
pub record Login : Type 0 where
  pub u1 : ℕ
  pub u2 : ℕ
  pub u3 : ℕ
  pub u4 : ℕ
  pub u5 : ℕ
  pub name : List ℕ
  pub p1 : ℕ
  pub p2 : ℕ
  pub p3 : ℕ
  pub p4 : ℕ
  pub p5 : ℕ
  pub secret : List ℕ

abbrev pub login_bytes : Login → List ℕ → List ℕ
login_bytes l rest =
    l.u1
    ∷ l.u2
    ∷ l.u3
    ∷ l.u4
    ∷ l.u5
    ∷ (l.name ++ 10 ∷ l.p1 ∷ l.p2 ∷ l.p3 ∷ l.p4 ∷ l.p5 ∷ (l.secret ++ 10 ∷ rest))

pub record IsLogin (l : Login) : Type 0 where
  pub user_keyword_spelt : SpellsUser l.u1 l.u2 l.u3 l.u4 l.u5
  pub pass_keyword_spelt : SpellsPass l.p1 l.p2 l.p3 l.p4 l.p5
  pub name_short : length l.name < 39
  pub secret_short : length l.secret < 39
  pub name_line : All (λ c. c ≢ 10) l.name
  pub secret_line : All (λ c. c ≢ 10) l.secret

run_login :
    (l : Login) (rest un pw : List ℕ)
    → IsLogin l
    → length un ≡ argument_length
    → length pw ≡ argument_length
    → run (at_state Pop3State.user_cmd un pw 0 false) (login_bytes l rest)
      ≡ some (
        at_state Pop3State.done
            (set (store_all un 0 l.name) (0 + length l.name) 0)
            (set (store_all pw 0 l.secret) (0 + length l.secret) 0)
            0
            true,
        rest,
      )
run_login l rest un pw i hu hp =
    user_keyword l.u1 l.u2 l.u3 l.u4 l.u5 un pw
      (l.name ++ 10 ∷ l.p1 ∷ l.p2 ∷ l.p3 ∷ l.p4 ∷ l.p5 ∷ (l.secret ++ 10 ∷ rest))
      i.user_keyword_spelt
    ∙ (user_line l.name (l.p1 ∷ l.p2 ∷ l.p3 ∷ l.p4 ∷ l.p5 ∷ (l.secret ++ 10 ∷ rest)) un pw 0 hu
          (omega (arith, i.name_short)) i.name_line
        ∙ (pass_keyword l.p1 l.p2 l.p3 l.p4 l.p5 (set (store_all un 0 l.name) (0 + length l.name) 0)
              pw (l.secret ++ 10 ∷ rest) i.pass_keyword_spelt
            ∙ pass_line l.secret rest (set (store_all un 0 l.name) (0 + length l.name) 0) pw 0 hp
                (omega (arith, i.secret_short)) i.secret_line))

-- On bytes that start with a whole login (the two keywords in any mix of cases, arguments of at most
-- 38 bytes) a fresh parser reports the credentials: its arrays hold the two arguments as C strings,
-- and the parser is ready for the next login.
pub pop3_parse-login :
    (p : Pop3Parser) (l : Login) (rest : List ℕ) (b : Buffer)
    → length p.user_name ≡ argument_length
    → length p.password ≡ argument_length
    → IsLogin l
    → IsValid b
    → contents b ≡ login_bytes l rest
    → (p' : Pop3Parser) × (pop3_parse (pop3_parser_init p) b ≡ some (Pop3State.done, p'))
      × (c_string p'.user_name ≡ c_string l.name)
      × (c_string p'.password ≡ c_string l.secret)
      × (p'.state ≡ Pop3State.user_cmd)
      × (p'.user_done ≡ false)
unfolding pop3_parse pop3_parser_init
pop3_parse-login p l rest b hu hp i v e =
    let un' = set (store_all p.user_name 0 l.name) (0 + length l.name) 0 in
    let pw' = set (store_all p.password 0 l.secret) (0 + length l.secret) 0 in
    let (b', f, _, _, _) =
      for_bytes-some parse_step is_done never
        (at_state Pop3State.user_cmd p.user_name p.password 0 false)
        (at_state Pop3State.done un' pw' 0 true) b (login_bytes l rest) rest v e
        (run_login l rest p.user_name p.password i hu hp) in
    let f' = rw (length-contents b) at f in
    let zu : 0 + length l.name ≡ length l.name = omega arith in
    let zp : 0 + length l.secret ≡ length l.secret = omega arith in
    (
      at_state Pop3State.user_cmd un' pw' 0 false,
      rw (f', pop3_parse),
      rw zu (c_string-terminated p.user_name l.name (omega (arith, i.name_short))),
      rw zp (c_string-terminated p.password l.secret (omega (arith, i.secret_short))),
      refl,
      refl,
    )
