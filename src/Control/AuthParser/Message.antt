-- ===== src/Control/AuthParser/Message.antt =====
-- The password that src/controlProtocol/parsers/cpAuthParser.c reads off a whole message.
use tpe_socks.Prelude.{
  ℕ, suc, ◌+◌, ◌<◌, ◌≡◌, ◌≢◌, refl, ◌∙◌, Option, some, none, List, [], ◌∷◌, ◌++◌, arith, length,
  All, c_string, store_all, set, length-set, c_string-terminated,
}
use tpe_socks.Buffer.{Buffer}
use tpe_socks.Buffer.Inv.{IsValid}
use tpe_socks.Buffer.Refine.{contents}
use tpe_socks.Buffer.For.{consume, for_bytes, for_bytes-some, for_bytes-none}
use tpe_socks.Control.CommandParser.{new_line}
use tpe_socks.Control.AuthParser.{
  AuthState, AuthParser, max_pass_len, init_cp_auth_parser, parse_step, is_done, is_error,
}

abbrev pub run : AuthParser → List ℕ → Option (AuthParser × List ℕ)
run = consume parse_step is_done is_error

-- In the middle of a password of which `i` bytes are stored.
abbrev reading : List ℕ → ℕ → AuthParser
reading arr i = record {
  current_state = AuthState.read_password;
  input_password = arr;
  pass_len = i;
}

step_byte :
    (arr : List ℕ) (i c : ℕ)
    → length arr ≡ 256
    → i < 256
    → c ≢ new_line
    → parse_step (reading arr i) c ≡ some (reading (set arr i c) (suc i))
unfolding parse_step
step_byte arr i c h l n = ground arith

step_end :
    (arr : List ℕ) (i : ℕ)
    → length arr ≡ 256
    → i < 256
    → parse_step (reading arr i) new_line
      ≡ some (record {
        current_state = AuthState.done;
        input_password = set arr i 0;
        pass_len = suc i;
      })
unfolding parse_step
step_end arr i h l = ground arith

step_overflow :
    (arr : List ℕ) (i : ℕ) → length arr ≡ 256 → i ≡ 256 → parse_step (reading arr i) new_line ≡ none
unfolding parse_step
step_overflow arr i h l = ground arith

stays :
    (arr : List ℕ) (i : ℕ) (rest : List ℕ)
    → run (record { current_state = AuthState.done; input_password = arr; pass_len = i }) rest
      ≡ some (record { current_state = AuthState.done; input_password = arr; pass_len = i }, rest)
stays arr i [] = refl
stays arr i (x ∷ xs) = refl

-- The bytes of the line, and its end.
line_loop :
    (arr pw rest : List ℕ) (i : ℕ)
    → length arr ≡ 256
    → i + length pw < 256
    → All (λ c. c ≢ new_line) pw
    → run (reading arr i) (pw ++ new_line ∷ rest)
      ≡ some (
        record {
          current_state = AuthState.done;
          input_password = set (store_all arr i pw) (i + length pw) 0;
          pass_len = suc (i + length pw);
        },
        rest,
      )
line_loop arr [] rest i h l n =
    let e : i + 0 ≡ i = omega arith in
    rw (e, step_end arr i h (omega arith)) (stays (set arr i 0) (suc i) rest)
line_loop arr (c ∷ pw) rest i h l n =
    let e : i + suc (length pw) ≡ suc i + length pw = omega arith in
    rw (e, step_byte arr i c h (omega arith) n.0)
      (line_loop (set arr i c) pw rest (suc i) (omega (arith, length-set arr i c)) (omega arith)
        n.1)

line_overflow :
    (arr pw rest : List ℕ) (i : ℕ)
    → length arr ≡ 256
    → i + length pw ≡ 256
    → All (λ c. c ≢ new_line) pw
    → run (reading arr i) (pw ++ new_line ∷ rest) ≡ none
line_overflow arr [] rest i h l n = rw (step_overflow arr i h (omega arith))
line_overflow arr (c ∷ pw) rest i h l n = rw (step_byte arr i c h (omega arith) n.0) (
    line_overflow (set arr i c) pw rest (suc i) (omega (arith, length-set arr i c)) (omega arith)
      n.1)

step_head :
    (p : AuthParser) (xs : List ℕ)
    → run (init_cp_auth_parser p) (b'0' ∷ 1 ∷ xs) ≡ run (reading p.input_password 0) xs
unfolding parse_step init_cp_auth_parser
step_head p xs = refl

-- A buffer that starts with a whole authentication message (the byte '0', the byte 1, a line of at
-- most 255 bytes and its end) is read to the end of the line: the parser is done, the password it
-- holds is the line up to its first zero, and the bytes behind the line stay in the buffer.
pub for_bytes-password :
    (p : AuthParser) (pw rest : List ℕ) (b : Buffer)
    → length p.input_password ≡ max_pass_len
    → length pw < max_pass_len
    → All (λ c. c ≢ new_line) pw
    → IsValid b
    → contents b ≡ b'0' ∷ 1 ∷ (pw ++ new_line ∷ rest)
    → (p' : AuthParser) × (b' : Buffer) × (for_bytes parse_step is_done is_error
          (length (contents b))
          (init_cp_auth_parser p)
          b
        ≡ some (p', b'))
      × (p'.current_state ≡ AuthState.done)
      × (c_string p'.input_password ≡ c_string pw)
      × IsValid b'
      × (contents b' ≡ rest)
for_bytes-password p pw rest b h l n v e =
    let ran =
      step_head p (pw ++ new_line ∷ rest)
      ∙ line_loop p.input_password pw rest 0 h (omega arith) n in
    let (b', r, v', _, c) =
      for_bytes-some parse_step is_done is_error (init_cp_auth_parser p)
        (record {
          current_state = AuthState.done;
          input_password = set (store_all p.input_password 0 pw) (0 + length pw) 0;
          pass_len = suc (0 + length pw);
        })
        b (b'0' ∷ 1 ∷ (pw ++ new_line ∷ rest)) rest v e ran in
    let z : 0 + length pw ≡ length pw = omega arith in
    (
      record {
        current_state = AuthState.done;
        input_password = set (store_all p.input_password 0 pw) (0 + length pw) 0;
        pass_len = suc (0 + length pw);
      },
      b',
      r,
      refl,
      rw z (c_string-terminated p.input_password pw (omega arith)),
      v',
      c,
    )

-- A line of exactly 256 bytes makes the parser store the terminator behind the end of its array.
pub for_bytes-password_overflow :
    (p : AuthParser) (pw rest : List ℕ) (b : Buffer)
    → length p.input_password ≡ max_pass_len
    → length pw ≡ max_pass_len
    → All (λ c. c ≢ new_line) pw
    → IsValid b
    → contents b ≡ b'0' ∷ 1 ∷ (pw ++ new_line ∷ rest)
    → for_bytes parse_step is_done is_error (length (contents b)) (init_cp_auth_parser p) b ≡ none
for_bytes-password_overflow p pw rest b h l n v e =
    for_bytes-none parse_step is_done is_error (init_cp_auth_parser p) b
      (b'0' ∷ 1 ∷ (pw ++ new_line ∷ rest)) v e
      (step_head p (pw ++ new_line ∷ rest)
        ∙ line_overflow p.input_password pw rest 0 h (omega arith) n)
