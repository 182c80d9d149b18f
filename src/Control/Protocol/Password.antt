-- ===== src/Control/Protocol/Password.antt =====
-- The administrator's password, as `authRead` of src/controlProtocol/controlProtocol.c checks it.
use tpe_socks.Prelude.{
  ℕ, ◌-◌, ◌<◌, ◌≡◌, ◌≢◌, refl, ap, sym, ◌∙◌, Option, some, List, ◌∷◌, arith, length, ◌++◌, All,
  c_string, str_eq,
}
use tpe_socks.Buffer.{Buffer, buffer_can_read, buffer_read_ptr}
use tpe_socks.Buffer.Inv.{IsValid}
use tpe_socks.Buffer.Refine.{contents, length-contents}
use tpe_socks.Buffer.For.{for_bytes}
use tpe_socks.Control.AuthParser
use tpe_socks.Control.AuthParser.Message.{for_bytes-password}
use tpe_socks.Control.CommandParser.{new_line}
use tpe_socks.Control.Conn.{cp_auth, op_write, Conn, auth_read, validate_password, admin_password}

-- A whole authentication message with a line of at most 255 bytes, at the start of a read buffer, makes
-- `authRead` accept the connection exactly if the line, up to its first zero byte, is the
-- administrator's password. The state stays `CP_AUTH`, the answer is to be written next, and the bytes
-- behind the line stay in the buffer.
pub auth_read-password :
    (c : Conn) (p : AuthParser.AuthParser) (pw rest : List ℕ)
    → c.auth_parser ≡ AuthParser.init_cp_auth_parser p
    → length p.input_password ≡ AuthParser.max_pass_len
    → length pw < AuthParser.max_pass_len
    → All (λ b. b ≢ new_line) pw
    → IsValid c.read_buffer
    → contents c.read_buffer ≡ b'0' ∷ 1 ∷ (pw ++ new_line ∷ rest)
    → (c' : Conn) × (auth_read c ≡ some (cp_auth, c'))
      × (c'.valid_password ≡ str_eq admin_password (c_string pw))
      × (c'.selected ≡ op_write)
      × IsValid c'.read_buffer
      × (contents c'.read_buffer ≡ rest)
unfolding auth_read buffer_can_read buffer_read_ptr validate_password
auth_read-password c p pw rest i h k l v e =
    let (p', b', ran, d, t, v', r) = for_bytes-password p pw rest c.read_buffer h k l v e in
    let some_left : c.read_buffer.read < c.read_buffer.write =
      omega (arith, length-contents c.read_buffer, ap (λ (xs : List ℕ). length xs) e) in
    let ran' : loop (c.read_buffer.write - c.read_buffer.read) c.auth_parser c.read_buffer
        ≡ some (p', b') =
      ap (λ (n : ℕ). loop n c.auth_parser c.read_buffer) (sym (length-contents c.read_buffer))
      ∙ (ap (λ q. loop (length (contents c.read_buffer)) q c.read_buffer) i ∙ ran) in
    (
      record c {
        auth_parser = AuthParser.init_cp_auth_parser p';
        read_buffer = b';
        valid_password = validate_password p';
        selected = op_write;
      },
      ground (arith, ran', d, some_left),
      ap (λ (xs : List ℕ). str_eq admin_password xs) t,
      refl,
      v',
      r,
    )
  where
    loop : ℕ → AuthParser.AuthParser → Buffer → Option (AuthParser.AuthParser × Buffer)
    loop = for_bytes AuthParser.parse_step AuthParser.is_done AuthParser.is_error
