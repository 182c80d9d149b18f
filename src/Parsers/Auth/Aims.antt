-- ===== src/Parsers/Auth/Aims.antt =====
-- Where the parser of src/parsers/auth_parser.c may store in each of its states.
use tpe_socks.Prelude.{ℕ, ◌+◌, ◌≤◌, ◌<◌, ◌≡◌, Bool, true, false, some, none, length, ◌⊎◌}
use tpe_socks.Parsers.Auth.{
  AuthState, AuthParser, Target, null, in_username, in_password, auth_ulen, auth_uname, auth_plen,
  auth_passwd, auth_parser_init, auth_parse_byte, max_len,
}

-- Where the parser is going to store, by its state.
abbrev pub Aims : AuthState → Target → ℕ → Type 0
Aims auth_uname (in_username i) left = (0 < left) × (i + left < max_len)
Aims auth_passwd (in_password i) left = (0 < left) × (i + left < max_len)
Aims auth_uname null left = ⊥
Aims auth_uname (in_password i) left = ⊥
Aims auth_passwd null left = ⊥
Aims auth_passwd (in_username i) left = ⊥
Aims _ _ _ = Unit {0}

-- Both arrays have their size, and what is left to read fits before the terminator.
pub record IsSafe (p : AuthParser) : Type 0 where
  pub username_size : length p.username ≡ max_len
  pub password_size : length p.password ≡ max_len
  pub aims : Aims p.state p.where_to p.to_parse

pub auth_parser_init-IsSafe :
    (p : AuthParser)
    → length p.username ≡ max_len
    → length p.password ≡ max_len
    → IsSafe (auth_parser_init p)
unfolding auth_parser_init
auth_parser_init-IsSafe p a b = record { username_size = a; password_size = b; aims = tt }

-- The states in which the next byte is a length.
abbrev pub awaits_length : AuthState → Bool
awaits_length auth_ulen = true
awaits_length auth_plen = true
awaits_length _ = false

-- A step that ends well, or the one kind that does not.
abbrev pub StepSafe : AuthParser → ℕ → Type 0
StepSafe p byte =
    ((p' : AuthParser) × (auth_parse_byte p byte ≡ some p') × IsSafe p')
    ⊎ ((auth_parse_byte p byte ≡ none) × (awaits_length p.state ≡ true) × (255 ≤ byte))
