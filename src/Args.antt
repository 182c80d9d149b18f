-- ===== src/Args.antt =====
-- src/args.c: the arguments of the proxy.
--
-- `getopt` is a parameter: the options that it gives, each with its argument, and the arguments behind
-- them. What the program prints is not modelled.
pub mod Accepted
use tpe_socks.Prelude.{
  ℕ, zero, suc, ◌+◌, ◌-◌, ◌*◌, ◌^◌, Bool, true, false, ◌&&◌, ◌||◌, Option, none, some, List, [],
  ◌∷◌, ◌==◌, if◌then◌else◌, ltb, leb, codes, length,
}
use tpe_socks.Prelude.Int.{ℤ, pos, negsuc}
use tpe_socks.Users.{Text, Users, Alloc, add_user}

-- `strtol` in base 10: white space, a sign and digits.
abbrev pub is_space : ℕ → Bool
is_space c = (c == 32) || (leb 9 c && leb c 13)

abbrev pub is_digit : ℕ → Bool
is_digit c = leb b'0' c && leb c b'9'

unfoldable pub skip_space : List ℕ → List ℕ
skip_space [] = []
skip_space (c ∷ cs) = let rest = skip_space cs in if is_space c then rest else c ∷ cs

-- The value of the digits behind `acc`, and what is behind them.
unfoldable pub read_digits : ℕ → List ℕ → ℕ × List ℕ
read_digits acc [] = (acc, [])
read_digits acc (c ∷ cs) =
    let rest = read_digits (acc * 10 + (c - b'0')) cs in if is_digit c then rest else (acc, c ∷ cs)

abbrev pub long_max : ℕ
long_max = 2 ^ 63 - 1

-- A value out of the range of `long` becomes its bound, with `errno` set.
unfoldable pub in_long : Bool → ℕ → ℤ × Bool
in_long false n = if ltb long_max n then (pos long_max, true) else (pos n, false)
in_long true zero = (pos 0, false)
in_long true (suc n) = if ltb long_max n then (negsuc long_max, true) else (negsuc n, false)

-- The number, whether it is out of range, and the rest of the string.
pub record Number : Type 0 where
  pub value : ℤ
  pub out_of_range : Bool
  pub rest : List ℕ

unfoldable pub read_number : Bool → List ℕ → Option Number
unfolding read_digits in_long
read_number negative [] = none
read_number negative (c ∷ cs) =
    if is_digit c
    then (let (n, rest) = read_digits 0 (c ∷ cs) in
        let (value, out) = in_long negative n in
        some (record { value = value; out_of_range = out; rest = rest }))
    else none

unfoldable pub signed : List ℕ → Option Number
unfolding read_number
signed [] = none
signed (c ∷ cs) =
    if c == b'-'
    then read_number true cs
    else if c == b'+'
    then read_number false cs
    else read_number false (c ∷ cs)

-- No number if there is no digit, where `end` is the start of the string.
unfoldable pub strtol : Text → Option Number
unfolding skip_space signed
strtol s = signed (skip_space s)

abbrev pub ushrt_max : ℕ
ushrt_max = 65535

abbrev pub is_negative : ℤ → Bool
is_negative (pos _) = false
is_negative (negsuc _) = true

abbrev pub is_empty : List ℕ → Bool
is_empty [] = true
is_empty (x ∷ xs) = false

abbrev pub above : ℤ → ℕ → Bool
above (pos n) m = ltb m n
above (negsuc _) m = false

unfoldable pub port_by : Text → Option Number → Option Text
port_by s none = none
port_by s (some n) =
    if is_empty n.rest
    then (if n.out_of_range || (is_negative n.value || above n.value ushrt_max)
        then none
        else some s)
    else none

-- The string itself, or a null pointer.
unfoldable pub port : Text → Option Text
unfolding strtol port_by
port s = port_by s (strtol s)

-- The bytes before the first colon and those behind it.
unfoldable pub split_colon : Text → Option (Text × Text)
split_colon [] = none
split_colon (c ∷ cs) =
    let rest = split_colon cs in
    if c == b':'
    then some ([], cs)
    else elim rest [ none ↦ none | some (name, pass) ↦ some (c ∷ name, pass) ]

-- What the options set: `struct socks5args`, the users, and the states of the sniffer and the log.
pub record Config : Type 0 where
  pub socks_addr : Option Text
  pub socks_port : Text
  pub mng_addr : Option Text
  pub mng_port : Text
  pub users : Users
  pub sniffer_state : Bool
  pub log_on : Bool

-- The arguments, an exit, or a store through a null pointer.
pub data Parsed : Type 0 where
  crashed : Parsed
  exit : ℕ → Parsed
  parsed : Config → Parsed

-- `user`, by whether there is memory for the block, which is not looked at before the name and the
-- password are stored in it. The result of `add_user` is not looked at either.
unfoldable pub user : Alloc → Bool → Text → Config → Parsed
unfolding split_colon add_user
user alloc memory s a = elim (split_colon s) [
  | none ↦ exit 1
  | some (name, pass) ↦
      if memory then parsed (record a { users = (add_user alloc a.users name pass).1 }) else crashed
]

unfoldable pub with_socks_port : Config → Option Text → Parsed
with_socks_port a none = exit 1
with_socks_port a (some s) = parsed (record a { socks_port = s })

unfoldable pub with_mng_port : Config → Option Text → Parsed
with_mng_port a none = exit 1
with_mng_port a (some s) = parsed (record a { mng_port = s })

-- The `switch` on an option; `usage` and `version` exit.
unfoldable pub option : Alloc → Bool → ℕ → Text → Config → Parsed
unfolding with_socks_port with_mng_port port user
option alloc memory c optarg a =
    if c == b'h'
    then exit 1
    else if c == b'l'
    then parsed (record a { socks_addr = some optarg })
    else if c == b'L'
    then parsed (record a { mng_addr = some optarg })
    else if c == b'N'
    then parsed (record a { sniffer_state = false })
    else if c == b'p'
    then with_socks_port a (port optarg)
    else if c == b'P'
    then with_mng_port a (port optarg)
    else if c == b'u'
    then user alloc memory optarg a
    else if c == b'v'
    then exit 1
    else if c == b'm'
    then parsed (record a { log_on = true })
    else if c == b'n'
    then parsed (record a { log_on = false })
    else exit 1

-- The loop over the options; `memory` is asked with how many options are behind the one that is read.
unfoldable pub options : Alloc → (ℕ → Bool) → List (ℕ × Text) → Parsed → Parsed
options alloc memory opts crashed = crashed
options alloc memory opts (exit code) = exit code
options alloc memory [] (parsed a) = parsed a
options alloc memory ((c, optarg) ∷ opts) (parsed a) =
    options alloc memory opts (option alloc (memory (length opts)) c optarg a)

-- An argument that is no option is not accepted.
unfoldable pub end_args : List Text → Parsed → Parsed
end_args rest crashed = crashed
end_args rest (exit code) = exit code
end_args [] (parsed a) = parsed a
end_args (x ∷ xs) (parsed a) = exit 1

unfoldable pub parse_args :
    Alloc → (ℕ → Bool) → List (ℕ × Text) → List Text → Users → Bool → Bool → Parsed
parse_args alloc memory opts rest users sniffer_state log_on = end_args rest (
    options alloc memory opts (
      parsed (record {
        socks_addr = none;
        socks_port = codes "1080";
        mng_addr = none;
        mng_port = codes "8080";
        users = users;
        sniffer_state = sniffer_state;
        log_on = log_on;
      })))
