-- ===== src/Args/Accepted.antt =====
-- What src/args.c accepts.
use tpe_socks.Prelude.{
  ℕ, ◌+◌, ◌-◌, ◌*◌, ◌≤◌, ◌<◌, ◌≡◌, refl, subst, Bool, true, false, Option, none, some, List, [],
  ◌∷◌, arith, length, All, Bool-cases, leb, if◌then◌else◌, Option-cases, inl, inr, codes, ◌==◌,
}
use tpe_socks.Users.{Text, Users, Alloc}
use tpe_socks.Users.Inv.{IsValid, add_user_lem}
use tpe_socks.Args.{
  Config, Parsed, crashed, exit, parsed, port, port_by, strtol, read_digits, in_long, Number,
  split_colon, user, with_socks_port, with_mng_port, option, options, end_args, parse_args,
  ushrt_max,
}

-- A text that is a decimal number.
abbrev pub IsDecimal : Text → Type 0
IsDecimal s = All (λ c. (b'0' ≤ c) × (c ≤ b'9')) s

-- Its value.
abbrev pub decimal : ℕ → Text → ℕ
decimal acc [] = acc
decimal acc (c ∷ cs) = decimal (acc * 10 + (c - b'0')) cs

read_digits_lem : (acc : ℕ) (s : Text) → IsDecimal s → read_digits acc s ≡ (decimal acc s, [])
unfolding read_digits
read_digits_lem acc [] h = refl
read_digits_lem acc (c ∷ cs) ((lo, hi), hs) =
    ground (arith, read_digits_lem (acc * 10 + (c - b'0')) cs hs)

strtol_lem :
    (c : ℕ) (cs : Text)
    → IsDecimal (c ∷ cs)
    → let (value, out) = in_long false (decimal 0 (c ∷ cs)) in
      strtol (c ∷ cs) ≡ some (record { value = value; out_of_range = out; rest = [] })
unfolding strtol
strtol_lem c cs ((lo, hi), hs) = ground (arith, read_digits_lem 0 (c ∷ cs) ((lo, hi), hs))

-- A text of digits is accepted as a port, as it is, exactly if its value is at most 65535, however many
-- digits it has.
pub port_lem :
    (c : ℕ) (cs : Text)
    → IsDecimal (c ∷ cs)
    → port (c ∷ cs) ≡ (if leb (decimal 0 (c ∷ cs)) ushrt_max then some (c ∷ cs) else none)
unfolding port
port_lem c cs d = rw (strtol_lem c cs d) (in_range (decimal 0 (c ∷ cs)))
  where
    in_range :
        (n : ℕ)
        → port_by (c ∷ cs) (
            some (record {
              value = (in_long false n).0;
              out_of_range = (in_long false n).1;
              rest = [];
            }))
          ≡ (if leb n ushrt_max then some (c ∷ cs) else none)
    in_range n = ground arith

port_by-same : (s t : Text) (n : Option Number) → port_by s n ≡ some t → s ≡ t
unfolding port_by
port_by-same s t n e = ground (arith)

same : (s t : Text) → port s ≡ some t → s ≡ t
unfolding port
same s t e = port_by-same s t (strtol s) e

port-same : (s t : Text) → port s ≡ some t → port t ≡ some t
port-same s t e = subst (λ (x : Text). port x ≡ some t) (same s t e) e

-- What the rest of the program relies on of the arguments: the users' table is valid, and both ports
-- are texts that are accepted as such.
pub record IsAccepted (a : Config) : Type 0 where
  pub users_valid : IsValid a.users
  pub socks : port a.socks_port ≡ some a.socks_port
  pub mng : port a.mng_port ≡ some a.mng_port

-- There was no memory for one of `n` blocks.
abbrev pub Missing : (ℕ → Bool) → ℕ → Type 0
Missing memory n = (i : ℕ) × (i < n) × (memory i ≡ false)

-- An exit, or arguments that are accepted; a crash only where memory was missing.
abbrev pub Accepts : (ℕ → Bool) → ℕ → Parsed → Type 0
Accepts memory n crashed = Missing memory n
Accepts memory n (exit code) = 0 < code
Accepts memory n (parsed a) = IsAccepted a

-- What arguments behind the options do.
abbrev pub Refuses : (ℕ → Bool) → ℕ → Parsed → Type 0
Refuses memory n crashed = Missing memory n
Refuses memory n (exit code) = 0 < code
Refuses memory n (parsed a) = ⊥

with_socks_port-Accepts :
    (memory : ℕ → Bool) (n : ℕ) (a : Config) (s : Text) (o : Option Text)
    → port s ≡ o
    → IsAccepted a
    → Accepts memory n (with_socks_port a o)
unfolding with_socks_port
with_socks_port-Accepts memory n a s none e k = omega arith
with_socks_port-Accepts memory n a s (some t) e k = record {
  users_valid = k.users_valid;
  socks = port-same s t e;
  mng = k.mng;
}

with_mng_port-Accepts :
    (memory : ℕ → Bool) (n : ℕ) (a : Config) (s : Text) (o : Option Text)
    → port s ≡ o
    → IsAccepted a
    → Accepts memory n (with_mng_port a o)
unfolding with_mng_port
with_mng_port-Accepts memory n a s none e k = omega arith
with_mng_port-Accepts memory n a s (some t) e k = record {
  users_valid = k.users_valid;
  socks = k.socks;
  mng = port-same s t e;
}

user-Accepts :
    (alloc : Alloc) (memory : ℕ → Bool) (n i : ℕ) (s : Text) (a : Config)
    → i < n
    → IsAccepted a
    → Accepts memory n (user alloc (memory i) s a)
unfolding user
user-Accepts alloc memory n i s a b k = elim (Option-cases (split_colon s)) [
  | inl e ↦ rw (user, e) (omega arith)
  | inr ((name, pass), e) ↦
      let adds = add_user_lem alloc a.users name pass k.users_valid in
      elim (Bool-cases (memory i)) [
        | inl m ↦
            rw (user, e, m) (record { users_valid = adds.valid; socks = k.socks; mng = k.mng })
        | inr m ↦ rw (user, e, m) (i, b, m)
      ]
]

if-Accepts :
    (memory : ℕ → Bool) (n : ℕ) (b : Bool) (p q : Parsed)
    → Accepts memory n p
    → Accepts memory n q
    → Accepts memory n (if b then p else q)
if-Accepts memory n true p q x y = x
if-Accepts memory n false p q x y = y

kept :
    (a b : Config)
    → a.users ≡ b.users
    → a.socks_port ≡ b.socks_port
    → a.mng_port ≡ b.mng_port
    → IsAccepted a
    → IsAccepted b
kept a b e f g k = record {
  users_valid = subst IsValid e k.users_valid;
  socks = subst (λ (t : Text). port t ≡ some t) f k.socks;
  mng = subst (λ (t : Text). port t ≡ some t) g k.mng;
}

option-Accepts :
    (alloc : Alloc) (memory : ℕ → Bool) (n i c : ℕ) (optarg : Text) (a : Config)
    → i < n
    → IsAccepted a
    → Accepts memory n (option alloc (memory i) c optarg a)
unfolding option
option-Accepts alloc memory n i c optarg a b k = if-Accepts memory n (c == b'h') _ _ (omega arith) (
    if-Accepts memory n (c == b'l') _ _ (kept a _ refl refl refl k) (
      if-Accepts memory n (c == b'L') _ _ (kept a _ refl refl refl k) (
        if-Accepts memory n (c == b'N') _ _ (kept a _ refl refl refl k) (
          if-Accepts memory n (c == b'p') _ _
            (with_socks_port-Accepts memory n a optarg (port optarg) refl k)
            (if-Accepts memory n (c == b'P') _ _
              (with_mng_port-Accepts memory n a optarg (port optarg) refl k)
              (if-Accepts memory n (c == b'u') _ _ (user-Accepts alloc memory n i optarg a b k) (
                if-Accepts memory n (c == b'v') _ _ (omega arith) (
                  if-Accepts memory n (c == b'm') _ _ (kept a _ refl refl refl k) (
                    if-Accepts memory n (c == b'n') _ _ (kept a _ refl refl refl k)
                      (omega arith))))))))))

options-Accepts :
    (alloc : Alloc) (memory : ℕ → Bool) (n : ℕ) (opts : List (ℕ × Text)) (p : Parsed)
    → length opts ≤ n
    → Accepts memory n p
    → Accepts memory n (options alloc memory opts p)
unfolding options
options-Accepts alloc memory n [] crashed b k = k
options-Accepts alloc memory n (o ∷ opts) crashed b k = k
options-Accepts alloc memory n [] (exit code) b k = k
options-Accepts alloc memory n (o ∷ opts) (exit code) b k = k
options-Accepts alloc memory n [] (parsed a) b k = k
options-Accepts alloc memory n ((c, optarg) ∷ opts) (parsed a) b k =
    options-Accepts alloc memory n opts (option alloc (memory (length opts)) c optarg a)
      (omega arith) (option-Accepts alloc memory n (length opts) c optarg a (omega arith) k)

end_args-Accepts :
    (memory : ℕ → Bool) (n : ℕ) (rest : List Text) (p : Parsed)
    → Accepts memory n p
    → Accepts memory n (end_args rest p)
unfolding end_args
end_args-Accepts memory n [] crashed k = k
end_args-Accepts memory n (x ∷ xs) crashed k = k
end_args-Accepts memory n [] (exit code) k = k
end_args-Accepts memory n (x ∷ xs) (exit code) k = k
end_args-Accepts memory n [] (parsed a) k = k
end_args-Accepts memory n (x ∷ xs) (parsed a) k = omega arith

end_args-Refuses :
    (memory : ℕ → Bool) (n : ℕ) (rest : List Text) (p : Parsed)
    → 0 < length rest
    → Accepts memory n p
    → Refuses memory n (end_args rest p)
unfolding end_args
end_args-Refuses memory n [] p h k = absurd (omega arith)
end_args-Refuses memory n (x ∷ xs) crashed h k = k
end_args-Refuses memory n (x ∷ xs) (exit code) h k = k
end_args-Refuses memory n (x ∷ xs) (parsed a) h k = omega arith

socks_default : port (codes "1080") ≡ some (codes "1080")
socks_default = port_lem b'1' (codes "080") (ground arith)

mng_default : port (codes "8080") ≡ some (codes "8080")
mng_default = port_lem b'8' (codes "080") (ground arith)

-- Whatever the arguments are, the program exits with a code that is not 0, or goes on with a valid
-- table of users and two ports that are numbers in range, or crashes because there was no memory for a
-- user among the options; it goes on only if there is no argument behind the options.
pub parse_args-Accepts :
    (alloc : Alloc) (memory : ℕ → Bool) (opts : List (ℕ × Text)) (rest : List Text) (users : Users)
    (sniffer log : Bool)
    → IsValid users
    → Accepts memory (length opts) (parse_args alloc memory opts rest users sniffer log)
      × (0 < length rest
          → Refuses memory (length opts) (parse_args alloc memory opts rest users sniffer log))
unfolding parse_args
parse_args-Accepts alloc memory opts rest users sniffer log v =
    let start : Config = record {
      socks_addr = none;
      socks_port = codes "1080";
      mng_addr = none;
      mng_port = codes "8080";
      users = users;
      sniffer_state = sniffer;
      log_on = log;
    } in
    let k : Accepts memory (length opts) (options alloc memory opts (parsed start)) =
      options-Accepts alloc memory (length opts) opts (parsed start) (omega arith)
        (record { users_valid = v; socks = socks_default; mng = mng_default }) in
    (
      end_args-Accepts memory (length opts) rest (options alloc memory opts (parsed start)) k,
      λ h.
          end_args-Refuses memory (length opts) rest (options alloc memory opts (parsed start)) h k,
    )
