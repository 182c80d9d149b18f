-- ===== src/Control/CommandParser/Message.antt =====
-- The command that src/controlProtocol/parsers/cpCommandParser.c reads off a whole message, and
-- where it stores it.
use tpe_socks.Prelude.{
  ℕ, suc, ◌+◌, ◌≤◌, ◌<◌, ◌≡◌, ◌≢◌, refl, ap, ◌∙◌, Option, some, none, List, [], ◌∷◌, ◌++◌, arith,
  length, All, store_all, set, length-set, Option-cases, Bool-cases, inl, inr,
}
use tpe_socks.Buffer.{Buffer}
use tpe_socks.Buffer.Inv.{IsValid}
use tpe_socks.Buffer.Refine.{contents}
use tpe_socks.Buffer.For.{consume, for_bytes, for_bytes-some}
use tpe_socks.Control.CommandParser.{
  CommandState, CommandParser, max_data_size, new_line, init_cp_command_parser, parse_step, is_done,
  is_error, cp_add_user, cp_dissector_off,
}

-- The array has its size, and there is room for a terminator behind the data.
pub record IsSafe (p : CommandParser) : Type 0 where
  pub size : length p.buf ≡ max_data_size + 1
  pub room : p.data_size ≤ max_data_size

pub init_cp_command_parser-IsSafe :
    (p : CommandParser) → length p.buf ≡ max_data_size + 1 → IsSafe (init_cp_command_parser p)
unfolding init_cp_command_parser
init_cp_command_parser-IsSafe p h = ground arith

parse_step_total : (p : CommandParser) (byte : ℕ) → IsSafe p → parse_step p byte ≢ none
unfolding parse_step
parse_step_total p byte s = ground arith

parse_step_kept :
    (p q : CommandParser) (byte : ℕ) → IsSafe p → parse_step p byte ≡ some q → IsSafe q
unfolding parse_step
parse_step_kept p q byte s h = ground (arith, length-set p.buf p.data_size byte)

-- No byte makes the parser store out of its array, and there stays room for the terminator.
pub parse_step-IsSafe :
    (p : CommandParser) (byte : ℕ)
    → IsSafe p
    → (p' : CommandParser) × (parse_step p byte ≡ some p') × IsSafe p'
parse_step-IsSafe p byte s = elim (Option-cases (parse_step p byte)) [
  | inl bad ↦ absurd (parse_step_total p byte s bad)
  | inr (p', good) ↦ (p', good, parse_step_kept p p' byte s good)
]

consume-IsSafe :
    (p : CommandParser) (xs : List ℕ)
    → IsSafe p
    → (r : CommandParser × List ℕ) × (consume parse_step is_done is_error p xs ≡ some r)
      × IsSafe r.0
consume-IsSafe p [] s = ((p, []), refl, s)
consume-IsSafe p (x ∷ xs) s = elim (Bool-cases (is_done p)) [
  | inl d ↦ ((p, x ∷ xs), rw d, s)
  | inr nd ↦
      let (p', good, s') = parse_step-IsSafe p x s in
      let (r, e, w) = consume-IsSafe p' xs s' in
      elim (Bool-cases (is_error p')) [
        | inl failed ↦ ((p', xs), rw (nd, good, failed), s')
        | inr on ↦ (r, rw (nd, good, on) e, w)
      ]
]

-- Whatever bytes a valid buffer holds, the command loop ends without a store out of the parser's
-- array, and leaves room there for the terminator.
pub for_bytes-IsSafe :
    (p : CommandParser) (b : Buffer)
    → IsSafe p
    → IsValid b
    → (p' : CommandParser) × (b' : Buffer) × (for_bytes parse_step is_done is_error
          (length (contents b))
          p
          b
        ≡ some (p', b'))
      × IsSafe p'
      × IsValid b'
      × (b'.limit ≡ b.limit)
for_bytes-IsSafe p b s v =
    let (r, e, s') = consume-IsSafe p (contents b) s in
    let (b', f, v', l, _) =
      for_bytes-some parse_step is_done is_error p r.0 b (contents b) r.1 v refl e in
    (r.0, b', f, s', v', l)

abbrev pub run : CommandParser → List ℕ → Option (CommandParser × List ℕ)
run = consume parse_step is_done is_error

-- In the middle of the data, with `i` bytes stored.
abbrev reading : ℕ → List ℕ → ℕ → CommandParser
reading code buf i = record {
  current_state = CommandState.read_data;
  code = code;
  has_data = 1;
  buf = buf;
  data_size = i;
}

-- A parser that has finished a command.
abbrev pub finished : ℕ → ℕ → List ℕ → ℕ → CommandParser
finished code flag buf n = record {
  current_state = CommandState.done;
  code = code;
  has_data = flag;
  buf = buf;
  data_size = n;
}

stays :
    (code flag : ℕ) (buf : List ℕ) (n : ℕ) (rest : List ℕ)
    → run (finished code flag buf n) rest ≡ some (finished code flag buf n, rest)
stays code flag buf n [] = refl
stays code flag buf n (x ∷ xs) = refl

step_byte :
    (code : ℕ) (buf : List ℕ) (i c : ℕ)
    → length buf ≡ 256
    → i < 255
    → c ≢ new_line
    → parse_step (reading code buf i) c ≡ some (reading code (set buf i c) (suc i))
unfolding parse_step
step_byte code buf i c h l n = ground arith

step_end :
    (code : ℕ) (buf : List ℕ) (i : ℕ)
    → length buf ≡ 256
    → i < 255
    → parse_step (reading code buf i) new_line ≡ some (finished code 1 (set buf i new_line) (suc i))
unfolding parse_step
step_end code buf i h l = ground arith

-- The bytes of a line, which are stored with the end of the line.
line_loop :
    (code : ℕ) (buf line rest : List ℕ) (i : ℕ)
    → length buf ≡ 256
    → i + length line < 255
    → All (λ c. c ≢ new_line) line
    → run (reading code buf i) (line ++ new_line ∷ rest)
      ≡ some
          (finished code 1 (store_all buf i (line ++ new_line ∷ [])) (suc (i + length line)), rest)
line_loop code buf [] rest i h l n =
    let e : i + 0 ≡ i = omega arith in
    rw (e, step_end code buf i h (omega arith)) (stays code 1 (set buf i new_line) (suc i) rest)
line_loop code buf (c ∷ line) rest i h l n =
    let e : i + suc (length line) ≡ suc i + length line = omega arith in
    rw (e, step_byte code buf i c h (omega arith) n.0)
      (line_loop code (set buf i c) line rest (suc i) (omega (arith, length-set buf i c))
        (omega arith) n.1)

step_code :
    (p : CommandParser) (code : ℕ) (xs : List ℕ)
    → cp_add_user ≤ code
    → code ≤ cp_dissector_off
    → run (init_cp_command_parser p) (code ∷ xs)
      ≡ run
          (record {
            current_state = CommandState.has_data;
            code = code;
            has_data = 0;
            buf = p.buf;
            data_size = 0;
          })
          xs
unfolding parse_step init_cp_command_parser
step_code p code xs lo hi = ground arith

flag_data :
    (code : ℕ) (buf xs : List ℕ)
    → run
        (record {
          current_state = CommandState.has_data;
          code = code;
          has_data = 0;
          buf = buf;
          data_size = 0;
        })
        (1 ∷ xs)
      ≡ run (reading code buf 0) xs
unfolding parse_step
flag_data code buf xs = refl

flag_no_data :
    (code : ℕ) (buf xs : List ℕ)
    → run
        (record {
          current_state = CommandState.has_data;
          code = code;
          has_data = 0;
          buf = buf;
          data_size = 0;
        })
        (0 ∷ xs)
      ≡ run (finished code 0 buf 0) xs
unfolding parse_step
flag_no_data code buf xs = refl

run_data :
    (p : CommandParser) (code : ℕ) (line rest : List ℕ)
    → length p.buf ≡ max_data_size + 1
    → cp_add_user ≤ code
    → code ≤ cp_dissector_off
    → length line < max_data_size
    → All (λ c. c ≢ new_line) line
    → run (init_cp_command_parser p) (code ∷ 1 ∷ (line ++ new_line ∷ rest))
      ≡ some (finished code 1 (store_all p.buf 0 (line ++ new_line ∷ [])) (suc (length line)), rest)
run_data p code line rest h lo hi l n =
    let z : 0 + length line ≡ length line = omega arith in
    step_code p code (1 ∷ (line ++ new_line ∷ rest)) lo hi
    ∙ (flag_data code p.buf (line ++ new_line ∷ rest)
        ∙ (line_loop code p.buf line rest 0 h (omega arith) n
            ∙ ap
                (λ (k : ℕ).
                  some (finished code 1 (store_all p.buf 0 (line ++ new_line ∷ [])) (suc k), rest))
                z))

run_no_data :
    (p : CommandParser) (code : ℕ) (rest : List ℕ)
    → cp_add_user ≤ code
    → code ≤ cp_dissector_off
    → run (init_cp_command_parser p) (code ∷ 0 ∷ rest) ≡ some (finished code 0 p.buf 0, rest)
run_no_data p code rest lo hi =
    step_code p code (0 ∷ rest) lo hi ∙ (flag_no_data code p.buf rest ∙ stays code 0 p.buf 0 rest)

-- A buffer that starts with a code from '1' to '7' and a zero byte is read up to there: the parser
-- holds that command with no data, and the bytes behind it stay in the buffer.
pub for_bytes-command_alone :
    (p : CommandParser) (code : ℕ) (rest : List ℕ) (b : Buffer)
    → cp_add_user ≤ code
    → code ≤ cp_dissector_off
    → IsValid b
    → contents b ≡ code ∷ 0 ∷ rest
    → (b' : Buffer) × (for_bytes parse_step is_done is_error
          (length (contents b))
          (init_cp_command_parser p)
          b
        ≡ some (finished code 0 p.buf 0, b'))
      × IsValid b'
      × (contents b' ≡ rest)
for_bytes-command_alone p code rest b lo hi v e =
    let (b', r, v', _, k) =
      for_bytes-some parse_step is_done is_error (init_cp_command_parser p)
        (finished code 0 p.buf 0) b (code ∷ 0 ∷ rest) rest v e (run_no_data p code rest lo hi) in
    (b', r, v', k)

-- A buffer that starts with a code from '1' to '7', the byte 1 and a line of at most 254 bytes with
-- its end is read up to there: the parser holds that command with the line and its end as the data,
-- and the bytes behind it stay in the buffer.
pub for_bytes-command :
    (p : CommandParser) (code : ℕ) (line rest : List ℕ) (b : Buffer)
    → length p.buf ≡ max_data_size + 1
    → cp_add_user ≤ code
    → code ≤ cp_dissector_off
    → length line < max_data_size
    → All (λ c. c ≢ new_line) line
    → IsValid b
    → contents b ≡ code ∷ 1 ∷ (line ++ new_line ∷ rest)
    → (b' : Buffer) × (for_bytes parse_step is_done is_error
          (length (contents b))
          (init_cp_command_parser p)
          b
        ≡ some
            (finished code 1 (store_all p.buf 0 (line ++ new_line ∷ [])) (suc (length line)), b'))
      × IsValid b'
      × (contents b' ≡ rest)
for_bytes-command p code line rest b h lo hi l n v e =
    let (b', r, v', _, k) =
      for_bytes-some parse_step is_done is_error (init_cp_command_parser p)
        (finished code 1 (store_all p.buf 0 (line ++ new_line ∷ [])) (suc (length line))) b
        (code ∷ 1 ∷ (line ++ new_line ∷ rest)) rest v e (run_data p code line rest h lo hi l n) in
    (b', r, v', k)
