-- ===== src/Sniffer/Noise.antt =====
-- The POP3 automaton of src/sniffer/pop3_sniffer.c on bytes that need not be a login.
use tpe_socks.Prelude.{
  if◌then◌else◌, ℕ, zero, suc, ◌-◌, ◌<◌, ◌≡◌, ◌≢◌, refl, true, false, Option, some, none, List, [],
  ◌∷◌, arith, length, length-set, Option-cases, Bool-cases, inl, inr, ◌==◌, get_or, ◌⊎◌,
}
use tpe_socks.Buffer.{Buffer}
use tpe_socks.Buffer.Inv.{IsValid}
use tpe_socks.Buffer.Refine.{contents, length-contents}
use tpe_socks.Buffer.For.{consume, for_bytes, for_bytes-some}
use tpe_socks.Sniffer.{
  Pop3State, Pop3Parser, argument_length, parse_step, is_done, never, to_upper, pop3_user_cmd,
  pop3_pass_cmd, pop3_parse, pop3_parser_init,
}

-- Both arrays have their size, no position is past its keyword or its array, and the password is
-- only awaited once a user name was read.
pub record IsSafe (p : Pop3Parser) : Type 0 where
  pub user_size : length p.user_name ≡ argument_length
  pub pass_size : length p.password ≡ argument_length
  pub read_in : p.read_ptr < 5
  pub write_in : p.write_ptr < argument_length
  pub user_first : p.state ≡ Pop3State.user_cmd → p.user_done ≡ false
  pub pass_later : p.state ≡ Pop3State.pass_cmd → p.user_done ≡ true

-- While a keyword is awaited, a byte that is not its next letter changes nothing at all: the letters
-- of the keyword may stand anywhere in the stream, with anything between them.
pub parse_step-noise :
    (p : Pop3Parser) (c : ℕ)
    → IsSafe p
    → ((p.state ≡ Pop3State.user_cmd) × (to_upper c ≢ get_or pop3_user_cmd p.read_ptr 0))
      ⊎ ((p.state ≡ Pop3State.pass_cmd) × (to_upper c ≢ get_or pop3_pass_cmd p.read_ptr 0))
    → parse_step p c ≡ some p
unfolding parse_step
parse_step-noise p c s h = ground arith

parse_step_total : (p : Pop3Parser) (c : ℕ) → IsSafe p → parse_step p c ≢ none
unfolding parse_step
parse_step_total p c s = ground arith

-- A keyword is at most five letters long.
keyword_end : (i : ℕ) → i < 5 → (get_or pop3_user_cmd (suc i) 0 == 0) ≡ (i == 4)
keyword_end zero h = refl
keyword_end (suc zero) h = refl
keyword_end (suc (suc zero)) h = refl
keyword_end (suc (suc (suc zero))) h = refl
keyword_end (suc (suc (suc (suc zero)))) h = refl
keyword_end (suc (suc (suc (suc (suc i))))) h = absurd (omega arith)

pass_end : (i : ℕ) → i < 5 → (get_or pop3_pass_cmd (suc i) 0 == 0) ≡ (i == 4)
pass_end zero h = refl
pass_end (suc zero) h = refl
pass_end (suc (suc zero)) h = refl
pass_end (suc (suc (suc zero))) h = refl
pass_end (suc (suc (suc (suc zero)))) h = refl
pass_end (suc (suc (suc (suc (suc i))))) h = absurd (omega arith)

parse_step_kept : (p q : Pop3Parser) (c : ℕ) → IsSafe p → parse_step p c ≡ some q → IsSafe q
unfolding parse_step
parse_step_kept p q c s h = ground (
  arith,
  keyword_end p.read_ptr,
  pass_end p.read_ptr,
  length-set p.user_name p.write_ptr 0,
  length-set p.user_name p.write_ptr c,
  length-set p.password p.write_ptr 0,
  length-set p.password p.write_ptr c,
)

-- An argument of 39 bytes or more.
abbrev pub IsStuck : Pop3Parser → Type 0
IsStuck p = (p.write_ptr ≡ 39) × (p.state ≢ Pop3State.done)

parse_step-IsStuck : (p q : Pop3Parser) (c : ℕ) → IsStuck p → parse_step p c ≡ some q → IsStuck q
unfolding parse_step
parse_step-IsStuck p q c s h = ground arith

abbrev pub run : Pop3Parser → List ℕ → Option (Pop3Parser × List ℕ)
run = consume parse_step is_done never

consume-IsSafe :
    (p : Pop3Parser) (xs : List ℕ)
    → IsSafe p
    → (r : Pop3Parser × List ℕ) × (run p xs ≡ some r) × IsSafe r.0 × (IsStuck p → IsStuck r.0)
consume-IsSafe p [] s = ((p, []), refl, s, λ k. k)
consume-IsSafe p (x ∷ xs) s = elim (Bool-cases (is_done p)) [
  | inl d ↦ ((p, x ∷ xs), rw d, s, λ k. k)
  | inr nd ↦ elim (Option-cases (parse_step p x)) [
    | inl bad ↦ absurd (parse_step_total p x s bad)
    | inr (q, good) ↦
        let (r, e, w, k) = consume-IsSafe q xs (parse_step_kept p q x s good) in
        (r, rw (nd, good) e, w, λ t. k (parse_step-IsStuck p q x t good))
  ]
]

pub init-IsSafe : (p : Pop3Parser) → IsSafe p → IsSafe (pop3_parser_init p)
unfolding pop3_parser_init
init-IsSafe p s = ground arith

not_done : (p : Pop3Parser) → p.state ≢ Pop3State.done → is_done p ≡ false
not_done p h = ground arith

-- What `pop3_parse` returns, by the run over the bytes.
pop3_parse-run :
    (p : Pop3Parser) (b : Buffer) (r : Pop3Parser × List ℕ)
    → IsValid b
    → run p (contents b) ≡ some r
    → pop3_parse p b ≡ some (r.0.state, if is_done r.0 then pop3_parser_init r.0 else r.0)
unfolding pop3_parse
pop3_parse-run p b r v e =
    let (b', f, _, _, _) =
      for_bytes-some parse_step is_done never p r.0 b (contents b) r.1 v refl e in
    let f' : for_bytes parse_step is_done never (b.write - b.read) p b ≡ some (r.0, b') =
      rw (length-contents b) at f in
    elim (Bool-cases (is_done r.0)) [ inl d ↦ ground arith | inr nd ↦ ground arith ]

-- On any bytes at all the sniffer stores inside its two arrays and reads inside its two keywords.
pub pop3_parse-IsSafe :
    (p : Pop3Parser) (b : Buffer)
    → IsSafe p
    → IsValid b
    → (s : Pop3State) × (p' : Pop3Parser) × (pop3_parse p b ≡ some (s, p')) × IsSafe p'
pop3_parse-IsSafe p b s v =
    let (r, e, w, k) = consume-IsSafe p (contents b) s in
    let f = pop3_parse-run p b r v e in
    elim (Bool-cases (is_done r.0)) [
      | inl d ↦ (r.0.state, pop3_parser_init r.0, rw d at f, init-IsSafe r.0 w)
      | inr nd ↦ (r.0.state, r.0, rw nd at f, w)
    ]

-- Once an argument has reached 39 bytes the sniffer is of no more use: whatever bytes follow, it does
-- not report credentials, and is in the same condition.
pub pop3_parse-IsStuck :
    (p : Pop3Parser) (b : Buffer)
    → IsSafe p
    → IsStuck p
    → IsValid b
    → (s : Pop3State) × (p' : Pop3Parser) × (pop3_parse p b ≡ some (s, p'))
      × (s ≢ Pop3State.done)
      × IsStuck p'
pop3_parse-IsStuck p b s t v =
    let (r, e, w, k) = consume-IsSafe p (contents b) s in
    let f = pop3_parse-run p b r v e in
    let nd = not_done r.0 (k t).1 in (r.0.state, r.0, rw nd at f, (k t).1, k t)
