-- ===== src/Client/Rows.antt =====
-- The loop of src/client/commands.c over the rows of the list of the users.
use tpe_socks.Prelude.{
  ℕ, zero, suc, ◌+◌, ◌-◌, ◌≤◌, ◌≡◌, ◌≢◌, refl, sym, ap, ap₂, ◌∙◌, subst, true, false, Option, some,
  List, [], ◌∷◌, ◌++◌, append_assoc, append-nil, arith, length, length-append, All, get_or, ◌==◌,
}
use tpe_socks.Prelude.Int.{pos, ◌-ℤ◌}
use tpe_socks.Client.{Text, maxlen, token}
use tpe_socks.Client.Listing.{strtok_in, Rows, print_row, row_loop, is_positive}
use tpe_socks.Client.Tokens.{IsRow, row_bytes, row_lines, get_or-append, strtok_in_lem}

pub one_less : (n : ℕ) → pos (suc n) -ℤ pos 1 ≡ pos n
unfolding ◌-ℤ◌
one_less n = ground arith

positive : (n : ℕ) → is_positive (pos (suc n)) ≡ true
positive n = ground arith

-- A round of the loop on a byte that is no end of a line, and on one that is.
pub other_byte :
    (k : ℕ) (r : Rows) (n x : ℕ)
    → r.row_count ≡ pos (suc n)
    → get_or r.buf (maxlen - suc k) 0 ≡ x
    → x ≢ token
    → row_loop (suc k) r ≡ row_loop k r
unfolding row_loop
other_byte k r n x c e h =
    let off : (get_or r.buf (maxlen - suc k) 0 == token) ≡ false =
      ap (λ (v : ℕ). v == token) e ∙ ground (arith, h) in
    let on : is_positive r.row_count ≡ true = ap is_positive c ∙ positive n in
    rw (row_loop, on, off) refl

line_end :
    (k : ℕ) (r r' : Rows) (n : ℕ) (t : Option Text × List ℕ × ℕ)
    → r.row_count ≡ pos (suc n)
    → get_or r.buf (maxlen - suc k) 0 ≡ token
    → strtok_in token r.buf r.saved ≡ some t
    → print_row t r ≡ some r'
    → row_loop (suc k) r ≡ row_loop k r'
unfolding row_loop
line_end k r r' n t c e s p =
    let found : (get_or r.buf (maxlen - suc k) 0 == token) ≡ true = ap (λ (v : ℕ). v == token) e in
    let on : is_positive r.row_count ≡ true = ap is_positive c ∙ positive n in
    rw (row_loop, on, found, s, p) refl

-- The loop passes over bytes that are no end of a line.
row_loop-skips :
    (m : ℕ) (pre todo post : List ℕ) (saved n : ℕ) (lines : List Text)
    → length pre + (length todo + m) ≡ maxlen
    → All (λ c. c ≢ token) todo
    → let r : Rows = record {
      buf = pre ++ (todo ++ post);
      saved = saved;
      row_count = pos (suc n);
      lines = lines;
    } in
      row_loop (length todo + m) r ≡ row_loop m r
row_loop-skips m pre [] post saved n lines h a = let z : 0 + m ≡ m = omega arith in rw z refl
row_loop-skips m pre (x ∷ todo) post saved n lines h (a, rest) =
    let fuel : suc (length todo) + m ≡ suc (length todo + m) = omega arith in
    let at : maxlen - suc (length todo + m) ≡ length pre = omega arith in
    let shape : pre ++ ((x ∷ todo) ++ post) ≡ (pre ++ x ∷ []) ++ (todo ++ post) =
      sym (append_assoc pre (x ∷ []) (todo ++ post)) in
    let here : get_or (pre ++ ((x ∷ todo) ++ post)) (maxlen - suc (length todo + m)) 0 ≡ x =
      ap (λ (i : ℕ). get_or (pre ++ ((x ∷ todo) ++ post)) i 0) at
      ∙ get_or-append pre x (todo ++ post) in
    let behind : length (pre ++ x ∷ []) + (length todo + m) ≡ maxlen =
      omega (arith, length-append pre (x ∷ [])) in
    ap
      (λ (k : ℕ). row_loop k (record {
        buf = pre ++ ((x ∷ todo) ++ post);
        saved = saved;
        row_count = pos (suc n);
        lines = lines;
      }))
      fuel
    ∙ (other_byte (length todo + m) _ n x refl here a
        ∙ subst
            (λ (b : List ℕ).
              row_loop (length todo + m)
                (record { buf = b; saved = saved; row_count = pos (suc n); lines = lines })
              ≡ row_loop m
                  (record { buf = b; saved = saved; row_count = pos (suc n); lines = lines }))
            (sym shape) (row_loop-skips m (pre ++ x ∷ []) todo post saved n lines behind rest))

row_loop-done : (m : ℕ) (r : Rows) → r.row_count ≡ pos 0 → row_loop m r ≡ some r
unfolding row_loop
row_loop-done zero r e = refl
row_loop-done (suc m) r e =
    let off : is_positive r.row_count ≡ false = ap is_positive e in rw (row_loop, off) refl

abbrev pub rows_at : List ℕ → ℕ → ℕ → List Text → Rows
rows_at buf saved n lines = record { buf = buf; saved = saved; row_count = pos n; lines = lines }

print_row_lem :
    (x : Text) (old new : List ℕ) (saved next n : ℕ) (lines : List Text)
    → print_row (some x, new, next) (rows_at old saved (suc n) lines)
      ≡ some (rows_at new next n (lines ++ (x ++ 10 ∷ []) ∷ []))
unfolding print_row
print_row_lem x old new saved next n lines = rw (one_less n) refl

-- A whole row, up to the byte behind the end of its line.
row_loop-row :
    (k : ℕ) (pre x tail : List ℕ) (n : ℕ) (lines : List Text)
    → IsRow x
    → length pre + (length x + suc k) ≡ maxlen
    → row_loop (length x + suc k) (rows_at (pre ++ (x ++ token ∷ tail)) (length pre) (suc n) lines)
      ≡ row_loop k (
          rows_at
            (((pre ++ x) ++ 0 ∷ []) ++ tail)
            (length ((pre ++ x) ++ 0 ∷ []))
            n
            (lines ++ (x ++ 10 ∷ []) ∷ []))
row_loop-row k pre x tail n lines w h =
    let buf : List ℕ = pre ++ (x ++ token ∷ tail) in
    let at : maxlen - suc k ≡ length (pre ++ x) = omega (arith, length-append pre x) in
    let here : get_or buf (maxlen - suc k) 0 ≡ token =
      ap (λ (i : ℕ). get_or buf i 0) at
      ∙ (ap (λ (b : List ℕ). get_or b (length (pre ++ x)) 0)
            (sym (append_assoc pre x (token ∷ tail)))
          ∙ get_or-append (pre ++ x) token tail) in
    let new : List ℕ = pre ++ (x ++ 0 ∷ tail) in
    let shape : new ≡ ((pre ++ x) ++ 0 ∷ []) ++ tail =
      sym (append_assoc (pre ++ x) (0 ∷ []) tail ∙ append_assoc pre x (0 ∷ tail)) in
    let next : length pre + length x + 1 ≡ length ((pre ++ x) ++ 0 ∷ []) =
      omega (arith, length-append (pre ++ x) (0 ∷ []), length-append pre x) in
    row_loop-skips (suc k) pre x (token ∷ tail) (length pre) n lines h w.no_end
    ∙ (line_end k (rows_at buf (length pre) (suc n) lines)
          (rows_at new (length pre + length x + 1) n (lines ++ (x ++ 10 ∷ []) ∷ [])) n
          (some x, new, length pre + length x + 1) refl here (strtok_in_lem pre x tail w)
          (print_row_lem x buf new (length pre) (length pre + length x + 1) n lines)
        ∙ ap₂ (λ b i. row_loop k (rows_at b i n (lines ++ (x ++ 10 ∷ []) ∷ []))) shape next)

-- The rows that are left, from the start of one of them.
pub row_loop_lem :
    (us : List Text) (m : ℕ) (pre post : List ℕ) (lines : List Text)
    → All IsRow us
    → length pre + m ≡ maxlen
    → length (row_bytes us) ≤ m
    → (r : Rows) × (row_loop m (record {
      buf = pre ++ (row_bytes us ++ post);
      saved = length pre;
      row_count = pos (length us);
      lines = lines;
    })
        ≡ some r)
      × (r.row_count ≡ pos 0)
      × (r.lines ≡ lines ++ row_lines us)
row_loop_lem [] m pre post lines a h f = (_, row_loop-done m _ refl, refl, sym (append-nil lines))
row_loop_lem (x ∷ xs) m pre post lines (w, ws) h f =
    let n : ℕ = length xs in
    let tail : List ℕ = row_bytes xs ++ post in
    let k : ℕ = m - suc (length x) in
    let pre' : List ℕ = (pre ++ x) ++ 0 ∷ [] in
    let size : length (row_bytes (x ∷ xs)) ≡ length x + suc (length (row_bytes xs)) =
      length-append x (token ∷ row_bytes xs) in
    let fuel : m ≡ length x + suc k = omega (arith, size) in
    let moved : length pre' ≡ length pre + length x + 1 =
      omega (arith, length-append (pre ++ x) (0 ∷ []), length-append pre x) in
    let (r, e, c, l) =
      row_loop_lem xs k pre' post (lines ++ (x ++ 10 ∷ []) ∷ []) ws (omega (arith, moved, fuel))
        (omega (arith, fuel, size)) in
    (
      r,
      ap₂ (λ i b. row_loop i (rows_at b (length pre) (suc n) lines)) fuel
            (ap (λ t. pre ++ t) (append_assoc x (token ∷ row_bytes xs) post))
          ∙ (row_loop-row k pre x tail n lines w (omega (arith, fuel)) ∙ e),
      c,
      l ∙ append_assoc lines ((x ++ 10 ∷ []) ∷ []) (row_lines xs),
    )
