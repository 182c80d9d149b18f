-- ===== src/Client/Printed.antt =====
-- The list of the users that src/controlProtocol/cpCommands.c sends, as src/client/commands.c prints it.
use tpe_socks.Prelude.{
  ℕ, suc, ◌-◌, ◌≤◌, ◌<◌, ◌≡◌, refl, ap, ◌∙◌, false, Option, some, List, [], ◌∷◌, ◌++◌, append_assoc,
  arith, length, All, ◌==◌, codes,
}
use tpe_socks.Prelude.Int.{ℤ, pos, ◌-ℤ◌}
use tpe_socks.Client.{Text, token, Reply, received, failed, closed}
use tpe_socks.Client.Listing.{
  Rows, first_row, rows_of, row_loop, Parsed, unless_done, parse_more, parse_first,
}
use tpe_socks.Client.Tokens.{IsRow, row_bytes, row_lines}
use tpe_socks.Client.Rows.{one_less, other_byte, row_loop_lem, rows_at}

abbrev pub title : Text
title = codes "Socks users: "

title-IsRow : IsRow title
title-IsRow = record { some_byte = omega arith; is_text = ground arith; no_end = ground arith }

unless_done-done :
    (r : Rows) (replies : List Reply) (more : Text → Option Parsed)
    → r.row_count ≡ pos 0
    → unless_done r replies more ≡ some (record { ret = b'i'; rest = replies; lines = r.lines })
unfolding unless_done
unless_done-done r replies more e = rw e refl

parse_more-done :
    (replies : List Reply) (r : Rows)
    → r.row_count ≡ pos 0
    → parse_more replies r ≡ some (record { ret = b'i'; rest = replies; lines = r.lines })
unfolding parse_more
parse_more-done [] r e = unless_done-done r _ _ e
parse_more-done (failed ∷ rest) r e = unless_done-done r _ _ e
parse_more-done (closed ∷ rest) r e = unless_done-done r _ _ e
parse_more-done (received [] ∷ rest) r e = unless_done-done r _ _ e
parse_more-done (received (x ∷ xs) ∷ rest) r e = unless_done-done r _ _ e

-- The rows behind the title.
rows_of_lem :
    (m : ℕ) (us : List Text) (post : List ℕ) (lines : List Text)
    → All IsRow us
    → length (row_bytes us) ≤ 1008
    → m ≡ suc (length us)
    → 0 < length us
    → (r : Rows) × (rows_of 2 []
          (rows_at (b'1' ∷ m ∷ (title ++ token ∷ (row_bytes us ++ post))) 0 m lines)
        ≡ some r)
      × (r.row_count ≡ pos 0)
      × (r.lines ≡ lines ++ (title ++ 10 ∷ []) ∷ row_lines us)
unfolding rows_of first_row
rows_of_lem m us post lines ws f e h =
    let buf : List ℕ = (b'1' ∷ m ∷ (title ++ 0 ∷ [])) ++ (row_bytes us ++ post) in
    let begun : List Text = lines ++ (title ++ 10 ∷ []) ∷ [] in
    let count : pos m -ℤ pos 1 ≡ pos (length us) =
      ap (λ (k : ℕ). pos k -ℤ pos 1) e ∙ one_less (length us) in
    let some_left : length us ≡ suc (length us - 1) = omega arith in
    let (r, rest, c, l) =
      row_loop_lem us 1008 (b'1' ∷ m ∷ (title ++ 0 ∷ [])) post begun ws (omega arith) f in
    (
      r,
      ap (λ (z : ℤ). row_loop 1009 (record { buf = buf; saved = 16; row_count = z; lines = begun }))
            count
          ∙ (other_byte 1008 (rows_at buf 16 (length us) begun) (length us - 1) 0
                (ap (λ (k : ℕ). pos k) some_left) refl (omega arith)
              ∙ rest),
      c,
      l ∙ append_assoc lines ((title ++ 10 ∷ []) ∷ []) (row_lines us),
    )

-- The server's answer, in the array.
pub parse_first_lem :
    (m : ℕ) (us : List Text) (post : List ℕ) (replies : List Reply) (lines : List Text)
    → All IsRow us
    → length (row_bytes us) ≤ 1008
    → m ≡ suc (length us)
    → 0 < length us
    → parse_first (b'1' ∷ m ∷ (title ++ token ∷ (row_bytes us ++ post))) replies lines
      ≡ some (record {
        ret = b'i';
        rest = replies;
        lines = lines ++ (title ++ 10 ∷ []) ∷ row_lines us;
      })
unfolding parse_first
parse_first_lem m us post replies lines ws f e h =
    let (r, o, c, l) = rows_of_lem m us post lines ws f e h in
    let many : (m == 1) ≡ false = ground (arith, e, h) in
    rw (many, o, parse_more-done replies r c, l) refl
