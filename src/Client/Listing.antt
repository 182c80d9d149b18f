-- ===== src/Client/Listing.antt =====
-- src/client/commands.c: the answers with data, the list of the users and the metrics, which the client
-- splits with `strtok` in the array that it has received them into.
use tpe_socks.Prelude.{
  ℕ, zero, suc, ◌+◌, ◌-◌, Bool, true, false, Option, none, some, List, [], ◌∷◌, ◌++◌, ◌==◌, ◌||◌,
  if◌then◌else◌, ◌>>=◌, ltb, length, set, slice, get_or, drop, codes,
}
use tpe_socks.Prelude.Int.{ℤ, pos, negsuc, ◌-ℤ◌}
use tpe_socks.Client.{
  Text, failure, has_data, command_obtain_metrics, maxlen, token, Reply, failed, closed, received,
  Client, zeros, fill, send_simple, next_reply, terminated,
}

-- How many bytes at the start of a string are the delimiter; a string that does not end is a fault.
unfoldable pub delimiters : ℕ → List ℕ → Option ℕ
delimiters d [] = none
delimiters d (x ∷ xs) =
    let rest = delimiters d xs in if x == d then (rest >>= λ n. some (suc n)) else some 0

-- How many bytes are before the first delimiter or the end of the string.
unfoldable pub token_length : ℕ → List ℕ → Option ℕ
token_length d [] = none
token_length d (x ∷ xs) =
    let rest = token_length d xs in
    if (x == d) || (x == 0) then some 0 else (rest >>= λ n. some (suc n))

-- The array with the end of a token, and where the next call starts.
unfoldable pub end_token : List ℕ → ℕ → List ℕ × ℕ
end_token buf i = if get_or buf i 0 == 0 then (buf, i) else (set buf i 0, suc i)

-- The token of `n` bytes at index `i`, the array and where the next call starts.
unfoldable pub token_from : List ℕ → ℕ → ℕ → Option Text × List ℕ × ℕ
unfolding end_token
token_from buf i zero = (none, buf, i)
token_from buf i (suc n) =
    let (buf', saved) = end_token buf (i + suc n) in (some (slice buf i (suc n)), buf', saved)

-- `strtok` from index `from` on: the token, if there is one, the array and where the next call starts.
unfoldable pub strtok_in : ℕ → List ℕ → ℕ → Option (Option Text × List ℕ × ℕ)
unfolding delimiters token_length token_from
strtok_in d buf from = delimiters d (drop from buf) >>= λ k.
    token_length d (drop (from + k) buf) >>= λ n. some (token_from buf (from + k) n)

-- `printf("%s\n", text)`.
unfoldable pub print_line : Text → List Text → List Text
print_line text printed = printed ++ (text ++ 10 ∷ []) ∷ []

-- A list that is being printed: the array, where `strtok` goes on, `row_count` and what was printed.
pub record Rows : Type 0 where
  pub buf : List ℕ
  pub saved : ℕ
  pub row_count : ℤ
  pub lines : List Text

-- A token that is printed by `printf` must be there.
unfoldable pub print_row : Option Text × List ℕ × ℕ → Rows → Option Rows
unfolding print_line
print_row (none, _, _) r = none
print_row (some text, buf, saved) r = some (record r {
  buf = buf;
  saved = saved;
  row_count = r.row_count -ℤ pos 1;
  lines = print_line text r.lines;
})

abbrev pub is_positive : ℤ → Bool
is_positive (pos n) = ltb 0 n
is_positive (negsuc _) = false

-- The loop over the array from index `maxlen - k` on: a row for each end of a line.
unfoldable pub row_loop : ℕ → Rows → Option Rows
unfolding strtok_in print_row
row_loop zero r = some r
row_loop (suc k) r = elim (is_positive r.row_count) [
  | false ↦ some r
  | true ↦ elim (get_or r.buf (maxlen - suc k) 0 == token) [
    | true ↦ strtok_in token r.buf r.saved >>= λ t. print_row t r >>= λ r'. row_loop k r'
    | false ↦ row_loop k r
  ]
]

-- The first token is printed behind what an earlier answer has left of a line.
unfoldable pub first_row : Text → Option Text × List ℕ × ℕ → Rows → Option Rows
unfolding print_line
first_row offset (none, _, _) r = none
first_row offset (some text, buf, saved) r =
    if get_or r.buf 0 0 == token
    then some (record {
      buf = buf;
      saved = saved;
      row_count = r.row_count -ℤ pos 2;
      lines = print_line text (print_line offset r.lines);
    })
    else if ltb (length offset + length text) maxlen
    then some (record {
      buf = buf;
      saved = saved;
      row_count = r.row_count -ℤ pos 1;
      lines = print_line (offset ++ text) r.lines;
    })
    else none

abbrev token_text : Option Text → Text
token_text none = []
token_text (some text) = text

-- The rows of one answer, from index `start` on.
unfoldable pub rows_of : ℕ → Text → Rows → Option Rows
unfolding strtok_in first_row row_loop
rows_of start offset r = strtok_in token r.buf start >>= λ t.
    first_row offset t r >>= λ r'. row_loop (maxlen - (start + length (token_text t.0))) r'

-- What `parse_users_message` returns, the results of `recv` that are left and what was printed.
pub record Parsed : Type 0 where
  pub ret : ℕ
  pub rest : List Reply
  pub lines : List Text

-- The end of a call: the list is complete, or what is left of its last line goes on to the next call.
unfoldable pub unless_done : Rows → List Reply → (Text → Option Parsed) → Option Parsed
unfolding terminated
unless_done r replies more = elim (is_positive r.row_count) [
  | false ↦ some (record {
    ret = elim r.row_count [ pos _ ↦ b'i' | negsuc _ ↦ b'0' ];
    rest = replies;
    lines = r.lines;
  })
  | true ↦ terminated (drop r.saved r.buf) >>= more
]

-- What follows the loop of a call, with the calls for the rows that are missing.
unfoldable pub parse_more : List Reply → Rows → Option Parsed
unfolding rows_of unless_done
parse_more [] r = unless_done r [] λ _. some (record { ret = b'n'; rest = []; lines = r.lines })
parse_more (failed ∷ rest) r =
    unless_done r (failed ∷ rest) λ _. some (record { ret = b'x'; rest = rest; lines = r.lines })
parse_more (closed ∷ rest) r =
    unless_done r (closed ∷ rest) λ _. some (record { ret = b'n'; rest = rest; lines = r.lines })
parse_more (received [] ∷ rest) r =
    unless_done r (received [] ∷ rest)
      λ _. some (record { ret = b'n'; rest = rest; lines = r.lines })
parse_more (received (x ∷ xs) ∷ rest) r = unless_done r (received (x ∷ xs) ∷ rest) λ offset.
    rows_of 0 offset (record r { buf = fill (zeros maxlen) (x ∷ xs); saved = 0 }) >>= λ r'.
    parse_more rest r'

-- The first answer in its array: a failure, or the number of rows and the rows from index 2 on.
unfoldable pub parse_first : List ℕ → List Reply → List Text → Option Parsed
unfolding rows_of parse_more print_line
parse_first buf rest lines =
    if get_or buf 0 0 == failure
    then some (record {
      ret = if get_or buf 1 0 == has_data then get_or buf 2 0 else b'x';
      rest = rest;
      lines = lines;
    })
    else if get_or buf 1 0 == 1
    then some (record { ret = b'i'; rest = rest; lines = print_line (codes "No users yet") lines })
    else (rows_of 2 []
          (record { buf = buf; saved = 0; row_count = pos (get_or buf 1 0); lines = lines })
        >>= λ r. parse_more rest r)

-- `parse_users_message(fd, NULL)`, which sets the global `row_count` before it reads it.
unfoldable pub parse_users_message : List Reply → List Text → Option Parsed
unfolding parse_first
parse_users_message [] lines = some (record { ret = b'n'; rest = []; lines = lines })
parse_users_message (failed ∷ rest) lines = some (record { ret = b'x'; rest = rest; lines = lines })
parse_users_message (closed ∷ rest) lines = some (record { ret = b'n'; rest = rest; lines = lines })
parse_users_message (received [] ∷ rest) lines =
    some (record { ret = b'n'; rest = rest; lines = lines })
parse_users_message (received (x ∷ xs) ∷ rest) lines =
    parse_first (fill (zeros maxlen) (x ∷ xs)) rest lines

-- The two tokens that `parse_metrics_message` prints.
unfoldable pub print_metrics : List ℕ → Client → Option (ℕ × Client)
unfolding strtok_in print_line
print_metrics buf c = strtok_in token buf 2 >>= λ (title, buf', saved). title >>= λ title.
    strtok_in token buf' saved >>= λ (values, _, _). values >>= λ values.
    some (b'i', record c { printed = print_line values (print_line title c.printed) })

unfoldable pub metrics_by : List ℕ → Reply → Client → Option (ℕ × Client)
unfolding print_metrics
metrics_by stack failed c = some (b'x', c)
metrics_by stack closed c = some (b'n', c)
metrics_by stack (received []) c = some (b'n', c)
metrics_by stack (received (x ∷ xs)) c =
    let buf = fill stack (x ∷ xs) in
    if get_or buf 0 0 == failure
    then some (if get_or buf 1 0 == has_data then get_or buf 2 0 else b'x', c)
    else print_metrics buf c

unfoldable pub parse_metrics_message : List ℕ → Client → Option (ℕ × Client)
unfolding metrics_by
parse_metrics_message stack c =
    let (reply, rest) = next_reply c.replies in metrics_by stack reply (record c { replies = rest })

unfoldable pub list_users : ℕ → Client → Option (ℕ × Client)
unfolding send_simple parse_users_message
list_users command c =
    let c' = send_simple command c in
    parse_users_message c'.replies c'.printed >>= λ m.
    some (m.ret, record c' { replies = m.rest; printed = m.lines })

unfoldable pub obtain_metrics : List ℕ → Client → Option (ℕ × Client)
unfolding send_simple parse_metrics_message
obtain_metrics stack c = parse_metrics_message stack (send_simple command_obtain_metrics c)
