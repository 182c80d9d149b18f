-- ===== src/Control/Strtok.antt =====
-- `strtok` with a one-byte delimiter, as src/controlProtocol/cpCommands.c uses it to split the data of
-- a command at a colon and at the end of the line.
use tpe_socks.Prelude.{
  ℕ, ◌≡◌, ◌≢◌, refl, Option, none, some, List, [], ◌∷◌, ◌++◌, ◌==◌, if◌then◌else◌, arith, All,
  length, ◌<◌,
}

-- The bytes behind the delimiters that the string starts with.
skip : ℕ → List ℕ → List ℕ
skip d [] = []
skip d (x ∷ xs) = let rest = skip d xs in if x == d then rest else x ∷ xs

-- The bytes before the first delimiter, and those behind it.
split : ℕ → List ℕ → List ℕ × List ℕ
split d [] = ([], [])
split d (x ∷ xs) = let (tok, rest) = split d xs in if x == d then ([], xs) else (x ∷ tok, rest)

found : List ℕ × List ℕ → Option (List ℕ × List ℕ)
found ([], rest) = none
found (x ∷ tok, rest) = some (x ∷ tok, rest)

-- The first token and what is left for the next call, or a null pointer.
unfoldable pub strtok : ℕ → List ℕ → Option (List ℕ × List ℕ)
unfolding skip split found
strtok d xs = found (split d (skip d xs))

split-token :
    (d : ℕ) (tok rest : List ℕ) → All (λ c. c ≢ d) tok → split d (tok ++ d ∷ rest) ≡ (tok, rest)
unfolding split
split-token d [] rest h = ground arith
split-token d (x ∷ tok) rest h = ground (arith, split-token d tok rest h.1, h.0)

-- A token that holds no delimiter, up to the delimiter behind it.
pub strtok-token :
    (d : ℕ) (tok rest : List ℕ)
    → 0 < length tok
    → All (λ c. c ≢ d) tok
    → strtok d (tok ++ d ∷ rest) ≡ some (tok, rest)
unfolding strtok
strtok-token d [] rest l h = absurd (omega arith)
strtok-token d (x ∷ tok) rest l h = ground (arith, split-token d (x ∷ tok) rest h, h.0)

split-last : (d : ℕ) (tok : List ℕ) → All (λ c. c ≢ d) tok → split d tok ≡ (tok, [])
unfolding split
split-last d [] h = refl
split-last d (x ∷ tok) h = ground (arith, split-last d tok h.1, h.0)

-- A token that reaches to the end of the string.
pub strtok-last :
    (d : ℕ) (tok : List ℕ) → 0 < length tok → All (λ c. c ≢ d) tok → strtok d tok ≡ some (tok, [])
unfolding strtok
strtok-last d [] l h = absurd (omega arith)
strtok-last d (x ∷ tok) l h = ground (arith, split-last d (x ∷ tok) h, h.0)
