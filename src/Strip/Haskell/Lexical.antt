-- ===== src/Strip/Haskell/Lexical.antt =====
-- The stripper of Haskell against the grammar of its comments and literals.
use xoxo.Base.{ℕ, ◌≡◌, ◌≢◌, ◌⊎◌, false, arith, Bytes, [], ◌∷◌, codes, ◌==◌, if◌then◌else◌}
use xoxo.Strip.Scan.{starts_with, scan, run}
use xoxo.Strip.Lexical.{Grammar, Implements, Lexes, run-Lexes}
use xoxo.Strip.Haskell.{
  State, code, single_quote, double_quote, line_comment, block_comment, step, strip_haskell_noise,
}

abbrev pub haskell : Grammar
haskell = record {
  line_open = codes "--";
  block_open = codes "{-";
  block_close = codes "-}";
  OpensLine = λ rest. Unit {0};
  OpensBlock = λ rest. Unit {0};
  Plain = λ c rest.
      (c ≢ b'\'')
      × (c ≢ b'"')
      × (starts_with (codes "--") (c ∷ rest) ≡ false)
      × (starts_with (codes "{-") (c ∷ rest) ≡ false);
  Opens = λ q rest. (q ≡ b'\'') ⊎ (q ≡ b'"');
}

abbrev in_literal : ℕ → State
in_literal q = if q == b'"' then double_quote else single_quote

literal_char :
    (q c : ℕ) (all rest : Bytes)
    → haskell.Opens q all
    → c ≢ q
    → c ≢ b'\\'
    → run step (in_literal q) (c ∷ rest) ≡ c ∷ run step (in_literal q) rest
unfolding scan step
literal_char q c all [] o ne nb = ground arith
literal_char q c all (d ∷ rest) o ne nb = ground arith

literal_quote :
    (q : ℕ) (all rest : Bytes)
    → haskell.Opens q all
    → run step (in_literal q) (q ∷ rest) ≡ q ∷ run step code rest
unfolding scan step
literal_quote q all [] o = ground arith
literal_quote q all (d ∷ rest) o = ground arith

-- Each turn of the scan is one of the grammar.
Implements-step : Implements haskell step
unfolding scan step
Implements-step = record {
  code = code;
  in_line = line_comment;
  in_block = block_comment;
  in_literal = in_literal;
  code_plain = λ c rest h. ground arith;
  code_quote = λ q rest o. ground arith;
  literal_char = literal_char;
  literal_escape = λ q c d all rest o e. ground arith;
  literal_quote = literal_quote;
  code_line = λ rest o. ground arith;
  line_char = λ c rest h. ground arith;
  line_end = λ rest. ground arith;
  code_block = λ rest o. ground arith;
  block_char = λ c rest h. ground arith;
  block_end = λ rest. ground arith;
}

-- The stripper writes what the grammar says of the text.
pub strip_haskell_noise-Lexes :
    {content out : Bytes} → Lexes haskell content out → strip_haskell_noise content ≡ out
unfolding strip_haskell_noise Implements-step
strip_haskell_noise-Lexes = run-Lexes Implements-step
