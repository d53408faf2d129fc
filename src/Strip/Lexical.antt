-- ===== src/Strip/Lexical.antt =====
-- What a stripper promises, said by the lexical structure of the text and not by the scan: code and
-- literals stay, the inside of a comment is blanked. A language fills `Implements`.
use xoxo.Base.{ℕ, false, [], ◌∷◌, ◌++◌, ◌≡◌, ◌≢◌, refl, ap, ◌∙◌, arith, Bytes, ◌==◌, if◌then◌else◌}
use xoxo.Strip.Scan.{Move, starts_with, scan, run}

pub record Grammar : Type 1 where
  pub line_open : Bytes
  pub block_open : Bytes
  pub block_close : Bytes
  -- A comment opens before these bytes.
  pub OpensLine : Bytes → Type 0
  pub OpensBlock : Bytes → Type 0
  -- The byte, with these behind it, is code of its own.
  pub Plain : ℕ → Bytes → Type 0
  -- The quote, with these bytes behind it, begins a literal that ends at the same quote.
  pub Opens : ℕ → Bytes → Type 0

abbrev pub blank : ℕ → ℕ
blank c = if c == b'\n' then b'\n' else b' '

abbrev pub blanks : Bytes → Bytes
blanks [] = []
blanks (c ∷ cs) = blank c ∷ blanks cs

abbrev pub NoNewline : Bytes → Type 0
NoNewline [] = Unit {0}
NoNewline (c ∷ cs) = (c ≢ b'\n') × NoNewline cs

-- No closing marker begins inside the body, with the marker and `rest` behind it.
abbrev pub NoClose : Bytes → Bytes → Bytes → Type 0
NoClose close [] rest = Unit {0}
NoClose close (c ∷ cs) rest =
    (starts_with close (c ∷ (cs ++ (close ++ rest))) ≡ false) × NoClose close cs rest

-- The inside of a literal: no bare quote, and each backslash takes a byte with it.
pub data Literal (quote : ℕ) : Bytes → Type 0 where
  none : Literal quote []
  char : {c : ℕ} {cs : Bytes} → c ≢ quote → c ≢ b'\\' → Literal quote cs → Literal quote (c ∷ cs)
  escaped : {c d : ℕ} {cs : Bytes} → c ≡ b'\\' → Literal quote cs → Literal quote (c ∷ d ∷ cs)

-- The text and what is left of it.
pub data Lexes (g : Grammar) : Bytes → Bytes → Type 0 where
  done : Lexes g [] []
  plain :
      {c : ℕ} {rest out : Bytes} → g.Plain c rest → Lexes g rest out → Lexes g (c ∷ rest) (c ∷ out)
  literal :
      {q : ℕ} (body : Bytes) {rest out : Bytes}
      → g.Opens q (body ++ (q ∷ rest))
      → Literal q body
      → Lexes g rest out
      → Lexes g (q ∷ (body ++ (q ∷ rest))) (q ∷ (body ++ (q ∷ out)))
  line :
      (body : Bytes) {rest out : Bytes}
      → g.OpensLine (body ++ (b'\n' ∷ rest))
      → NoNewline body
      → Lexes g rest out
      → Lexes g
          (g.line_open ++ (body ++ (b'\n' ∷ rest)))
          (g.line_open ++ (blanks body ++ (b'\n' ∷ out)))
  last_line :
      (body : Bytes)
      → g.OpensLine body
      → NoNewline body
      → Lexes g (g.line_open ++ body) (g.line_open ++ blanks body)
  block :
      (body : Bytes) {rest out : Bytes}
      → g.OpensBlock (body ++ (g.block_close ++ rest))
      → NoClose g.block_close body rest
      → Lexes g rest out
      → Lexes g
          (g.block_open ++ (body ++ (g.block_close ++ rest)))
          (g.block_open ++ (blanks body ++ (g.block_close ++ out)))

-- The turns of a scan that follows the grammar.
pub record Implements (g : Grammar) {S : Type 0} (step : S → ℕ → Bytes → Move S) : Type 0 where
  pub code : S
  pub in_line : S
  pub in_block : S
  pub in_literal : ℕ → S
  pub code_plain :
      (c : ℕ) (rest : Bytes) → g.Plain c rest → run step code (c ∷ rest) ≡ c ∷ run step code rest
  pub code_quote :
      (q : ℕ) (rest : Bytes)
      → g.Opens q rest
      → run step code (q ∷ rest) ≡ q ∷ run step (in_literal q) rest
  pub literal_char :
      (q c : ℕ) (all rest : Bytes)
      → g.Opens q all
      → c ≢ q
      → c ≢ b'\\'
      → run step (in_literal q) (c ∷ rest) ≡ c ∷ run step (in_literal q) rest
  pub literal_escape :
      (q c d : ℕ) (all rest : Bytes)
      → g.Opens q all
      → c ≡ b'\\'
      → run step (in_literal q) (c ∷ d ∷ rest) ≡ c ∷ d ∷ run step (in_literal q) rest
  pub literal_quote :
      (q : ℕ) (all rest : Bytes)
      → g.Opens q all
      → run step (in_literal q) (q ∷ rest) ≡ q ∷ run step code rest
  pub code_line :
      (rest : Bytes)
      → g.OpensLine rest
      → run step code (g.line_open ++ rest) ≡ g.line_open ++ run step in_line rest
  pub line_char :
      (c : ℕ) (rest : Bytes)
      → c ≢ b'\n'
      → run step in_line (c ∷ rest) ≡ b' ' ∷ run step in_line rest
  pub line_end : (rest : Bytes) → run step in_line (b'\n' ∷ rest) ≡ b'\n' ∷ run step code rest
  pub code_block :
      (rest : Bytes)
      → g.OpensBlock rest
      → run step code (g.block_open ++ rest) ≡ g.block_open ++ run step in_block rest
  pub block_char :
      (c : ℕ) (rest : Bytes)
      → starts_with g.block_close (c ∷ rest) ≡ false
      → run step in_block (c ∷ rest) ≡ blank c ∷ run step in_block rest
  pub block_end :
      (rest : Bytes)
      → run step in_block (g.block_close ++ rest) ≡ g.block_close ++ run step code rest

module _ {g : Grammar} {S : Type 0} {step : S → ℕ → Bytes → Move S} (i : Implements g step) where
  run-Literal :
      {q : ℕ} {body : Bytes} (all rest : Bytes)
      → g.Opens q all
      → Literal q body
      → run step (i.in_literal q) (body ++ (q ∷ rest)) ≡ body ++ (q ∷ run step i.code rest)
  run-Literal {q} all rest o none = i.literal_quote q all rest o
  run-Literal {q} all rest o (char {c} {cs} ne nb l) =
      i.literal_char q c all _ o ne nb ∙ ap (◌∷◌ c) (run-Literal all rest o l)
  run-Literal {q} all rest o (escaped {c} {d} {cs} e l) =
      i.literal_escape q c d all _ o e ∙ ap (λ t. c ∷ d ∷ t) (run-Literal all rest o l)

  run_line :
      (body rest : Bytes)
      → NoNewline body
      → run step i.in_line (body ++ (b'\n' ∷ rest)) ≡ blanks body ++ (b'\n' ∷ run step i.code rest)
  run_line [] rest h = i.line_end rest
  run_line (c ∷ cs) rest h =
      let e : blank c ≡ b' ' = ground (arith, h.0) in
      rw e (i.line_char c _ h.0 ∙ ap (◌∷◌ b' ') (run_line cs rest h.1))

  run_last_line : (body : Bytes) → NoNewline body → run step i.in_line body ≡ blanks body
  run_last_line [] h = unfold scan in refl
  run_last_line (c ∷ cs) h =
      let e : blank c ≡ b' ' = ground (arith, h.0) in
      rw e (i.line_char c _ h.0 ∙ ap (◌∷◌ b' ') (run_last_line cs h.1))

  run_block :
      (body rest : Bytes)
      → NoClose g.block_close body rest
      → run step i.in_block (body ++ (g.block_close ++ rest))
        ≡ blanks body ++ (g.block_close ++ run step i.code rest)
  run_block [] rest h = i.block_end rest
  run_block (c ∷ cs) rest h = i.block_char c _ h.0 ∙ ap (◌∷◌ (blank c)) (run_block cs rest h.1)

  -- The scan writes what the grammar says.
  pub run-Lexes : {src out : Bytes} → Lexes g src out → run step i.code src ≡ out
  run-Lexes done = unfold scan in refl
  run-Lexes (plain {c} {rest} p t) = i.code_plain c rest p ∙ ap (◌∷◌ c) (run-Lexes t)
  run-Lexes (literal {q} body {rest} o l t) =
      i.code_quote q _ o
      ∙ ap (◌∷◌ q) (run-Literal _ rest o l ∙ ap (λ x. body ++ (q ∷ x)) (run-Lexes t))
  run-Lexes (line body {rest} o h t) =
      i.code_line _ o
      ∙ ap (λ x. g.line_open ++ x)
          (run_line body rest h ∙ ap (λ x. blanks body ++ (b'\n' ∷ x)) (run-Lexes t))
  run-Lexes (last_line body o h) =
      i.code_line _ o ∙ ap (λ x. g.line_open ++ x) (run_last_line body h)
  run-Lexes (block body {rest} o h t) =
      i.code_block _ o
      ∙ ap (λ x. g.block_open ++ x)
          (run_block body rest h ∙ ap (λ x. blanks body ++ (g.block_close ++ x)) (run-Lexes t))
