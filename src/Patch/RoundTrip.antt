-- ===== src/Patch/RoundTrip.antt =====
-- Splitting a text into lines and joining them again.
use xoxo.Base.{
  ℕ, Bool, true, false, List, [], ◌∷◌, ◌++◌, ◌≡◌, ◌≢◌, refl, sym, ◌∙◌, arith, Bytes, codes, ◌==◌,
  if◌then◌else◌,
}
use xoxo.Patch.Lines.{
  replace_crlf, replace_cr, strip_last_newline, cons_first, split_newline, split_stripped,
  split_lines, has, has_crlf, detect_line_ending, has_trailing, join,
}
use xoxo.Patch.Apply.{finish}

replace_crlf-no_cr : (bs : Bytes) → has b'\r' bs ≡ false → replace_crlf bs ≡ bs
unfolding replace_crlf has
replace_crlf-no_cr [] h = refl
replace_crlf-no_cr (c ∷ []) h = refl
replace_crlf-no_cr (c ∷ d ∷ cs) h = ground (arith, replace_crlf-no_cr (d ∷ cs))

replace_cr-no_cr : (bs : Bytes) → has b'\r' bs ≡ false → replace_cr bs ≡ bs
unfolding replace_cr has
replace_cr-no_cr [] h = refl
replace_cr-no_cr (c ∷ cs) h = ground (arith, replace_cr-no_cr cs)

has_crlf-no_cr : (bs : Bytes) → has b'\r' bs ≡ false → has_crlf bs ≡ false
unfolding has_crlf has
has_crlf-no_cr [] h = refl
has_crlf-no_cr (c ∷ []) h = refl
has_crlf-no_cr (c ∷ d ∷ cs) h = ground (arith, has_crlf-no_cr (d ∷ cs))

detect_line_ending-no_cr : (bs : Bytes) → has b'\r' bs ≡ false → detect_line_ending bs ≡ codes "\n"
unfolding detect_line_ending
detect_line_ending-no_cr bs h = ground (arith, has_crlf-no_cr bs)

strip_last_newline-append :
    (bs : Bytes)
    → has b'\r' bs ≡ false
    → strip_last_newline bs ++ (if has_trailing bs then codes "\n" else []) ≡ bs
unfolding strip_last_newline has_trailing has
strip_last_newline-append [] h = refl
strip_last_newline-append (c ∷ []) h = ground arith
strip_last_newline-append (c ∷ d ∷ cs) h = ground (arith, strip_last_newline-append (d ∷ cs))

split_newline-cons : (bs : Bytes) → split_newline bs ≢ []
unfolding split_newline
split_newline-cons [] e = cc
split_newline-cons (c ∷ cs) e = ground arith

join-cons_first :
    (c : ℕ) (ls : List Bytes)
    → ls ≢ []
    → join (codes "\n") (cons_first c ls) ≡ c ∷ join (codes "\n") ls
unfolding join
join-cons_first c [] h = absurd (h refl)
join-cons_first c (l ∷ []) h = refl
join-cons_first c (l ∷ m ∷ ls) h = refl

join-nil : (ls : List Bytes) → ls ≢ [] → join (codes "\n") ([] ∷ ls) ≡ b'\n' ∷ join (codes "\n") ls
unfolding join
join-nil [] h = absurd (h refl)
join-nil (l ∷ ls) h = refl

split_newline_lem :
    (c : ℕ) (cs : Bytes)
    → split_newline (c ∷ cs)
      ≡ (if c == b'\n' then [] ∷ split_newline cs else cons_first c (split_newline cs))
unfolding split_newline
split_newline_lem c cs = refl

join-split_newline : (bs : Bytes) → join (codes "\n") (split_newline bs) ≡ bs
join-split_newline [] = unfold join split_newline in refl
join-split_newline (c ∷ cs) = go (join-split_newline cs)
  where
    go :
        join (codes "\n") (split_newline cs) ≡ cs
        → join (codes "\n") (split_newline (c ∷ cs)) ≡ c ∷ cs
    go ih = ground (
      arith,
      split_newline_lem c cs,
      ih,
      join-nil (split_newline cs) (split_newline-cons cs),
      join-cons_first c (split_newline cs) (split_newline-cons cs),
    )

finish-lines :
    (b : Bool) (ls : List Bytes)
    → ls ≢ []
    → finish b (codes "\n") ls ≡ join (codes "\n") ls ++ (if b then codes "\n" else [])
finish-lines b [] h = absurd (h refl)
finish-lines b (l ∷ ls) h = refl

split_lines-no_cr :
    (bs : Bytes) → has b'\r' bs ≡ false → split_lines bs ≡ split_stripped (strip_last_newline bs)
unfolding split_lines
split_lines-no_cr bs h = rw (replace_crlf-no_cr bs h, replace_cr-no_cr bs h)

join-split_stripped :
    (s : Bytes) → s ≢ [] → (join (codes "\n") (split_stripped s) ≡ s) × (split_stripped s ≢ [])
join-split_stripped [] h = absurd (h refl)
join-split_stripped (c ∷ cs) h = (join-split_newline (c ∷ cs), split_newline-cons (c ∷ cs))

finish-stripped :
    (s content : Bytes) (b : Bool)
    → s ++ (if b then codes "\n" else []) ≡ content
    → content ≢ codes "\n"
    → finish b (codes "\n") (split_stripped s) ≡ content
finish-stripped [] content true e ne = absurd (ne (sym e))
finish-stripped [] content false e ne = unfold join in e
finish-stripped (c ∷ cs) content b e ne =
    let (joined, some_line) = join-split_stripped (c ∷ cs) (λ x. cc) in
    finish-lines b (split_stripped (c ∷ cs)) some_line ∙ rw joined e

-- Of a text with plain line ends that is more than one line end, the lines joined are the text.
pub finish-split_lines :
    (content : Bytes)
    → has b'\r' content ≡ false
    → content ≢ codes "\n"
    → finish (has_trailing content) (detect_line_ending content) (split_lines content) ≡ content
finish-split_lines content h ne =
    rw (detect_line_ending-no_cr content h, split_lines-no_cr content h)
      (finish-stripped (strip_last_newline content) content (has_trailing content)
        (strip_last_newline-append content h) ne)
