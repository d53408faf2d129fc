-- ===== src/Patch/Lines.antt =====
-- `split_lines`, `detect_line_ending`, and the joining of lines.
use xoxo.Base.{ℕ, Bool, false, ◌&&◌, ◌||◌, List, [], ◌∷◌, ◌++◌, Bytes, codes, ◌==◌, if◌then◌else◌}

-- `content.replace("\r\n", "\n")`.
unfoldable pub replace_crlf : Bytes → Bytes
replace_crlf [] = []
replace_crlf (c ∷ []) = c ∷ []
replace_crlf (c ∷ d ∷ cs) =
    let pair = d ∷ replace_crlf cs in
    let single = c ∷ replace_crlf (d ∷ cs) in if c == b'\r' && d == b'\n' then pair else single

-- `.replace('\r', "\n")`.
unfoldable pub replace_cr : Bytes → Bytes
replace_cr [] = []
replace_cr (c ∷ cs) = (if c == b'\r' then b'\n' else c) ∷ replace_cr cs

-- `normalized.strip_suffix('\n').unwrap_or(&normalized)`.
unfoldable pub strip_last_newline : Bytes → Bytes
strip_last_newline [] = []
strip_last_newline (c ∷ []) = if c == b'\n' then [] else c ∷ []
strip_last_newline (c ∷ d ∷ cs) = c ∷ strip_last_newline (d ∷ cs)

abbrev pub cons_first : ℕ → List Bytes → List Bytes
cons_first c [] = (c ∷ []) ∷ []
cons_first c (l ∷ ls) = (c ∷ l) ∷ ls

-- `stripped.split('\n')`.
unfoldable pub split_newline : Bytes → List Bytes
split_newline [] = [] ∷ []
split_newline (c ∷ cs) =
    let rest = split_newline cs in if c == b'\n' then [] ∷ rest else cons_first c rest

abbrev pub split_stripped : Bytes → List Bytes
split_stripped [] = []
split_stripped (c ∷ cs) = split_newline (c ∷ cs)

unfoldable pub split_lines : Bytes → List Bytes
split_lines content = split_stripped (strip_last_newline (replace_cr (replace_crlf content)))

unfoldable pub has : ℕ → Bytes → Bool
has x [] = false
has x (c ∷ cs) = c == x || has x cs

unfoldable pub has_crlf : Bytes → Bool
has_crlf [] = false
has_crlf (c ∷ []) = false
has_crlf (c ∷ d ∷ cs) = (c == b'\r' && d == b'\n') || has_crlf (d ∷ cs)

unfoldable pub detect_line_ending : Bytes → Bytes
detect_line_ending content =
    if has_crlf content
    then codes "\r\n"
    else if has b'\n' content
    then codes "\n"
    else if has b'\r' content
    then codes "\r"
    else codes "\n"

-- `content.ends_with('\n') || content.ends_with('\r')`.
unfoldable pub has_trailing : Bytes → Bool
has_trailing [] = false
has_trailing (c ∷ []) = c == b'\n' || c == b'\r'
has_trailing (c ∷ d ∷ cs) = has_trailing (d ∷ cs)

-- `output.join(ending)`.
unfoldable pub join : Bytes → List Bytes → Bytes
join ending [] = []
join ending (l ∷ []) = l
join ending (l ∷ m ∷ ls) = l ++ (ending ++ join ending (m ∷ ls))
