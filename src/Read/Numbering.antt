-- ===== src/Read/Numbering.antt =====
-- That stripped lines have the numbers of the original ones.
use xoxo.Base.{
  ℕ, zero, suc, ◌+◌, ◌-◌, ◌≤◌, Bool, true, false, ltb, List, [], ◌∷◌, ◌++◌, map, Option, none, some,
  ◌≡◌, refl, ap, inl, inr, Bool-cases, ◌<◌, sym, ◌∙◌, arith, Bytes, String, codes, ok, length,
  length-append, length-drop, take, drop, ◌==◌, if◌then◌else◌,
}
use xoxo.Strip.Scan.{SameShape, Blanked}
use xoxo.Strip.Shape.{IsAscii, KeepsAscii}
use xoxo.Strip.Lines.{Segment, segments_from, split_inclusive}
use xoxo.Strip.Dispatch.{Std, detect_language, strip_noise}
use xoxo.Strip.Languages.{keeps_file, strip_noise-SameShape}
use xoxo.Patch.Lines.{join}
use xoxo.Read.{
  Files, line_of_segment, text_lines, min, selected_lines, parse_range, read_range, read_content,
  read_file_impl,
}

length-map : (ss : List Segment) → length (map line_of_segment ss) ≡ length ss
length-map [] = refl
length-map (s ∷ ss) = omega (arith, length-map ss)

length-take : (n : ℕ) (xs : List Bytes) → n ≤ length xs → length (take n xs) ≡ n
length-take zero xs h = refl
length-take (suc n) [] h = absurd (omega (arith, h))
length-take (suc n) (x ∷ xs) h = omega (arith, length-take n xs (omega (arith, h)))

Blanked-newline : {b c : ℕ} → Blanked b c → (c == b'\n') ≡ (b == b'\n')
Blanked-newline h = ground (arith, h)

-- Texts of one shape have as many lines, behind as much of a line.
length-segments_from :
    (bs cs l m : Bytes)
    → length l ≡ length m
    → SameShape bs cs
    → length (segments_from l bs) ≡ length (segments_from m cs)
unfolding segments_from
length-segments_from [] [] [] [] e h = refl
length-segments_from [] [] (_ ∷ _) (_ ∷ _) e h = refl
length-segments_from [] [] [] (_ ∷ _) e h = absurd (omega (arith, e))
length-segments_from [] [] (_ ∷ _) [] e h = absurd (omega (arith, e))
length-segments_from [] (c ∷ cs) l m e h = absurd h
length-segments_from (b ∷ bs) [] l m e h = absurd h
length-segments_from (b ∷ bs) (c ∷ cs) l m e h = ground (
  arith,
  Blanked-newline h.0,
  length-segments_from bs cs [] [] refl h.1,
  length-segments_from bs cs (l ++ b ∷ []) (m ++ c ∷ [])
      (omega (arith, e, length-append l (b ∷ []), length-append m (c ∷ []))) h.1,
)

length-text_lines :
    (bs cs : Bytes) → SameShape bs cs → length (text_lines bs) ≡ length (text_lines cs)
unfolding text_lines split_inclusive
length-text_lines bs cs h = ground (
  arith,
  length-map (segments_from [] bs),
  length-map (segments_from [] cs),
  length-segments_from bs cs [] [] refl h,
)

-- What is numbered has as many lines as the file.
length-processed :
    (std : Std) (extension : Option String) (with_noise : Bool) (content : Bytes)
    → KeepsAscii std.decode
    → IsAscii content
    → keeps_file (detect_language extension) ≡ true
    → length (
        text_lines
          (if with_noise then std.decode content else strip_noise std true extension content))
      ≡ length (text_lines content)
length-processed std extension true content k a h =
    ap (λ text. length (text_lines text)) (k content a)
length-processed std extension false content k a h = sym (
    length-text_lines content (strip_noise std true extension content)
      (strip_noise-SameShape std extension content k a h))

length-selected_lines :
    (start end total : ℕ) (content : Bytes)
    → 1 ≤ start
    → start ≤ end
    → start ≤ total
    → length (text_lines content) ≡ total
    → length (selected_lines start end total content) ≡ min end total + 1 - start
length-selected_lines start end total content a b c e =
    length-take (min end total - start + 1) (drop (start - 1) (text_lines content))
      (ground (arith, a, b, c, e, length-drop (start - 1) (text_lines content)))
    ∙ ground (arith, a, b, c)

-- The line with that number; the first has the number 1.
abbrev pub line_numbered : ℕ → List Bytes → Option Bytes
line_numbered n [] = none
line_numbered n (line ∷ lines) = if n == 1 then some line else line_numbered (n - 1) lines

line_numbered-take :
    (n k : ℕ) (xs : List Bytes) → 1 ≤ n → n ≤ k → line_numbered n (take k xs) ≡ line_numbered n xs
line_numbered-take n zero xs h g = absurd (omega (arith, h, g))
line_numbered-take n (suc k) [] h g = refl
line_numbered-take n (suc k) (x ∷ xs) h g = elim (Bool-cases (n == 1)) [
  | inl e ↦ rw e refl
  | inr e ↦ rw e (line_numbered-take (n - 1) k xs (ground (arith, h, e)) (omega (arith, g)))
]

same_number : (m n : ℕ) (xs : List Bytes) → m ≡ n → line_numbered m xs ≡ line_numbered n xs
same_number m n xs e = ap (λ k. line_numbered k xs) e

line_numbered-drop :
    (n k : ℕ) (xs : List Bytes) → 1 ≤ n → line_numbered n (drop k xs) ≡ line_numbered (k + n) xs
line_numbered-drop n zero xs h = same_number n (0 + n) xs (omega arith)
line_numbered-drop n (suc k) [] h = refl
line_numbered-drop n (suc k) (x ∷ xs) h =
    line_numbered-drop n k xs h
    ∙ same_number (k + n) (suc k + n - 1) xs (omega arith)
    ∙ sym (rw (not_one) refl)
  where
    not_one : (suc k + n == 1) ≡ false
    not_one = ground (arith, h)

line_numbered-none : (n : ℕ) (xs : List Bytes) → length xs < n → line_numbered n xs ≡ none
line_numbered-none n [] h = refl
line_numbered-none n (x ∷ xs) h = rw (not_one) (line_numbered-none (n - 1) xs (omega (arith, h)))
  where
    not_one : (n == 1) ≡ false
    not_one = ground (arith, h)

-- The lines of a range, by their numbers.
line_numbered-selected_lines :
    (start end total : ℕ) (content : Bytes) (i : ℕ)
    → 1 ≤ start
    → start ≤ end
    → start ≤ total
    → length (text_lines content) ≡ total
    → i < length (selected_lines start end total content)
    → line_numbered (i + 1) (selected_lines start end total content)
      ≡ line_numbered (start + i) (text_lines content)
line_numbered-selected_lines start end total content i a b c e l =
    line_numbered-take (i + 1) (min end total - start + 1) (drop (start - 1) (text_lines content))
      (omega arith)
      (ground (arith, a, b, c, l, length-selected_lines start end total content a b c e))
    ∙ line_numbered-drop (i + 1) (start - 1) (text_lines content) (omega arith)
    ∙ same_number (start - 1 + (i + 1)) (start + i) (text_lines content) (omega (arith, a))

-- The same for any place, also behind the last line.
line_numbered-in_range :
    (start end total : ℕ) (content : Bytes) (i : ℕ)
    → 1 ≤ start
    → start ≤ end
    → start ≤ total
    → length (text_lines content) ≡ total
    → line_numbered (i + 1) (selected_lines start end total content) ≡ (
        if ltb i (length (selected_lines start end total content))
        then line_numbered (start + i) (text_lines content)
        else none)
line_numbered-in_range start end total content i a b c e =
    elim (Bool-cases (ltb i (length (selected_lines start end total content)))) [
      | inl y ↦
          rw y (line_numbered-selected_lines start end total content i a b c e (ground (arith, y)))
      | inr n ↦
          rw n (
            line_numbered-none (i + 1) (selected_lines start end total content) (ground (arith, n)))
    ]

-- Of an ASCII text, a range that begins in the file gives lines of the text as it is or stripped, joined: as
-- many as from the first number to the second or to the last line of the file, and the first of them is the one
-- with the first number in that text, the next the one with the next number, and so on, if the extension names no
-- language or one other than JavaScript and its kin, Fortran and VB.NET. Decoding is to leave ASCII texts as
-- they are.
pub read_file_impl-selected_lines :
    (files : Files) (std : Std) (file_path : String) (range_str : Bytes) (with_noise : Bool)
    (content : Bytes) (start end : ℕ)
    → files.exists file_path ≡ true
    → files.read_to_string file_path ≡ ok content
    → KeepsAscii std.decode
    → IsAscii content
    → keeps_file (detect_language (files.extension file_path)) ≡ true
    → parse_range files range_str ≡ some (start, end)
    → 1 ≤ start
    → start ≤ end
    → start ≤ length (text_lines content)
    → let total = length (text_lines content) in
      let processed =
        if with_noise
        then std.decode content
        else strip_noise std true (files.extension file_path) content in
      (lines : List Bytes) × (read_file_impl files std true file_path (some range_str) with_noise
        ≡ ok (join (codes "\n") lines, total))
      × (length lines ≡ min end total + 1 - start)
      × ((i : ℕ)
          → line_numbered (i + 1) lines ≡ (
              if ltb i (length lines)
              then line_numbered (start + i) (text_lines processed)
              else none))
unfolding read_file_impl read_content read_range
read_file_impl-selected_lines files std path range with_noise content start end x r d ascii k p a b
      c =
    (
      selected_lines start end (length (text_lines content)) processed,
      rw (x, r) (range_ok processed),
      length-selected_lines start end (length (text_lines content)) processed a b c same,
      λ i. line_numbered-in_range start end (length (text_lines content)) processed i a b c same,
    )
  where
    processed : Bytes
    processed =
        if with_noise
        then std.decode content
        else strip_noise std true (files.extension path) content

    same : length (text_lines processed) ≡ length (text_lines content)
    same = length-processed std (files.extension path) with_noise content d ascii k

    range_ok :
        (text : Bytes)
        → read_range files range (length (text_lines content)) text
          ≡ ok (
            join (codes "\n") (selected_lines start end (length (text_lines content)) text),
            length (text_lines content),
          )
    range_ok text = unfold read_range in rw (p, read_range) (ground (arith, a, b, c))
