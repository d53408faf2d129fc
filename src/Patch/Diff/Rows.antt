-- ===== src/Patch/Diff/Rows.antt =====
-- The rows of a preview: the right side is what `apply_updates` writes, the left side the original.
use xoxo.Base.{
  ℕ, ◌+◌, List, [], ◌∷◌, ◌++◌, append_assoc, append-nil, Option, none, some, ◌≡◌, refl, arith,
  Bytes, length, length-append, if◌then◌else◌,
}
use xoxo.Patch.{PlannedUpdates}
use xoxo.Patch.Plan.{contains, get}
use xoxo.Patch.Apply.{or_else, output, output_from}
use xoxo.Patch.Diff.{
  PatchFileDiffRow, Diff, no_rows, added_row, removed_row, modified_row, context_row, push_inserted,
  push_original, push_originals, diff_rows,
}

abbrev numbered_line : Option ℕ → Bytes → List (ℕ × Bytes)
numbered_line none line = []
numbered_line (some n) line = (n, line) ∷ []

-- The lines that the rows show on the right, with their numbers.
abbrev pub right_side : List PatchFileDiffRow → List (ℕ × Bytes)
right_side [] = []
right_side (row ∷ rows) = numbered_line row.right_line_number row.right_content ++ right_side rows

abbrev pub left_side : List PatchFileDiffRow → List (ℕ × Bytes)
left_side [] = []
left_side (row ∷ rows) = numbered_line row.left_line_number row.left_content ++ left_side rows

-- The lines with their numbers, from `n` on.
abbrev pub numbered : ℕ → List Bytes → List (ℕ × Bytes)
numbered n [] = []
numbered n (line ∷ lines) = (n, line) ∷ numbered (n + 1) lines

right_side-append :
    (xs ys : List PatchFileDiffRow) → right_side (xs ++ ys) ≡ right_side xs ++ right_side ys
right_side-append [] ys = refl
right_side-append (x ∷ xs) ys = ground (
  arith,
  right_side-append xs ys,
  append_assoc (numbered_line x.right_line_number x.right_content) (right_side xs) (right_side ys),
)

left_side-append :
    (xs ys : List PatchFileDiffRow) → left_side (xs ++ ys) ≡ left_side xs ++ left_side ys
left_side-append [] ys = refl
left_side-append (x ∷ xs) ys = ground (
  arith,
  left_side-append xs ys,
  append_assoc (numbered_line x.left_line_number x.left_content) (left_side xs) (left_side ys),
)

-- From `d` to `d'` these lines were added on the left and on the right.
record Adds (d d' : Diff) (lefts : List (ℕ × Bytes)) (rights : List Bytes) : Type 0 where
  on_right : right_side d'.all_rows ≡ right_side d.all_rows ++ numbered d.next_right rights
  on_left : left_side d'.all_rows ≡ left_side d.all_rows ++ lefts
  counted : d'.next_right ≡ d.next_right + length rights
  balanced :
      length lefts + d.stats.removed_lines + d'.stats.added_lines
      ≡ length rights + d'.stats.removed_lines + d.stats.added_lines

Adds-refl : (d : Diff) → Adds d d [] []
Adds-refl d = record {
  on_right = ground (arith, append-nil (right_side d.all_rows));
  on_left = ground (arith, append-nil (left_side d.all_rows));
  counted = omega arith;
  balanced = omega arith;
}

numbered-append :
    (n : ℕ) (xs ys : List Bytes)
    → numbered n (xs ++ ys) ≡ numbered n xs ++ numbered (n + length xs) ys
numbered-append n [] ys = ground arith
numbered-append n (x ∷ xs) ys = ground (arith, numbered-append (n + 1) xs ys)

Adds-trans :
    {c d e : Diff} {ls ms : List (ℕ × Bytes)} {rs qs : List Bytes}
    → Adds c d ls rs
    → Adds d e ms qs
    → Adds c e (ls ++ ms) (rs ++ qs)
Adds-trans {c} {d} {e} {ls} {ms} {rs} {qs} x y = record {
  on_right = ground (
    arith,
    x.on_right,
    y.on_right,
    x.counted,
    numbered-append c.next_right rs qs,
    append_assoc (right_side c.all_rows) (numbered c.next_right rs)
        (numbered (c.next_right + length rs) qs),
  );
  on_left = ground (arith, x.on_left, y.on_left, append_assoc (left_side c.all_rows) ls ms);
  counted = ground (arith, x.counted, y.counted, length-append rs qs);
  balanced = ground (arith, x.balanced, y.balanced, length-append rs qs, length-append ls ms);
}

push_row-Adds :
    (d : Diff) (l : Bytes)
    → Adds d
        (record {
          all_rows = d.all_rows ++ added_row d.next_right l ∷ [];
          next_right = d.next_right + 1;
          stats = record d.stats { added_lines = d.stats.added_lines + 1 };
        })
        []
        (l ∷ [])
push_row-Adds d l = record {
  on_right = right_side-append d.all_rows (added_row d.next_right l ∷ []);
  on_left = left_side-append d.all_rows (added_row d.next_right l ∷ []);
  counted = omega arith;
  balanced = omega arith;
}

push_inserted-Adds : (lines : List Bytes) (d : Diff) → Adds d (push_inserted d lines) [] lines
unfolding push_inserted
push_inserted-Adds [] d = Adds-refl d
push_inserted-Adds (l ∷ ls) d =
    Adds-trans {rs = l ∷ []} (push_row-Adds d l) (push_inserted-Adds ls _)

-- The lines of `apply_updates` at an original line, but for those inserted behind it.
abbrev line_of : PlannedUpdates → ℕ → Bytes → List Bytes
line_of p n line = if contains n p.removed then [] else or_else (get n p.replacements) line ∷ []

push_original-Adds :
    (p : PlannedUpdates) (n : ℕ) (line : Bytes) (d : Diff)
    → Adds d (push_original p n line d) ((n, line) ∷ []) (line_of p n line)
unfolding push_original
push_original-Adds p n line d = record {
  on_right = ground (
    arith,
    append-nil (right_side d.all_rows),
    right_side-append d.all_rows (removed_row n line ∷ []),
    right_side-append d.all_rows (context_row n d.next_right line ∷ []),
    right_side-append d.all_rows
        (modified_row n d.next_right line (or_else (get n p.replacements) line) ∷ []),
  );
  on_left = ground (
    arith,
    left_side-append d.all_rows (removed_row n line ∷ []),
    left_side-append d.all_rows (context_row n d.next_right line ∷ []),
    left_side-append d.all_rows
        (modified_row n d.next_right line (or_else (get n p.replacements) line) ∷ []),
  );
  counted = ground arith;
  balanced = ground arith;
}

push_originals-Adds :
    (p : PlannedUpdates) (n : ℕ) (lines : List Bytes) (d : Diff)
    → Adds d (push_originals p n lines d) (numbered n lines) (output_from p n lines)
unfolding push_originals output_from
push_originals-Adds p n [] d = Adds-refl d
push_originals-Adds p n (l ∷ ls) d = Adds-trans (push_original-Adds p n l d) (
    Adds-trans (push_inserted-Adds (or_else (get n p.inserts) []) _)
      (push_originals-Adds p (n + 1) ls _))

diff_rows-Adds :
    (p : PlannedUpdates) (original : List Bytes)
    → Adds no_rows (diff_rows p original) (numbered 1 original) (output p original)
unfolding diff_rows
diff_rows-Adds p original =
    Adds-trans (push_inserted-Adds (or_else (get 0 p.inserts) []) no_rows)
      (push_originals-Adds p 1 original _)

length-numbered : (n : ℕ) (lines : List Bytes) → length (numbered n lines) ≡ length lines
length-numbered n [] = refl
length-numbered n (l ∷ ls) = omega (arith, length-numbered (n + 1) ls)

-- The rows made of the whole file, of which a preview selects those near a change, have on the right
-- the lines that the patched file has, numbered as there, and on the left the original lines with
-- their numbers; original and added lines together are as many as patched and removed lines.
pub diff_rows-sides :
    (p : PlannedUpdates) (original : List Bytes)
    → let d = diff_rows p original in
      (right_side d.all_rows ≡ numbered 1 (output p original))
      × (left_side d.all_rows ≡ numbered 1 original)
      × (length original + d.stats.added_lines ≡ length (output p original) + d.stats.removed_lines)
diff_rows-sides p original =
    let a = diff_rows-Adds p original in
    (a.on_right, a.on_left, omega (arith, a.balanced, length-numbered 1 original))
