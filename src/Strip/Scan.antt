-- ===== src/Strip/Scan.antt =====
-- The loop that each stripper of crates/agents/nerd/src/coding/noise_stripper runs over the
-- bytes of a file, and the helpers that the files repeat. `out` is a list of characters: a byte
-- pushed `as char` is the character of that number.
use xoxo.Base.{
  ℕ, zero, suc, ◌-◌, ◌≤◌, Bool, true, false, ◌&&◌, ◌||◌, [], ◌∷◌, ◌++◌, ◌≡◌, ◌≢◌, ◌⊎◌, Bytes,
  length, take, drop, ◌==◌, if◌then◌else◌,
}

-- One turn of the loop: the characters pushed on `out`, how far `i` moves, the next state.
pub record Move (S : Type 0) : Type 0 where
  pub out : Bytes
  pub used : ℕ
  pub next : S

abbrev pub move : {S : Type 0} → Bytes → ℕ → S → Move S
move out used next = record { out = out; used = used; next = next }

-- `starts_with(bytes, i, needle)`, on `bytes[i..]`.
unfoldable pub starts_with : Bytes → Bytes → Bool
starts_with [] bs = true
starts_with (n ∷ ns) [] = false
starts_with (n ∷ ns) (b ∷ bs) = (b == n) && starts_with ns bs

-- `text.contains(needle)`.
unfoldable pub contains : Bytes → Bytes → Bool
unfolding starts_with
contains needle [] = starts_with needle []
contains needle (b ∷ bs) = starts_with needle (b ∷ bs) || contains needle bs

-- `matches!(byte, …)` over the bytes listed.
unfoldable pub one_of : Bytes → ℕ → Bool
one_of [] b = false
one_of (c ∷ cs) b = b == c || one_of cs b

-- The bytes up to the first line end, or all of them.
unfoldable pub before_newline : Bytes → Bytes
before_newline [] = []
before_newline (b ∷ bs) = if b == b'\n' then [] else b ∷ before_newline bs

-- `bytes.get(i) == Some(&b)`, on `bytes[i..]`.
abbrev pub next_is : ℕ → Bytes → Bool
next_is b [] = false
next_is b (c ∷ cs) = c == b

-- `push_with_escape`, at `bytes[*index] = c`; `state` is the state it is called in.
module _ {S : Type 0} where
  unfoldable pub push_with_escape : S → S → ℕ → ℕ → Bytes → Move S
  push_with_escape next_state state terminator c [] =
      if c == b'\\'
      then move (c ∷ []) 1 state
      else move (c ∷ []) 1 (if c == terminator then next_state else state)
  push_with_escape next_state state terminator c (d ∷ _) =
      if c == b'\\'
      then move (c ∷ d ∷ []) 2 state
      else move (c ∷ []) 1 (if c == terminator then next_state else state)

  -- The body of the `LineComment` state.
  abbrev pub blank_line : S → S → ℕ → Move S
  blank_line next_state state c =
      if c == b'\n' then move (b'\n' ∷ []) 1 next_state else move (b' ' ∷ []) 1 state

  -- One character of a block comment.
  abbrev pub blank_char : S → ℕ → Move S
  blank_char state c = move ((if c == b'\n' then b'\n' else b' ') ∷ []) 1 state

-- `while i < bytes.len()`: `step s c cs` is the body of the loop at `bytes[i..] = c ∷ cs`. A turn
-- that moves `i` by `suc k` passes over the next `k` bytes.
module _ {S : Type 0} (step : S → ℕ → Bytes → Move S) where
  unfoldable pub scan : S → ℕ → Bytes → Bytes
  scan s k [] = []
  scan s (suc k) (c ∷ cs) = scan s k cs
  scan s zero (c ∷ cs) =
      let m = step s c cs in let rest = scan m.next (m.used - 1) cs in m.out ++ rest

  abbrev pub run : S → Bytes → Bytes
  run s = scan s 0

-- From state `s` before the bytes `content` the loop comes to another state before `rest`.
pub data Reaches {S : Type 0} (step : S → ℕ → Bytes → Move S) (s : S) (content : Bytes)
    : S → Bytes → Type 0 where
  here : Reaches step s content s content
  turn :
      {t : S} {c : ℕ} {cs : Bytes}
      → Reaches step s content t (c ∷ cs)
      → Reaches step s content (step t c cs).next (drop (step t c cs).used (c ∷ cs))

-- The character stands for the byte: it is the byte, or a blank for a byte that ends no line.
abbrev pub Blanked : ℕ → ℕ → Type 0
Blanked b c = (c ≡ b) ⊎ ((c ≡ b' ') × (b ≢ b'\n'))

-- The same text shape: as long, each line end and each kept byte in its place.
abbrev pub SameShape : Bytes → Bytes → Type 0
SameShape [] [] = Unit {0}
SameShape (b ∷ bs) (c ∷ cs) = Blanked b c × SameShape bs cs
SameShape [] (_ ∷ _) = ⊥
SameShape (_ ∷ _) [] = ⊥

-- A turn that takes at least one byte, no more than there are, and writes their shape.
abbrev pub Covers : {S : Type 0} → Bytes → Move S → Type 0
Covers bs m = (1 ≤ m.used) × (m.used ≤ length bs) × SameShape (take m.used bs) m.out
