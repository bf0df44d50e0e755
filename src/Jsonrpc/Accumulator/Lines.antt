-- ===== src/Jsonrpc/Accumulator/Lines.antt =====
-- What an accumulator computes, against a description by lines: it hands out the first line of
-- the bytes that it holds and keeps what follows the last newline.
use mcptp.Base.{
  ℕ, zero, suc, ◌≤◌, ◌<◌, ◌≡◌, refl, sym, subst, ◌∙◌, inl, inr, Bool, true, false, ◌||◌, Option,
  none, some, [], ◌∷◌, ◌++◌, arith, Bytes, length, take, drop, ◌==◌, if◌then◌else◌, Bool-cases,
  Option-cases, le_refl, add-one,
}
use mcptp.Jsonrpc.Buffer.{index_byte, read}
use mcptp.Jsonrpc.Accumulator.{
  Accumulated, incomplete, complete, drain_lines, take_line, read_complete_line,
}

abbrev pub has_newline : Bytes → Bool
has_newline [] = false
has_newline (c ∷ cs) = c == b'\n' || has_newline cs

-- The first line, with its newline.
abbrev pub first_line : Bytes → Option Bytes
first_line [] = none
first_line (c ∷ cs) =
    if c == b'\n'
    then some (c ∷ [])
    else elim (first_line cs) [ none ↦ none | some l ↦ some (c ∷ l) ]

-- What follows the last newline.
abbrev pub last_part : Bytes → Bytes
last_part [] = []
last_part (c ∷ cs) = if has_newline (c ∷ cs) then last_part cs else c ∷ cs

abbrev pub line_of : Option Bytes → Accumulated Bytes
line_of none = incomplete
line_of (some l) = complete l

-- What a byte index says of the text around it.
record Cut (s : Bytes) (i : ℕ) : Type 0 where
  newline : has_newline s ≡ true
  line : first_line s ≡ some (take (suc i) s)
  size : length (take (suc i) s) ≡ suc i
  keeps : last_part s ≡ last_part (drop (suc i) s)
  shrinks : length (drop (suc i) s) < length s

Cut-cons : (c : ℕ) (cs : Bytes) (i : ℕ) → (c == b'\n') ≡ false → Cut cs i → Cut (c ∷ cs) (suc i)
Cut-cons c cs i h k = record {
  newline = ground (arith, k.newline);
  line = rw (h, k.line);
  size = omega (arith, k.size);
  keeps = rw (h, k.newline) k.keeps;
  shrinks = omega (arith, k.shrinks);
}

Cut-here : (c : ℕ) (cs : Bytes) → (c == b'\n') ≡ true → Cut (c ∷ cs) 0
Cut-here c cs h = record {
  newline = rw h refl;
  line = rw h refl;
  size = refl;
  keeps = rw h refl;
  shrinks = omega arith;
}

index_byte-Cut : (s : Bytes) (i : ℕ) → index_byte s b'\n' ≡ some i → Cut s i
unfolding index_byte
index_byte-Cut [] i e = cc
index_byte-Cut (c ∷ cs) i e = elim (Bool-cases (c == b'\n')) [
  | inl h ↦ subst (Cut (c ∷ cs)) (ground arith) (Cut-here c cs h)
  | inr h ↦ elim (Option-cases (index_byte cs b'\n')) [
    | inl n ↦ absurd (ground arith)
    | inr (j, f) ↦ subst (Cut (c ∷ cs)) (ground arith) (Cut-cons c cs j h (index_byte-Cut cs j f))
  ]
]

index_byte-none :
    (s : Bytes)
    → index_byte s b'\n' ≡ none
    → (has_newline s ≡ false) × (first_line s ≡ none) × (last_part s ≡ s)
unfolding index_byte
index_byte-none [] e = (refl, refl, refl)
index_byte-none (c ∷ cs) e = elim (Option-cases (index_byte cs b'\n')) [
  | inl n ↦ ground (arith, index_byte-none cs n)
  | inr (j, f) ↦ ground arith
]

pub has_newline-last_part : (s : Bytes) → has_newline (last_part s) ≡ false
has_newline-last_part [] = refl
has_newline-last_part (c ∷ cs) = ground (arith, has_newline-last_part cs)

drain_lines-last_part : (fuel : ℕ) (s : Bytes) → length s ≤ fuel → drain_lines fuel s ≡ last_part s
unfolding drain_lines
drain_lines-last_part zero [] h = refl
drain_lines-last_part zero (c ∷ cs) h = absurd (omega arith)
drain_lines-last_part (suc fuel) s h = elim (Option-cases (index_byte s b'\n')) [
  | inl n ↦ rw (n, drain_lines) (sym (index_byte-none s n).2)
  | inr (i, f) ↦
      let k = index_byte-Cut s i f in
      rw (f, drain_lines, add-one)
        (drain_lines-last_part fuel (drop (suc i) s) (omega (arith, k.shrinks)) ∙ sym k.keeps)
]

read-Cut : (s : Bytes) (i : ℕ) → Cut s i → read s (suc i) ≡ some (take (suc i) s, drop (suc i) s)
read-Cut [] i k = cc
read-Cut (c ∷ cs) i k = refl

take_line-Cut :
    (s : Bytes) (i : ℕ)
    → Cut s i
    → take_line i (read s (suc i)) s ≡ (complete (take (suc i) s), last_part s)
unfolding take_line
take_line-Cut s i k =
    let drained = drain_lines-last_part _ (drop (suc i) s) (le_refl _) ∙ sym k.keeps in
    rw (read-Cut s i k) (ground (arith, k.size, drained))

-- Neither error of `readCompleteLine` occurs, its drain loop ends, and it splits what it holds.
pub read_complete_line-lines :
    (accumulator chunk : Bytes)
    → read_complete_line accumulator chunk
      ≡ (line_of (first_line (accumulator ++ chunk)), last_part (accumulator ++ chunk))
unfolding read_complete_line
read_complete_line-lines accumulator chunk =
    let s = accumulator ++ chunk in
    elim (Option-cases (index_byte s b'\n')) [
      | inl n ↦ rw (n, read_complete_line, (index_byte-none s n).1, (index_byte-none s n).2) refl
      | inr (i, f) ↦
          let k = index_byte-Cut s i f in
          rw (f, read_complete_line, k.line, add-one) (take_line-Cut s i k)
    ]
