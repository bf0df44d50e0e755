-- ===== src/Server/Stderr/Lines.antt =====
-- The lines that reach the client, against the stream that the process writes to its stderr.
use mcptp.Base.{
  ℕ, ◌+◌, ◌≤◌, ◌≡◌, refl, sym, ap, ◌∙◌, inl, inr, Bool, true, false, none, some, List, [], ◌∷◌,
  ◌++◌, append_assoc, append-nil, arith, Bytes, length, length-append, length-take, take, ◌==◌,
  if◌then◌else◌, codes, ltb, Bool-cases,
}
use mcptp.Server.Stderr.{
  Turn, ReadEnd, eof, other, Sender, finished, trim_newline, log_line, max_log_line, emit,
  check_error, step, resume, start, forward,
}

-- The lines of a stream without their newlines; the empty ones are left out.
-- `pending` is the line so far.
abbrev close_line : Bytes → List Bytes → List Bytes
close_line [] rest = rest
close_line (c ∷ cs) rest = (c ∷ cs) ∷ rest

abbrev pub lines_from : Bytes → Bytes → List Bytes
lines_from pending [] = close_line pending []
lines_from pending (c ∷ cs) =
    if c == b'\n' then close_line pending (lines_from [] cs) else lines_from (pending ++ c ∷ []) cs

-- What `ReadString('\n')` gives, call after call, on a stream that ends: each line with its newline,
-- and last what follows the last newline, with the error. `sent` tells of each call, by its number,
-- whether the message after it gets through.
abbrev pub turns_from : ReadEnd → Bool → (ℕ → Bool) → ℕ → Bytes → Bytes → List Turn
turns_from e cancelled sent n pending [] =
    record { line = pending; read_error = some e; sent = sent n; cancelled = cancelled } ∷ []
turns_from e cancelled sent n pending (c ∷ cs) =
    if c == b'\n'
    then record {
      line = pending ++ c ∷ [];
      read_error = none;
      sent = sent n;
      cancelled = cancelled;
    }
      ∷ turns_from e cancelled sent (n + 1) [] cs
    else turns_from e cancelled sent n (pending ++ c ∷ []) cs

abbrev NoNewline : Bytes → Type 0
NoNewline [] = Unit
NoNewline (c ∷ cs) = ((c == b'\n') ≡ false) × NoNewline cs

cut-le : (n : ℕ) (line tail : Bytes) → length (take n line ++ tail) ≤ n + length tail
cut-le n line tail = omega (arith, length-append (take n line) tail, length-take n line)

-- The log never shows more than 1027 bytes of a line.
pub log_line-le : (line : Bytes) → length (log_line line) ≤ 1027
unfolding log_line
log_line-le line = elim (Bool-cases (ltb max_log_line (length line))) [
  | inl h ↦ rw h (cut-le max_log_line line (codes "..."))
  | inr h ↦ rw h (ground arith)
]

trim_newline_of_NoNewline : (s : Bytes) → NoNewline s → trim_newline s ≡ s
unfolding trim_newline
trim_newline_of_NoNewline [] h = refl
trim_newline_of_NoNewline (c ∷ []) h = rw h.0
trim_newline_of_NoNewline (c ∷ d ∷ cs) h = ap (◌∷◌ c) (trim_newline_of_NoNewline (d ∷ cs) h.1)

trim_newline-concat : (s : Bytes) (c : ℕ) → (c == b'\n') ≡ true → trim_newline (s ++ c ∷ []) ≡ s
unfolding trim_newline
trim_newline-concat [] c h = rw h
trim_newline-concat (b ∷ []) c h = rw h
trim_newline-concat (b ∷ d ∷ cs) c h = ap (◌∷◌ b) (trim_newline-concat (d ∷ cs) c h)

NoNewline-concat :
    (s : Bytes) (c : ℕ) → NoNewline s → (c == b'\n') ≡ false → NoNewline (s ++ c ∷ [])
NoNewline-concat [] c h k = (k, tt)
NoNewline-concat (b ∷ s) c h k = (h.0, NoNewline-concat s c h.1 k)

emit-lines :
    (line : Bytes) (sent : Bool) (s : Sender)
    → (emit line sent s).lines ≡ s.lines ++ close_line line []
unfolding emit
emit-lines [] sent s = sym (append-nil s.lines)
emit-lines (c ∷ cs) true s = refl
emit-lines (c ∷ cs) false s = refl

check_error-ends :
    (e : ReadEnd) (cancelled : Bool) (s : Sender)
    → (s' : Sender) × (check_error (some e) cancelled s ≡ finished s') × (s'.lines ≡ s.lines)
unfolding check_error
check_error-ends eof cancelled s = (_, refl, refl)
check_error-ends (other e) cancelled s = (_, refl, refl)

close_line-append :
    (line : Bytes) (rest : List Bytes) → close_line line [] ++ rest ≡ close_line line rest
close_line-append [] rest = refl
close_line-append (c ∷ cs) rest = refl

forward-from :
    (e : ReadEnd) (cancelled : Bool) (sent : ℕ → Bool) (n : ℕ) (stream pending : Bytes) (s : Sender)
    → NoNewline pending
    → (s' : Sender) × (forward s (turns_from e cancelled sent n pending stream) ≡ finished s')
      × (s'.lines ≡ s.lines ++ lines_from pending stream)
unfolding forward step
forward-from e cancelled sent n [] pending s h =
    let t = emit pending (sent n) s in
    let (s', ends, same) = check_error-ends e cancelled t in
    (
      s',
      rw (trim_newline_of_NoNewline pending h, ends, resume),
      same ∙ emit-lines pending (sent n) s,
    )
forward-from e cancelled sent n (c ∷ cs) pending s h = elim (Bool-cases (c == b'\n')) [
  | inl k ↦
      let t = emit pending (sent n) s in
      let (s', ends, same) = forward-from e cancelled sent (n + 1) cs [] t tt in
      let rest = lines_from [] cs in
      (
        s',
        rw (k, trim_newline-concat pending c k) ends,
        rw k (
            same
            ∙ ap (λ x. x ++ rest) (emit-lines pending (sent n) s)
            ∙ append_assoc s.lines (close_line pending []) rest
            ∙ ap (λ x. s.lines ++ x) (close_line-append pending rest)),
      )
  | inr k ↦
      let (s', ends, same) =
        forward-from e cancelled sent n cs (pending ++ c ∷ []) s (NoNewline-concat pending c h k) in
      (s', rw k ends, rw k same)
]

-- Whatever the process writes to its stderr, and whichever calls that send a message fail, the worker
-- reads to the end and calls `SendWebSocketOoBMessage` for each line that is not empty, once, in
-- order, with the whole line and no newline.
pub forward-lines :
    (e : ReadEnd) (cancelled : Bool) (sent : ℕ → Bool) (stream : Bytes)
    → (s : Sender) × (forward start (turns_from e cancelled sent 0 [] stream) ≡ finished s)
      × (s.lines ≡ lines_from [] stream)
forward-lines e cancelled sent stream = forward-from e cancelled sent 0 stream [] start tt
