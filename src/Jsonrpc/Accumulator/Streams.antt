-- ===== src/Jsonrpc/Accumulator/Streams.antt =====
-- An accumulator over a whole stream of chunks: its state depends on the bytes alone, and a message
-- that comes in fragments is handed out once, when its newline comes.
use mcptp.Base.{
  ◌≡◌, refl, sym, ap, ◌∙◌, inl, inr, true, false, ◌||◌, none, some, List, [], ◌∷◌, ◌++◌,
  append_assoc, append-nil, arith, Bytes, concat, Bool-cases, map,
}
use mcptp.Json.{Grammar}
use mcptp.Jsonrpc.Request
use mcptp.Jsonrpc.Request.{Request}
use mcptp.Jsonrpc.Response
use mcptp.Jsonrpc.Response.{Response}
use mcptp.Jsonrpc.Accumulator.{
  Accumulator, Accumulated, incomplete, complete, check_line, check_message, accumulate_request,
  accumulate_response,
}
use mcptp.Jsonrpc.Accumulator.Lines.{
  has_newline, first_line, last_part, has_newline-last_part, read_complete_line-lines,
}

pub last_part_of_no_newline : (s : Bytes) → has_newline s ≡ false → last_part s ≡ s
last_part_of_no_newline [] h = refl
last_part_of_no_newline (c ∷ cs) h = ground arith

has_newline-append : (s t : Bytes) → has_newline (s ++ t) ≡ (has_newline s || has_newline t)
has_newline-append [] t = refl
has_newline-append (c ∷ s) t = ground (arith, has_newline-append s t)

last_part-append : (s t : Bytes) → last_part (last_part s ++ t) ≡ last_part (s ++ t)
last_part-append [] t = refl
last_part-append (c ∷ s) t = elim (Bool-cases (has_newline (c ∷ s))) [
  | inl h ↦
      let e : has_newline ((c ∷ s) ++ t) ≡ true = ground (arith, has_newline-append s t) in
      rw (h, e) (last_part-append s t)
  | inr h ↦ rw h
]

first_line_of_no_newline : (s : Bytes) → has_newline s ≡ false → first_line s ≡ none
first_line_of_no_newline [] h = refl
first_line_of_no_newline (c ∷ s) h = ground (arith, first_line_of_no_newline s)

first_line-append :
    (s rest : Bytes)
    → has_newline s ≡ false
    → first_line (s ++ b'\n' ∷ rest) ≡ some (s ++ b'\n' ∷ [])
first_line-append [] rest h = refl
first_line-append (c ∷ s) rest h = ground (arith, first_line-append s rest)

pub last_part-newline : (s rest : Bytes) → last_part (s ++ b'\n' ∷ rest) ≡ last_part rest
last_part-newline [] rest = refl
last_part-newline (c ∷ s) rest =
    ground (arith, has_newline-append s (b'\n' ∷ rest), last_part-newline s rest)

-- The calls that the workers make for the chunks of a stream, in order.
abbrev pub accumulate_requests :
    Grammar → Accumulator → List Bytes → List (Accumulated Request) × Accumulator
accumulate_requests G accumulator [] = ([], accumulator)
accumulate_requests G accumulator (chunk ∷ chunks) =
    let (request, left) = accumulate_request G accumulator chunk in
    let (requests, last) = accumulate_requests G left chunks in (request ∷ requests, last)

-- The accumulator that a call leaves, whatever the line holds.
pub accumulate_request-left :
    (G : Grammar) (accumulator chunk : Bytes)
    → (accumulate_request G accumulator chunk).1 ≡ last_part (accumulator ++ chunk)
unfolding accumulate_request
accumulate_request-left G accumulator chunk =
    ap (λ p. p.1) (read_complete_line-lines accumulator chunk)

-- After any chunks an accumulator holds what follows the last newline of all their bytes, however
-- the bytes were cut into chunks and whatever the lines were.
pub accumulate_requests-left :
    (G : Grammar) (accumulator : Accumulator) (chunks : List Bytes)
    → has_newline accumulator ≡ false
    → (accumulate_requests G accumulator chunks).1 ≡ last_part (accumulator ++ concat chunks)
accumulate_requests-left G accumulator [] h =
    rw append-nil (sym (last_part_of_no_newline accumulator h))
accumulate_requests-left G accumulator (chunk ∷ chunks) h =
    let left = accumulate_request-left G accumulator chunk in
    rw left (
      accumulate_requests-left G (last_part (accumulator ++ chunk)) chunks
        (has_newline-last_part (accumulator ++ chunk))
      ∙ last_part-append (accumulator ++ chunk) (concat chunks)
      ∙ ap last_part (append_assoc accumulator chunk (concat chunks)))

accumulate_request_of_no_newline :
    (G : Grammar) (accumulator chunk : Bytes)
    → has_newline (accumulator ++ chunk) ≡ false
    → accumulate_request G accumulator chunk ≡ (incomplete, accumulator ++ chunk)
unfolding accumulate_request check_line
accumulate_request_of_no_newline G accumulator chunk h =
    rw (read_complete_line-lines accumulator chunk) (
      rw (
        first_line_of_no_newline (accumulator ++ chunk) h,
        last_part_of_no_newline (accumulator ++ chunk) h,
      ))

-- The same for `accumulate_response`, from what follows the reading of the line.
pub accumulate_response-line :
    (G : Grammar) (accumulator chunk rest : Bytes)
    → has_newline (accumulator ++ chunk) ≡ false
    → accumulate_response G accumulator (chunk ++ b'\n' ∷ rest) ≡ (
      check_message Response.valid (Response.unmarshal G ((accumulator ++ chunk) ++ b'\n' ∷ [])),
      last_part rest,
    )
unfolding accumulate_response
accumulate_response-line G accumulator chunk rest h =
    let s = accumulator ++ chunk in
    rw
      (
        read_complete_line-lines accumulator (chunk ++ b'\n' ∷ rest),
        ← append_assoc accumulator chunk (b'\n' ∷ rest),
      )
      (rw (first_line-append s rest h, last_part-newline s rest))

accumulate_request-line :
    (G : Grammar) (accumulator chunk rest : Bytes) {r : Request}
    → has_newline (accumulator ++ chunk) ≡ false
    → Request.unmarshal G ((accumulator ++ chunk) ++ b'\n' ∷ []) ≡ some r
    → Request.valid r ≡ true
    → accumulate_request G accumulator (chunk ++ b'\n' ∷ rest) ≡ (complete r, last_part rest)
unfolding accumulate_request check_line
accumulate_request-line G accumulator chunk rest h u v =
    let s = accumulator ++ chunk in
    rw
      (
        read_complete_line-lines accumulator (chunk ++ b'\n' ∷ rest),
        ← append_assoc accumulator chunk (b'\n' ∷ rest),
      )
      (rw (first_line-append s rest h, last_part-newline s rest, u, v))

-- A valid request that comes in fragments is handed out by the call that brings its newline, and
-- by no call before it; the accumulator keeps what follows the last newline of that chunk.
pub accumulate_requests-fragments :
    (G : Grammar) (accumulator : Accumulator) (fragments : List Bytes) (chunk rest : Bytes)
    {r : Request}
    → has_newline (accumulator ++ (concat fragments ++ chunk)) ≡ false
    → Request.unmarshal G ((accumulator ++ (concat fragments ++ chunk)) ++ b'\n' ∷ []) ≡ some r
    → Request.valid r ≡ true
    → accumulate_requests G accumulator (fragments ++ (chunk ++ b'\n' ∷ rest) ∷ [])
      ≡ (map (λ _. incomplete) fragments ++ complete r ∷ [], last_part rest)
accumulate_requests-fragments G accumulator [] chunk rest h u v =
    rw (accumulate_request-line G accumulator chunk rest h u v)
accumulate_requests-fragments G accumulator (f ∷ fs) chunk rest h u v =
    let tail = concat fs ++ chunk in
    let e : accumulator ++ (concat (f ∷ fs) ++ chunk) ≡ (accumulator ++ f) ++ tail =
      simp append_assoc in
    let h' : has_newline ((accumulator ++ f) ++ tail) ≡ false = rw (← e) h in
    let first =
      accumulate_request_of_no_newline G accumulator f
        (ground (arith, has_newline-append (accumulator ++ f) tail)) in
    rw first
      (rw (accumulate_requests-fragments G (accumulator ++ f) fs chunk rest h' (rw (← e) u) v))

-- A response that is not there yet.
pub accumulate_response_of_no_newline :
    (G : Grammar) (accumulator chunk : Bytes)
    → has_newline (accumulator ++ chunk) ≡ false
    → accumulate_response G accumulator chunk ≡ (incomplete, accumulator ++ chunk)
unfolding accumulate_response check_line
accumulate_response_of_no_newline G accumulator chunk h =
    rw (read_complete_line-lines accumulator chunk) (
      rw (
        first_line_of_no_newline (accumulator ++ chunk) h,
        last_part_of_no_newline (accumulator ++ chunk) h,
      ))

-- A response whose line ends in the bytes that the accumulator and the chunk hold.
pub accumulate_response-first :
    (G : Grammar) (accumulator chunk l rest : Bytes)
    → accumulator ++ chunk ≡ l ++ b'\n' ∷ rest
    → has_newline l ≡ false
    → accumulate_response G accumulator chunk
      ≡ (check_message Response.valid (Response.unmarshal G (l ++ b'\n' ∷ [])), last_part rest)
unfolding accumulate_response check_line
accumulate_response-first G accumulator chunk l rest e h =
    rw (read_complete_line-lines accumulator chunk, e)
      (rw (first_line-append l rest h, last_part-newline l rest))
