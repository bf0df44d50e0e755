-- ===== src/Server/Stdout/Responses.antt =====
-- What a process that writes one response to a line gives to the accumulator of the worker, however
-- its output is cut into chunks.
use mcptp.Base.{
  ◌≡◌, ◌≢◌, ◌⊎◌, inl, inr, refl, ap, ◌∙◌, true, false, some, List, [], ◌∷◌, ◌++◌, append_assoc,
  Bytes, concat, All, arith,
}
use mcptp.Json.{Grammar}
use mcptp.Jsonrpc.Accumulator.{Accumulator, complete, check_message}
use mcptp.Jsonrpc.Accumulator.Lines.{has_newline, last_part}
use mcptp.Jsonrpc.Accumulator.Streams.{
  last_part_of_no_newline, last_part-newline, accumulate_response_of_no_newline,
  accumulate_response-first,
}
use mcptp.Jsonrpc.Response
use mcptp.Jsonrpc.Response.{Response}
use mcptp.Server.Stdout.Frames.{Accepted}

-- A line, without its newline, that is read as a valid response.
pub record IsResponse (G : Grammar) (line : Bytes) : Type 0 where
  pub whole : has_newline line ≡ false
  pub response : Response
  pub reads : Response.unmarshal G (line ++ b'\n' ∷ []) ≡ some response
  pub is_valid : Response.valid response ≡ true

-- The lines, each with its newline.
abbrev pub stream : List Bytes → Bytes
stream [] = []
stream (l ∷ ls) = l ++ b'\n' ∷ stream ls

-- What a stream begins with is a part of its first line, or that line and more.
first_cut :
    (s t l rest : Bytes)
    → s ++ t ≡ l ++ b'\n' ∷ rest
    → has_newline l ≡ false
    → (has_newline s ≡ false) ⊎ ((s' : Bytes) × (s ≡ l ++ b'\n' ∷ s') × (s' ++ t ≡ rest))
first_cut [] t l rest e h = inl refl
first_cut (c ∷ s) t [] rest e h = inr (s, cc, cc)
first_cut (c ∷ s) t (d ∷ l) rest e h = elim (first_cut s t l rest (cc) (ground arith)) [
  | inl p ↦ let q : c ≡ d = cc in inl (ground (arith, q, p))
  | inr (s', p, q) ↦ inr (s', cc, q)
]

-- After what follows the last newline a stream of the lines goes on.
last_part-stream :
    (G : Grammar) (lines : List Bytes) (s t : Bytes)
    → All (IsResponse G) lines
    → s ++ t ≡ stream lines
    → (rest : List Bytes) × All (IsResponse G) rest × (last_part s ++ t ≡ stream rest)
last_part-stream G [] [] t a e = ([], tt, e)
last_part-stream G [] (c ∷ s) t a e = cc
last_part-stream G (l ∷ ls) s t (g, a) e = elim (first_cut s t l (stream ls) e g.whole) [
  | inl p ↦ (l ∷ ls, (g, a), ap (λ x. x ++ t) (last_part_of_no_newline s p) ∙ e)
  | inr (s', p, q) ↦
      let (rest, b, f) = last_part-stream G ls s' t a q in
      (rest, b, ap (λ x. x ++ t) (ap last_part p ∙ last_part-newline l s') ∙ f)
]

middle_of_nil : (s t u : Bytes) → s ++ (t ++ u) ≡ [] → t ≡ []
middle_of_nil [] [] u e = refl
middle_of_nil [] (c ∷ t) u e = cc
middle_of_nil (c ∷ s) t u e = cc

check_message-IsResponse :
    (G : Grammar) (l : Bytes) (g : IsResponse G l)
    → check_message Response.valid (Response.unmarshal G (l ++ b'\n' ∷ [])) ≡ complete g.response
unfolding check_message
check_message-IsResponse G l g = rw (g.reads, g.is_valid)

-- The chunks of a stream of responses are accepted, wherever the accumulator stands in it.
pub stream-Accepted :
    (G : Grammar) (chunks : List Bytes) (accumulator : Accumulator) (lines : List Bytes)
    → All (IsResponse G) lines
    → All (λ chunk. chunk ≢ []) chunks
    → accumulator ++ concat chunks ≡ stream lines
    → Accepted G accumulator chunks
stream-Accepted G [] accumulator lines a n e = tt
stream-Accepted G (chunk ∷ chunks) accumulator [] a (n, ns) e =
    absurd (n (middle_of_nil accumulator chunk (concat chunks) e))
stream-Accepted G (chunk ∷ chunks) accumulator (l ∷ ls) (g, a) (n, ns) e =
    let e' : (accumulator ++ chunk) ++ concat chunks ≡ l ++ b'\n' ∷ stream ls =
      append_assoc accumulator chunk (concat chunks) ∙ e in
    elim (first_cut (accumulator ++ chunk) (concat chunks) l (stream ls) e' g.whole) [
      | inl p ↦
          let r = accumulate_response_of_no_newline G accumulator chunk p in
          rw r
            (n, (λ x q. cc), stream-Accepted G chunks (accumulator ++ chunk) (l ∷ ls) (g, a) ns e')
      | inr (s', p, q) ↦
          let r = accumulate_response-first G accumulator chunk l s' p g.whole in
          let (rest, b, f) = last_part-stream G ls s' (concat chunks) a q in
          rw r (
            n,
            (λ x k. let c = check_message-IsResponse G l g in cc),
            stream-Accepted G chunks (last_part s') rest b ns f,
          )
    ]
