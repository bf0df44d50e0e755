-- ===== src/System/Noise.antt =====
-- What the client gets while the process runs: its stdout in frames, and lines of its stderr between.
use mcptp.Base.{
  ℕ, ◌≤◌, ◌≡◌, refl, ap, ◌∙◌, All, All-append, List, [], ◌∷◌, ◌++◌, append_assoc, map, Bytes,
  length, concat,
}
use mcptp.Client.Sender.{message}
use mcptp.Client.Sender.Output.{payload_of}
use mcptp.Json.{Grammar}
use mcptp.Oob.{ServerExited, server_exited, process_stderr, frame}
use mcptp.Websocket.{MessageType, text_type, binary_type}

-- The messages that the client gets while the process runs: the frames of its stdout, with some lines
-- of its stderr before each frame and after the last.
abbrev pub warnings : Grammar → List Bytes → List (MessageType × Bytes)
warnings G [] = []
warnings G (line ∷ lines) = (text_type, frame G (process_stderr line)) ∷ warnings G lines

abbrev pub mixed : Grammar → List (List Bytes) → List Bytes → List (MessageType × Bytes)
mixed G noise [] = warnings G (concat noise)
mixed G [] (f ∷ frames) = (binary_type, f) ∷ mixed G [] frames
mixed G (lines ∷ noise) (f ∷ frames) = warnings G lines ++ (binary_type, f) ∷ mixed G noise frames

abbrev pub data_of : List (MessageType × Bytes) → Bytes
data_of msgs = concat (map (λ (m : MessageType × Bytes). payload_of (message m.0 m.1)) msgs)

warnings-data :
    (G : Grammar) (lines : List Bytes) (msgs : List (MessageType × Bytes))
    → data_of (warnings G lines ++ msgs) ≡ data_of msgs
warnings-data G [] msgs = refl
warnings-data G (line ∷ lines) msgs = warnings-data G lines msgs

pub mixed-data :
    (G : Grammar) (noise : List (List Bytes)) (frames : List Bytes) (m : ServerExited)
    → data_of (mixed G noise frames ++ (text_type, frame G (server_exited m)) ∷ []) ≡ concat frames
mixed-data G noise [] m = warnings-data G (concat noise) _
mixed-data G [] (f ∷ frames) m = ap (λ x. f ++ x) (mixed-data G [] frames m)
mixed-data G (lines ∷ noise) (f ∷ frames) m =
    ap data_of (append_assoc (warnings G lines) ((binary_type, f) ∷ mixed G noise frames) _)
    ∙ warnings-data G lines _
    ∙ ap (λ x. f ++ x) (mixed-data G noise frames m)

-- A message of at most that size.
abbrev pub Within : ℕ → MessageType × Bytes → Type 0
Within limit m = length m.1 ≤ limit

-- A line of the stderr whose message is of at most that size.
abbrev pub LineWithin : Grammar → ℕ → Bytes → Type 0
LineWithin G limit line = length (frame G (process_stderr line)) ≤ limit

warnings-Within :
    (G : Grammar) (limit : ℕ) (lines : List Bytes)
    → All (LineWithin G limit) lines
    → All (Within limit) (warnings G lines)
warnings-Within G limit [] a = tt
warnings-Within G limit (line ∷ lines) (l, a) = (l, warnings-Within G limit lines a)

concat-All :
    (P : Bytes → Type 0) (noise : List (List Bytes)) → All (All P) noise → All P (concat noise)
concat-All P [] a = tt
concat-All P (lines ∷ noise) (l, a) = All-append P lines (concat noise) l (concat-All P noise a)

pub mixed-Within :
    (G : Grammar) (limit : ℕ) (noise : List (List Bytes)) (frames : List Bytes)
    → All (All (LineWithin G limit)) noise
    → All (λ f. length f ≤ limit) frames
    → All (Within limit) (mixed G noise frames)
mixed-Within G limit noise [] a b = warnings-Within G limit (concat noise) (concat-All _ noise a)
mixed-Within G limit [] (f ∷ frames) a (l, b) = (l, mixed-Within G limit [] frames tt b)
mixed-Within G limit (lines ∷ noise) (f ∷ frames) (n, a) (l, b) =
    All-append (Within limit) (warnings G lines) ((binary_type, f) ∷ mixed G noise frames)
      (warnings-Within G limit lines n) (l, mixed-Within G limit noise frames a b)
