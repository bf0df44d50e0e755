-- ===== src/Client/Receiver/Prefixes.antt =====
-- What the client sends of its stdin, whatever fails.
use mcptp.Base.{
  list_laws, ◌≡◌, refl, sym, ap, subst, ◌∙◌, Option, none, some, List, [], ◌∷◌, ◌++◌, append_assoc,
  append-nil, map, Bytes, concat, IsPrefix, IsPrefix-refl, IsPrefix-append,
}
use mcptp.Client.Receiver.{
  Turn, ReadEnd, eof, other, Sent, sent_ok, send_failed, Frame, binary_frame, text_frame, Progress,
  running, awaiting, finished, on_eof, check_error, step, resume, receive,
}
use mcptp.Json.{Grammar}

-- The binary messages among some frames, and the frames that a worker has sent.
abbrev pub binaries : List Frame → List Bytes
binaries [] = []
binaries (binary_frame msg ∷ frames) = msg ∷ binaries frames
binaries (text_frame msg ∷ frames) = binaries frames

abbrev pub frames_of : Progress → List Frame
frames_of (running frames) = frames
frames_of (awaiting frames) = frames
frames_of (finished e frames) = frames

-- What is read of the stdin in some rounds.
abbrev pub read_in : List Turn → Bytes
read_in turns = concat (map Turn.chunk turns)

data_of : List Frame → Bytes
data_of frames = concat (binaries frames)

data-text :
    (frames : List Frame) (msg : Bytes) → data_of (frames ++ text_frame msg ∷ []) ≡ data_of frames
unfolding data_of
data-text [] msg = refl
data-text (binary_frame m ∷ frames) msg = ap (λ x. m ++ x) (data-text frames msg)
data-text (text_frame m ∷ frames) msg = data-text frames msg

data-binary :
    (frames : List Frame) (msg : Bytes)
    → data_of (frames ++ binary_frame msg ∷ []) ≡ data_of frames ++ msg
unfolding data_of
data-binary [] msg = append-nil msg
data-binary (binary_frame m ∷ frames) msg =
    ap (λ x. m ++ x) (data-binary frames msg) ∙ sym (append_assoc m (data_of frames) msg)
data-binary (text_frame m ∷ frames) msg = data-binary frames msg

-- A round has sent `before` and the chunk, or it ends the worker with a beginning of that.
Kept : Bytes → Progress → Type 0
Kept all (running frames) = data_of frames ≡ all
Kept all (awaiting frames) = data_of frames ≡ all
Kept all (finished e frames) = IsPrefix (data_of frames) all

check_error-Kept :
    (G : Grammar) (e : Option ReadEnd) (quit : Sent) (frames : List Frame) (all : Bytes)
    → data_of frames ≡ all
    → Kept all (check_error G e quit frames)
unfolding check_error on_eof Kept
check_error-Kept G none quit frames all h = h
check_error-Kept G (some eof) sent_ok frames all h = data-text frames _ ∙ h
check_error-Kept G (some eof) (send_failed e) frames all h =
    subst (IsPrefix (data_of frames)) h (IsPrefix-refl (data_of frames))
check_error-Kept G (some (other e)) quit frames all h =
    subst (IsPrefix (data_of frames)) h (IsPrefix-refl (data_of frames))

step-Kept :
    (G : Grammar) (chunk : Bytes) (e : Option ReadEnd) (sent quit : Sent) (frames : List Frame)
    → Kept (data_of frames ++ chunk) (step G chunk e sent quit frames)
unfolding step Kept
step-Kept G [] e sent quit frames =
    check_error-Kept G e quit frames _ (sym (append-nil (data_of frames)))
step-Kept G (b ∷ bs) e (send_failed t) quit frames = (b ∷ bs, refl)
step-Kept G (b ∷ bs) e sent_ok quit frames =
    check_error-Kept G e quit _ _ (data-binary frames (b ∷ bs))

resume-IsPrefix :
    (G : Grammar) (turns : List Turn) (p : Progress) (all : Bytes)
    → ((frames : List Frame)
        → IsPrefix (data_of (frames_of (receive G frames turns))) (data_of frames ++ read_in turns))
    → Kept all p
    → IsPrefix
        (data_of (frames_of (resume (λ frames. receive G frames turns) p)))
        (all ++ read_in turns)
unfolding resume Kept
resume-IsPrefix G turns (running frames) all ih k = rw (← k) (ih frames)
resume-IsPrefix G turns (awaiting frames) all ih k = (read_in turns, ap (λ x. x ++ read_in turns) k)
resume-IsPrefix G turns (finished e frames) all ih k =
    IsPrefix-append (data_of frames) all (read_in turns) k

rounds-IsPrefix :
    (G : Grammar) (frames : List Frame) (turns : List Turn)
    → IsPrefix (data_of (frames_of (receive G frames turns))) (data_of frames ++ read_in turns)
unfolding receive
rounds-IsPrefix G frames [] = ([], refl)
rounds-IsPrefix G frames (t ∷ turns) =
    let p = step G t.chunk t.read_error t.sent t.sent_shutdown frames in
    let k = step-Kept G t.chunk t.read_error t.sent t.sent_shutdown frames in
    subst (IsPrefix (data_of (frames_of (resume (λ fs. receive G fs turns) p)))) (simp list_laws)
      (resume-IsPrefix G turns p _ (λ fs. rounds-IsPrefix G fs turns) k)

-- What the worker has sent in binary messages is a beginning of what it has read, whatever the rounds are.
pub receive-IsPrefix :
    (G : Grammar) (turns : List Turn)
    → IsPrefix (concat (binaries (frames_of (receive G [] turns)))) (read_in turns)
unfolding data_of
receive-IsPrefix G turns = rounds-IsPrefix G [] turns
