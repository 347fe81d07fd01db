-- ===== src/Mock/Chunks.antt =====
-- What the client of a streamed mock answer reads (MockProvider and mockStream of
-- internal/provider/mock.go).
use Prim.Native.String.append
use text.Mathlib.TextLemmas.{append-nil}
use model_gate.Prelude.{
  ℕ, zero, suc, ◌+◌, false, List, [], ◌∷◌, ◌++◌, Option, none, some, String, ◌≡◌, refl, sym, ap,
  ◌∙◌, map, length, get_elem?, drop, replicate, All, arith, text_append, ℤ,
}
use model_gate.Errors.{Error, sentinel, eof, Result, ok, err}
use model_gate.Requests.{ChatRequest, ChatResponse}
use model_gate.Mock.{
  Chunk, ChatDelta, MockStream, MockProvider, delta_chunk, mock_chunks, split_mock_content, recv,
  chat, chat_stream, close, mock_content, mock_response, next_id,
}
use model_gate.Mock.Fields.{fields}
use model_gate.Mock.Words.{text_concat, fields-split_mock_content}

-- What a position that is dropped to says of the list.
drop-eq-cons :
    (xs : List Chunk) (i : ℕ) (x : Chunk) (rest : List Chunk)
    → drop i xs ≡ x ∷ rest
    → (get_elem? xs i ≡ some x) × (drop (i + 1) xs ≡ rest)
drop-eq-cons [] zero x rest h = absurd (cc)
drop-eq-cons [] (suc i) x rest h = absurd (cc)
drop-eq-cons (y ∷ xs) zero x rest h = (cc, cc)
drop-eq-cons (y ∷ xs) (suc i) x rest h =
    let ih = drop-eq-cons xs i x rest h in
    let e : suc i + 1 ≡ suc (i + 1) = omega arith in (ih.0, rw e ih.1)

drop-eq-nil : (xs : List Chunk) (i : ℕ) → drop i xs ≡ [] → get_elem? xs i ≡ none
drop-eq-nil [] i h = refl
drop-eq-nil (y ∷ xs) zero h = cc
drop-eq-nil (y ∷ xs) (suc i) h = drop-eq-nil xs i h

-- The deltas that a client reads out of chunks, their text, and the reasons to finish.
abbrev pub deltas : List Chunk → List ChatDelta
deltas [] = []
deltas (c ∷ cs) = map (λ x. x.delta) c.choices ++ deltas cs

abbrev pub delta_text : List Chunk → String
delta_text cs = text_concat (map (λ d. d.content) (deltas cs))

abbrev pub finish_reasons : List Chunk → List (Option String)
finish_reasons [] = []
finish_reasons (c ∷ cs) = map (λ x. x.finish_reason) c.choices ++ finish_reasons cs

abbrev pub answer_text : ChatResponse → String
answer_text r = text_concat (map (λ c. c.message.content) r.choices)

abbrev pub Heads : ChatResponse → Chunk → Type 0
Heads r c =
    (c.id ≡ r.id)
    × (c.created ≡ r.created)
    × (c.model ≡ r.model)
    × (c.object ≡ "chat.completion.chunk")

module _ {W : Type 0} (context : W → Option Error × W) where
  -- The answers of so many calls of Recv.
  abbrev pub reads : ℕ → MockStream → W → List (Result Chunk)
  reads zero s w = []
  reads (suc n) s w = let (r, s', w') = recv context s w in r ∷ reads n s' w'

  module _ (never : (w : W) → (context w).0 ≡ none) where
    recv_next :
        (chunks : List Chunk) (i : ℕ) (c : Chunk) (w : W)
        → get_elem? chunks i ≡ some c
        → recv context (record { chunks = chunks; index = i; closed = false }) w
          ≡ (ok c, record { chunks = chunks; index = i + 1; closed = false }, (context w).1)
    unfolding recv
    recv_next chunks i c w h = rw (h, never w) refl

    recv_past :
        (chunks : List Chunk) (i : ℕ) (w : W)
        → get_elem? chunks i ≡ none
        → recv context (record { chunks = chunks; index = i; closed = false }) w
          ≡ (err (sentinel eof), record { chunks = chunks; index = i; closed = false }, w)
    unfolding recv
    recv_past chunks i w h = rw (h) refl

    reads_past :
        (k : ℕ) (chunks : List Chunk) (i : ℕ) (w : W)
        → get_elem? chunks i ≡ none
        → reads k (record { chunks = chunks; index = i; closed = false }) w
          ≡ replicate k (err (sentinel eof))
    reads_past zero chunks i w h = refl
    reads_past (suc k) chunks i w h =
        rw (recv_past chunks i w h) (ap (◌∷◌ (err (sentinel eof))) (reads_past k chunks i w h))

    -- The chunks that are left, in order, and then io.EOF at every further call.
    reads_all :
        (left : List Chunk) (k : ℕ) (chunks : List Chunk) (i : ℕ) (w : W)
        → drop i chunks ≡ left
        → reads (length left + k) (record { chunks = chunks; index = i; closed = false }) w
          ≡ map ok left ++ replicate k (err (sentinel eof))
    reads_all [] k chunks i w h =
        let start : 0 + k ≡ k = omega arith in
        rw start (reads_past k chunks i w (drop-eq-nil chunks i h))
    reads_all (c ∷ left) k chunks i w h =
        let (here, later) = drop-eq-cons chunks i c left h in
        let more : suc (length left) + k ≡ suc (length left + k) = omega arith in
        rw (more, recv_next chunks i c w here)
          (ap (◌∷◌ (ok c)) (reads_all left k chunks (i + 1) (context w).1 later))

-- The chunks between the first and the last, and the last.
module _ (id : String) (created : ℤ) (model : String) where
  abbrev piece : String → Chunk
  piece part = delta_chunk id created model (record { role = ""; content = part }) none

  abbrev last : Chunk
  last = delta_chunk id created model (record { role = ""; content = "" }) (some "stop")

  pieces-text :
      (parts : List String) → delta_text (map piece parts ++ last ∷ []) ≡ text_concat parts
  unfolding text_concat
  pieces-text [] = append.nil ""
  pieces-text (part ∷ parts) = ap (text_append part) (pieces-text parts)

  pieces-reasons :
      (parts : List String)
      → finish_reasons (map piece parts ++ last ∷ [])
        ≡ replicate (length parts) none ++ some "stop" ∷ []
  pieces-reasons [] = refl
  pieces-reasons (part ∷ parts) = ap (◌∷◌ none) (pieces-reasons parts)

  pieces-roles :
      (parts : List String)
      → map (λ d. d.role) (deltas (map piece parts ++ last ∷ []))
        ≡ replicate (suc (length parts)) ""
  pieces-roles [] = refl
  pieces-roles (part ∷ parts) = ap (◌∷◌ "") (pieces-roles parts)

  pieces-Heads :
      (r : ChatResponse) (parts : List String)
      → Heads r last
      → All (Heads r) (map piece parts ++ last ∷ [])
  pieces-Heads r [] h = (h, tt)
  pieces-Heads r (part ∷ parts) h = (h, pieces-Heads r parts h)

-- What the client of a stream gets that a whole answer would have given: `r`.
pub record Carries (r : ChatResponse) (cs : List Chunk) : Type 0 where
  pub same_words : fields (delta_text cs) ≡ fields (answer_text r)
  pub same_heads : All (Heads r) cs
  pub one_role : (n : ℕ) × (map (λ d. d.role) (deltas cs) ≡ "assistant" ∷ replicate n "")
  pub one_stop : (n : ℕ) × (finish_reasons cs ≡ replicate n none ++ some "stop" ∷ [])

mock_chunks-Carries :
    (id : String) (created : ℤ) (model content : String) (r : ChatResponse)
    → Heads r (last id created model)
    → answer_text r ≡ content
    → Carries r (mock_chunks id created model content)
unfolding mock_chunks text_concat
mock_chunks-Carries id created model content r heads text =
    let parts = split_mock_content content in
    record {
      same_words =
          ap fields (
            append.nil
              (delta_text (map (piece id created model) parts ++ last id created model ∷ [])))
          ∙ ap fields (pieces-text id created model parts)
          ∙ fields-split_mock_content content
          ∙ ap fields (sym text);
      same_heads = (heads, pieces-Heads id created model r parts heads);
      one_role = (suc (length parts), ap (◌∷◌ "assistant") (pieces-roles id created model parts));
      one_stop = (suc (length parts), ap (◌∷◌ none) (pieces-reasons id created model parts));
    }

abbrev pub eofs : ℕ → List (Result Chunk)
eofs k = replicate k (err (sentinel eof))

reads_closed :
    {W : Type 0} (context : W → Option Error × W) (k : ℕ) (s : MockStream) (w : W)
    → reads context k (close s) w ≡ eofs k
unfolding recv close
reads_closed context zero s w = refl
reads_closed context (suc k) s w = ap (◌∷◌ (err (sentinel eof))) (reads_closed context k s w)

-- Where the context is never done, a streamed answer of the mock is its whole answer in pieces: asked
-- at the same moment, both succeed; the chunks that Recv gives, followed by io.EOF at every further
-- call, hold the same words, id, model and time, have the assistant's role once, at the start, and
-- the reason "stop" once, at the end. After a Close, every call of Recv gives io.EOF.
pub chat_stream-Carries :
    {W : Type 0} (context : W → Option Error × W) (unix : W → ℤ × W)
    (never : (w : W) → (context w).0 ≡ none) (r : ChatRequest) (p : MockProvider) (w w' : W) (k : ℕ)
    → (answer : ChatResponse) × (s : MockStream) × ((chat context unix r p w).0 ≡ ok answer)
      × ((chat_stream context unix r p w).0 ≡ ok s)
      × Carries answer s.chunks
      × (reads context (length s.chunks + k) s w' ≡ map ok s.chunks ++ eofs k)
      × (reads context k (close s) w' ≡ eofs k)
unfolding chat chat_stream mock_response text_concat
chat_stream-Carries context unix never r p w w' k =
    let id = (next_id p).0 in
    let created = (unix (context w).1).0 in
    let content = mock_content r.messages in
    let answer = mock_response id created r in
    let chunks = mock_chunks id created r.model content in
    let s : MockStream = record { chunks = chunks; index = 0; closed = false } in
    (
      answer,
      s,
      rw (never w, chat) refl,
      rw (never w, chat_stream) refl,
      mock_chunks-Carries id created r.model content answer (refl, refl, refl, refl)
          (append-nil content),
      reads_all context never chunks k chunks 0 w' refl,
      reads_closed context k s w',
    )
