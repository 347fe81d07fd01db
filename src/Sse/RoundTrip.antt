-- ===== src/Sse/RoundTrip.antt =====
-- The reader reads back what the writer writes (internal/provider/sse_stream.go,
-- internal/api/handler.go).
use model_gate.Prelude.{
  ℕ, zero, suc, ◌+◌, ◌≤◌, ◌≡◌, ◌≢◌, refl, ap, ◌∙◌, arith, true, false, List, [], ◌∷◌, ◌++◌, map,
  append_assoc, append-nil, length, Option, none, some, All, str_eq, length, ltb,
}
use model_gate.Errors.{Error, sentinel, eof, errors_is, Result, ok, err}
use model_gate.Requests.{ChatStreamChunk}
use model_gate.Sse.{
  Chars, byte_count, trim_start, trim_end, trim_chars, drop_cr, join_lines, scan_from,
  max_event_bytes, done_mark, same_chars, keep_unless_blank, classify, SseStream, decode_data,
  finish_event, take_line, read_event, recv, check_chunk,
}
use model_gate.Sse.Writer.{
  StreamAnswer, data_field, frame, streamed, write_chunk, pump, stream_completions,
}

abbrev pub IsPlain : Chars → Type 0
IsPlain cs = All (λ c. (c ≢ 10) × (c ≢ 13)) cs

scan-line :
    (line p rest : Chars)
    → IsPlain p
    → scan_from line (p ++ 10 ∷ rest) ≡ drop_cr (line ++ p) ∷ scan_from [] rest
unfolding scan_from
scan-line [] [] rest plain = rw append-nil
scan-line (l ∷ ls) [] rest plain = rw append-nil
scan-line [] (c ∷ p) rest ((n, r), plain) = ground (arith, n, scan-line ([] ++ c ∷ []) p rest plain)
scan-line (l ∷ ls) (c ∷ p) rest ((n, r), plain) =
    let more = scan-line ((l ∷ ls) ++ c ∷ []) p rest plain in
    let assoc : ((l ∷ ls) ++ c ∷ []) ++ p ≡ (l ∷ ls) ++ c ∷ p = append_assoc (l ∷ ls) (c ∷ []) p in
    ground (arith, n, more, assoc)

drop_cr-IsPlain : (p : Chars) → IsPlain p → drop_cr p ≡ p
unfolding drop_cr
drop_cr-IsPlain [] plain = refl
drop_cr-IsPlain (c ∷ []) ((n, r), plain) = ground (arith, r)
drop_cr-IsPlain (c ∷ d ∷ p) (_, plain) = ap (◌∷◌ c) (drop_cr-IsPlain (d ∷ p) plain)

data_field-IsPlain : (p : Chars) → IsPlain p → IsPlain (data_field ++ p)
data_field-IsPlain p plain =
    let apart : (c : ℕ) → 14 ≤ c → (c ≢ 10) × (c ≢ 13) = λ c le. (omega arith, omega arith) in
    (
      apart b'd' (omega arith),
      (
        apart b'a' (omega arith),
        (
          apart b't' (omega arith),
          (apart b'a' (omega arith), (apart b':' (omega arith), (apart 32 (omega arith), plain))),
        ),
      ),
    )

done_mark-IsPlain : IsPlain done_mark
done_mark-IsPlain =
    let apart : (c : ℕ) → 14 ≤ c → (c ≢ 10) × (c ≢ 13) = λ c le. (omega arith, omega arith) in
    (
      apart b'[' (omega arith),
      (
        apart b'D' (omega arith),
        (
          apart b'O' (omega arith),
          (apart b'N' (omega arith), (apart b'E' (omega arith), (apart b']' (omega arith), tt))),
        ),
      ),
    )

scan-frame :
    (p rest : Chars)
    → IsPlain p
    → scan_from [] (frame p ++ rest) ≡ (data_field ++ p) ∷ [] ∷ scan_from [] rest
unfolding frame drop_cr
scan-frame p rest plain =
    let line = data_field-IsPlain p plain in
    let assoc : (p ++ (10 ∷ 10 ∷ [])) ++ rest ≡ p ++ 10 ∷ 10 ∷ rest =
      append_assoc p (10 ∷ 10 ∷ []) rest in
    let first = scan-line [] (data_field ++ p) (10 ∷ rest) line in
    let same : drop_cr (data_field ++ p) ≡ data_field ++ p =
      drop_cr-IsPlain (data_field ++ p) line in
    ap (λ x. scan_from [] (data_field ++ x)) assoc
    ∙ first
    ∙ ap (λ x. x ∷ scan_from [] (10 ∷ rest)) same
    ∙ ap (λ x. (data_field ++ p) ∷ x) (scan-line [] [] rest tt)

not_done : (q : Chars) → same_chars (trim_chars (b'{' ∷ q)) done_mark ≡ false
unfolding trim_chars trim_start trim_end
not_done q = trimmed-ne (trim_end q)
  where
    trimmed-ne : (r : Chars) → same_chars (keep_unless_blank b'{' r) done_mark ≡ false
    trimmed-ne [] = refl
    trimmed-ne (d ∷ ds) = refl

module _ {C : Type 0} (encode : ChatStreamChunk C → Result Chars)
    (decode : Chars → Result (ChatStreamChunk C)) where
  -- A chunk that the writer can send and that reads back as itself.
  pub record Sendable (chunk : ChatStreamChunk C) : Type 0 where
    pub payload : Chars
    pub tail : Chars
    pub encoded : encode chunk ≡ ok payload
    pub object : payload ≡ b'{' ∷ tail
    pub plain : IsPlain payload
    pub fits : byte_count payload + 8 ≤ max_event_bytes
    pub decoded : decode payload ≡ ok chunk
    pub named : str_eq chunk.id "" ≡ false
    pub typed : str_eq chunk.object "chat.completion.chunk" ≡ true

module _ {W C : Type 0} (context : W → Option Error × W) (alive : (w : W) → context w ≡ (none, w))
    (encode : ChatStreamChunk C → Result Chars) (decode : Chars → Result (ChatStreamChunk C)) where
  byte_count-data_field : (p : Chars) → byte_count (data_field ++ p) ≡ 6 + byte_count p
  unfolding byte_count
  byte_count-data_field p = omega arith

  -- A line, in a context that is not done.
  read_event-line :
      (raw left lines : _) (failure : Option Error) (size : ℕ) (w : W)
      → IsPlain raw
      → size + byte_count raw + 1 ≤ max_event_bytes
      → read_event context decode (raw ∷ left) failure lines size w
        ≡ take_line context decode
            (λ ls n v. read_event context decode left failure ls n v)
            lines
            (size + byte_count raw + 1)
            (classify raw)
            (record { lines = left; failure = failure; done = false })
            w
  unfolding read_event
  read_event-line raw left lines failure size w plain fits =
      let within : ltb max_event_bytes (size + byte_count raw + 1) ≡ false = ground arith in
      rw
        (
          read_event,
          ap (λ x. x.0) (alive w),
          ap (λ x. x.1) (alive w),
          drop_cr-IsPlain raw plain,
          within,
        )
        refl

  read_event-frame :
      (p left : _) (failure : Option Error) (w : W)
      → byte_count p + 8 ≤ max_event_bytes
      → IsPlain p
      → read_event context decode ((data_field ++ p) ∷ [] ∷ left) failure [] 0 w
        ≡ finish_event context decode
            (p ∷ [])
            (record { lines = left; failure = failure; done = false })
            w
  unfolding take_line classify byte_count
  read_event-frame p left failure w fits plain =
      let line = data_field ++ p in
      let size = byte_count-data_field p in
      read_event-line line ([] ∷ left) [] failure 0 w (data_field-IsPlain p plain)
        (omega (arith, size))
      ∙ read_event-line [] left (p ∷ []) failure (0 + byte_count line + 1) w tt
          (omega (arith, size))

  decode_data-Sendable :
      (chunk : ChatStreamChunk C)
      → (p : Chars) → (q : Chars) → p ≡ b'{' ∷ q
      → decode p ≡ ok chunk
      → str_eq chunk.id "" ≡ false
      → str_eq chunk.object "chat.completion.chunk" ≡ true
      → decode_data context decode (p ∷ []) ≡ some (ok chunk)
  unfolding decode_data join_lines check_chunk
  decode_data-Sendable chunk p q e back named typed =
      let begun : same_chars (trim_chars p) done_mark ≡ false = rw (e) (not_done q) in
      rw (decode_data, begun, back, check_chunk, named, typed) refl

  -- One event on the wire is one answer.
  recv-frame :
      (chunk : ChatStreamChunk C) (s : Sendable encode decode chunk) (left : List Chars)
      (failure : Option Error) (w : W)
      → recv context decode
          (record {
            lines = (data_field ++ s.payload) ∷ [] ∷ left;
            failure = failure;
            done = false;
          })
          w
        ≡ (ok chunk, record { lines = left; failure = failure; done = false }, w)
  unfolding recv finish_event
  recv-frame chunk s left failure w =
      let decoded =
        decode_data-Sendable chunk s.payload s.tail s.object s.decoded s.named s.typed in
      read_event-frame s.payload left failure w s.fits s.plain ∙ (rw (finish_event, decoded) refl)

  -- The closing event ends the stream.
  recv-done :
      (left : List Chars) (failure : Option Error) (w : W)
      → recv context decode
          (record {
            lines = (data_field ++ done_mark) ∷ [] ∷ left;
            failure = failure;
            done = false;
          })
          w
        ≡ (err (sentinel eof), record { lines = left; failure = failure; done = true }, w)
  unfolding recv finish_event decode_data join_lines trim_chars trim_start trim_end byte_count
  recv-done left failure w =
      read_event-frame done_mark left failure w (omega arith) done_mark-IsPlain

  -- What a client reads until the first error, in at most `n` calls of Recv.
  go_on :
      (SseStream → W → List (ChatStreamChunk C) × Option Error)
      → Result (ChatStreamChunk C) × SseStream × W
      → List (ChatStreamChunk C) × Option Error
  go_on later (err e, s, w) = ([], some e)
  go_on later (ok chunk, s, w) = (chunk ∷ (later s w).0, (later s w).1)

  pub drain : ℕ → SseStream → W → List (ChatStreamChunk C) × Option Error
  unfolding go_on
  drain zero s w = ([], none)
  drain (suc n) s w = go_on (λ s' w'. drain n s' w') (recv context decode s w)

  abbrev ended : List (Result (ChatStreamChunk C))
  ended = err (sentinel eof) ∷ []

  abbrev pub reader : Chars → SseStream
  reader body = record { lines = scan_from [] body; failure = none; done = false }

  scan-pump :
      (chunk : ChatStreamChunk C) (s : Sendable encode decode chunk)
      (rest : List (Result (ChatStreamChunk C)))
      → scan_from [] (write_chunk encode chunk (pump encode rest))
        ≡ (data_field ++ s.payload) ∷ [] ∷ scan_from [] (pump encode rest)
  unfolding write_chunk
  scan-pump chunk s rest =
      rw (write_chunk, s.encoded) (scan-frame s.payload (pump encode rest) s.plain)

  -- The answers of Recv, by the lines that are left.
  drain-lines :
      (n : ℕ) (left left' : List Chars) (w : W)
      (answer : Result (ChatStreamChunk C) × SseStream × W)
      → left ≡ left'
      → recv context decode (record { lines = left'; failure = none; done = false }) w ≡ answer
      → drain (suc n) (record { lines = left; failure = none; done = false }) w
        ≡ go_on (λ s' w'. drain n s' w') answer
  unfolding drain
  drain-lines n left left' w answer same read = ap (go_on (λ s' w'. drain n s' w')) (
      ap (λ ls. recv context decode (record { lines = ls; failure = none; done = false }) w) same
      ∙ read)

  pump-ended : pump encode ended ≡ frame done_mark ++ []
  unfolding pump errors_is frame
  pump-ended = refl

  drain-pump :
      (chunks : List (ChatStreamChunk C)) (w : W)
      → All (Sendable encode decode) chunks
      → drain (suc (length chunks)) (reader (pump encode (map ok chunks ++ ended))) w
        ≡ (chunks, some (sentinel eof))
  unfolding go_on pump scan_from
  drain-pump [] w all =
      drain-lines 0 (scan_from [] (pump encode ended)) ((data_field ++ done_mark) ∷ [] ∷ []) w _
        (ap (scan_from []) pump-ended ∙ scan-frame done_mark [] done_mark-IsPlain)
        (recv-done [] none w)
  drain-pump (chunk ∷ chunks) w (s, all) =
      let later = map ok chunks ++ ended in
      drain-lines (suc (length chunks)) _
        ((data_field ++ s.payload) ∷ [] ∷ scan_from [] (pump encode later)) w _
        (scan-pump chunk s later) (recv-frame chunk s (scan_from [] (pump encode later)) none w)
      ∙ ap (λ x. (chunk ∷ x.0, x.1)) (drain-pump chunks w all)

  -- What a client reads of an answer, where it is a stream.
  pub read_back : ℕ → Option StreamAnswer → W → Option (List (ChatStreamChunk C) × Option Error)
  unfolding drain
  read_back n (some (streamed body)) w = some (drain n (reader body) w)
  read_back n _ w = none

  -- If a context is never done, and each of at least one chunks is written as JSON that begins with
  -- a brace, has no line end, leaves room in an event and reads back as the chunk, which has an id and
  -- the object of a chunk, then a stream of those chunks that ends well is answered by a body from which
  -- the reader gets the same chunks in the same order, and then io.EOF, in one call of Recv more than
  -- there are chunks.
  pub stream_completions_lem :
      (chunk : ChatStreamChunk C) (chunks : List (ChatStreamChunk C)) (w : W)
      → All (Sendable encode decode) (chunk ∷ chunks)
      → read_back
          (suc (length (chunk ∷ chunks)))
          (stream_completions encode (map ok (chunk ∷ chunks) ++ err (sentinel eof) ∷ []))
          w
        ≡ some (chunk ∷ chunks, some (sentinel eof))
  unfolding read_back stream_completions pump
  stream_completions_lem chunk chunks w all = ap some (drain-pump (chunk ∷ chunks) w all)
