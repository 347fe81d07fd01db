-- ===== src/Sse.antt =====
-- The reader of server-sent events (internal/provider/sse_stream.go).
-- A body is a list of code points. The bufio.Scanner over it is what it still yields: the lines, and
-- then the error of Err, which may also be that a line passes its buffer. The context is a step of
-- the world `W`; JSON is the parameter `decode`.
pub mod Writer
pub mod RoundTrip
use model_gate.Prelude.{
  ℕ, zero, suc, ◌+◌, ◌^◌, Bool, true, false, not, ◌&&◌, ◌||◌, List, [], ◌∷◌, ◌++◌, Option, none,
  some, String, str_eq, ltb, leb, ◌==◌, if◌then◌else◌, is_space,
}
use model_gate.Errors.{Error, sentinel, eof, message, wrapped, Result, ok, err}
use model_gate.Requests.{ChatStreamChunk}

abbrev pub Chars : Type 0
Chars = List ℕ

-- The bytes of a code point in UTF-8, and of a text.
abbrev pub width : ℕ → ℕ
width c = if leb c 0x7f then 1 else if leb c 0x7ff then 2 else if leb c 0xffff then 3 else 4

unfoldable pub byte_count : Chars → ℕ
byte_count [] = 0
byte_count (c ∷ cs) = width c + byte_count cs

-- strings.TrimSpace
unfoldable pub trim_start : Chars → Chars
unfolding is_space
trim_start [] = []
trim_start (c ∷ cs) = if is_space c then trim_start cs else c ∷ cs

abbrev pub keep_unless_blank : ℕ → Chars → Chars
keep_unless_blank c [] = if is_space c then [] else c ∷ []
keep_unless_blank c (d ∷ ds) = c ∷ d ∷ ds

unfoldable pub trim_end : Chars → Chars
unfolding is_space
trim_end [] = []
trim_end (c ∷ cs) = keep_unless_blank c (trim_end cs)

unfoldable pub trim_chars : Chars → Chars
unfolding trim_start trim_end
trim_chars cs = trim_end (trim_start cs)

-- strings.TrimSuffix of a carriage return.
abbrev drop_cr_before : ℕ → Chars → Chars → Chars
drop_cr_before c [] rest = if c == 13 then [] else c ∷ rest
drop_cr_before c (d ∷ ds) rest = c ∷ rest

unfoldable pub drop_cr : Chars → Chars
drop_cr [] = []
drop_cr (c ∷ cs) = drop_cr_before c cs (drop_cr cs)

-- strings.Join with a newline between.
unfoldable pub join_lines : List Chars → Chars
join_lines [] = []
join_lines (l ∷ []) = l
join_lines (l ∷ m ∷ ls) = l ++ 10 ∷ join_lines (m ∷ ls)

-- bufio.ScanLines: the lines of a body, without their end; the last may lack one.
unfoldable pub scan_from : Chars → Chars → List Chars
scan_from [] [] = []
scan_from (d ∷ line) [] = drop_cr (d ∷ line) ∷ []
scan_from line (c ∷ cs) =
    let more = scan_from (line ++ c ∷ []) cs in
    let next = scan_from [] cs in if c == 10 then drop_cr line ∷ next else more

abbrev pub max_event_bytes : ℕ
max_event_bytes = 2 ^ 20

abbrev pub done_mark : Chars
done_mark = b'[' ∷ b'D' ∷ b'O' ∷ b'N' ∷ b'E' ∷ b']' ∷ []

abbrev pub same_chars : Chars → Chars → Bool
same_chars [] [] = true
same_chars (c ∷ cs) (d ∷ ds) = c == d && same_chars cs ds
same_chars _ _ = false

-- What a line is to the reader.
pub data Line : Type 0 where
  blank skipped : Line
  value : Chars → Line

-- strings.TrimPrefix of one space.
abbrev drop_space : Chars → Chars
drop_space [] = []
drop_space (c ∷ cs) = if c == 32 then cs else c ∷ cs

-- `field` is what stands before the first colon: "data" and nothing else counts.
unfoldable pub classify : Chars → Line
classify [] = blank
classify (a ∷ b ∷ c ∷ d ∷ e ∷ cs) =
    if a == b'd' && b == b'a' && c == b't' && d == b'a' && e == b':'
    then value (drop_space cs)
    else skipped
classify _ = skipped

-- sseStream, with what its scanner still yields.
pub record SseStream : Type 0 where
  pub lines : List Chars
  pub failure : Option Error
  pub done : Bool

module _ {W C : Type 0} (context : W → Option Error × W)
    (decode : Chars → Result (ChatStreamChunk C)) where
  abbrev pub Received : Type 0
  Received = Result (ChatStreamChunk C) × SseStream × W

  check_chunk : Result (ChatStreamChunk C) → Result (ChatStreamChunk C)
  check_chunk (err e) = err (wrapped "decode SSE chunk" e)
  check_chunk (ok chunk) =
      if str_eq chunk.id "" || not (str_eq chunk.object "chat.completion.chunk")
      then err (message "provider returned an incomplete SSE chunk")
      else ok chunk

  -- decodeSSEData; `none` is io.EOF.
  unfoldable pub decode_data : List Chars → Option (Result (ChatStreamChunk C))
  unfolding check_chunk
  decode_data lines =
      let text = join_lines lines in
      if same_chars (trim_chars text) done_mark then none else some (check_chunk (decode text))

  -- decode
  finish_event : List Chars → SseStream → W → Received
  unfolding decode_data
  finish_event lines s w = elim (decode_data lines) [
    | none ↦ (err (sentinel eof), record s { done = true }, w)
    | some r ↦ (r, s, w)
  ]

  -- The end of the scanner.
  at_end : List Chars → Option Error → W → Received
  unfolding finish_event
  at_end [] none w = (err (sentinel eof), record { lines = []; failure = none; done = true }, w)
  at_end (l ∷ ls) none w =
      finish_event (l ∷ ls) (record { lines = []; failure = none; done = false }) w
  at_end lines (some e) w =
      let (ended, w') = context w in
      let s : SseStream = record { lines = []; failure = some e; done = false } in
      elim ended [ some c ↦ (err c, s, w') | none ↦ (err (wrapped "read SSE stream" e), s, w') ]

  -- A line that has passed the check of its length; `rest` is the rest of the loop.
  take_line : (List Chars → ℕ → W → Received) → List Chars → ℕ → Line → SseStream → W → Received
  unfolding finish_event
  take_line rest [] size blank s w = rest [] 0 w
  take_line rest (l ∷ ls) size blank s w = finish_event (l ∷ ls) s w
  take_line rest lines size skipped s w = rest lines size w
  take_line rest lines size (value v) s w = rest (lines ++ v ∷ []) size w

  -- The loop of Recv over the lines that are left, with the event so far.
  read_event : List Chars → Option Error → List Chars → ℕ → W → Received
  unfolding at_end take_line drop_cr classify
  read_event [] failure lines size w =
      let (ended, w') = context w in
      elim ended [
        | some c ↦ (err c, record { lines = []; failure = failure; done = false }, w')
        | none ↦ at_end lines failure w'
      ]
  read_event (raw ∷ left) failure lines size w =
      let (ended, w') = context w in
      let line = drop_cr raw in
      let size' = size + byte_count line + 1 in
      let s : SseStream = record { lines = left; failure = failure; done = false } in
      let next =
        take_line (λ ls n v. read_event left failure ls n v) lines size' (classify line) s w' in
      elim ended [
        | some c ↦ (err c, record { lines = raw ∷ left; failure = failure; done = false }, w')
        | none ↦
            if ltb max_event_bytes size'
            then (err (message "SSE event exceeds 1048576 bytes"), s, w')
            else next
      ]

  -- Recv
  unfoldable pub recv : SseStream → W → Received
  unfolding read_event
  recv s w =
      let event = read_event s.lines s.failure [] 0 w in
      if s.done then (err (sentinel eof), s, w) else event
