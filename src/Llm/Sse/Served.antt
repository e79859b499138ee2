-- ===== src/Llm/Sse/Served.antt =====
-- The events of an answer as servers write it: one line with a chunk for each piece of text, and a blank
-- line behind it.
use guyos.Prelude.{
  ℕ, ◌≡◌, ◌≢◌, refl, ap, ◌∙◌, inl, inr, false, true, ◌<◌, some, List, [], ◌∷◌, ◌++◌, arith, Result,
  ok, All, All-append,
}
use guyos.Text.{Bytes, Text, lit, text_eq}
use guyos.Text.Utf8.{is_utf8, is_utf8-append, ascii-is_utf8}
use guyos.Text.Lossy.{from_utf8_lossy_valid}
use guyos.Text.Lines.{
  lines, lines-one, trim_end_cr, trim_end_cr_kept, strip_prefix, strip_prefix-append,
}
use guyos.Text.Trim.{trim, trim_graphic}
use guyos.Llm.{delta_text, done, is_crlf_delimiter, is_lf_delimiter, take_event}
use guyos.Llm.Search.{IsDelimiter, First}
use guyos.Llm.Events.{take_event-First}
use guyos.Llm.Sse.{
  ChatCompletionsChunk, Item, first_content, chunk_item, data_item, line_item, lines_item,
  parse_event,
}
use guyos.Llm.Sse.Draining.{events, events-some}

abbrev NoLineFeed : Text → Type 0
NoLineFeed s = All (λ b. b ≢ 10) s

crlf_second : (b c : ℕ) (s : Bytes) → c ≢ 10 → is_crlf_delimiter (b ∷ c ∷ s) ≡ false
unfolding is_crlf_delimiter
crlf_second b c [] h = refl
crlf_second b c (d ∷ []) h = refl
crlf_second b c (d ∷ e ∷ s) h = ground arith

crlf_third : (b c : ℕ) (s : Bytes) → is_crlf_delimiter (b ∷ c ∷ 10 ∷ s) ≡ false
unfolding is_crlf_delimiter
crlf_third b c [] = refl
crlf_third b c (d ∷ s) = ground arith

lf_first : (b : ℕ) (s : Bytes) → b ≢ 10 → is_lf_delimiter (b ∷ s) ≡ false
unfolding is_lf_delimiter
lf_first b [] h = refl
lf_first b (c ∷ s) h = ground arith

-- No delimiter begins in a text without a line feed.
NoLineFeed-First :
    (front d rest : Bytes) → IsDelimiter d → NoLineFeed front → First front (d ++ rest)
NoLineFeed-First [] d rest delim h = tt
NoLineFeed-First (b ∷ []) d rest (inl e) h =
    rw e ((crlf_second b 13 (10 ∷ 13 ∷ 10 ∷ rest) (omega arith), lf_first b _ h.0), tt)
NoLineFeed-First (b ∷ []) d rest (inr e) h = rw e ((crlf_third b 10 rest, lf_first b _ h.0), tt)
NoLineFeed-First (b ∷ c ∷ front) d rest delim h = (
  (crlf_second b c (front ++ (d ++ rest)) h.1.0, lf_first b _ h.0),
  NoLineFeed-First (c ∷ front) d rest delim h.1,
)

abbrev data_prefix : Text
data_prefix = lit "data: "

-- The JSON text of an object in one line, between its braces.
abbrev pub braced : Text → Text
braced mid = b'{' ∷ (mid ++ b'}' ∷ [])

prefix_ascii : All (λ b. b < 128) data_prefix
unfolding lit
prefix_ascii =
    (omega arith, (omega arith, (omega arith, (omega arith, (omega arith, (omega arith, tt))))))

prefix_feedless : NoLineFeed data_prefix
unfolding lit
prefix_feedless =
    (omega arith, (omega arith, (omega arith, (omega arith, (omega arith, (omega arith, tt))))))

abbrev pub done_line : Text
done_line = lit "data: [DONE]"

done_ascii : All (λ b. b < 128) (lit "[DONE]")
unfolding lit
done_ascii =
    (omega arith, (omega arith, (omega arith, (omega arith, (omega arith, (omega arith, tt))))))

done_feedless : NoLineFeed done_line
unfolding lit
done_feedless =
    All-append (λ b. b ≢ 10) data_prefix (lit "[DONE]") prefix_feedless
      (omega arith, (omega arith, (omega arith, (omega arith, (omega arith, (omega arith, tt))))))

lines_prefixed :
    (s : Text) → NoLineFeed (data_prefix ++ s) → lines (data_prefix ++ s) ≡ (data_prefix ++ s) ∷ []
unfolding lit
lines_prefixed s h = lines-one b'd' (b'a' ∷ b't' ∷ b'a' ∷ b':' ∷ b' ' ∷ s) h

module _ (from_str : Text → Result ChatCompletionsChunk Text) where
  -- An event of one line that gives an item.
  parse_line :
      (line : Text) (item : Item)
      → is_utf8 line ≡ true
      → lines line ≡ line ∷ []
      → line_item from_str line ≡ some item
      → parse_event from_str line ≡ item
  unfolding parse_event lines_item
  parse_line line item valid one h =
      rw (parse_event, from_utf8_lossy_valid line valid, one, lines_item, h) refl

  line_stripped :
      (line rest : Text)
      → strip_prefix (lit "data:") (trim_end_cr line) ≡ some rest
      → line_item from_str line ≡ data_item from_str (trim rest)
  unfolding line_item
  line_stripped line rest h = rw (line_item, h) refl

  strip_braced :
      (mid : Text)
      → strip_prefix (lit "data:") (trim_end_cr (data_prefix ++ braced mid))
        ≡ some (b' ' ∷ braced mid)
  unfolding lit
  strip_braced mid =
      ap (strip_prefix (lit "data:"))
        (trim_end_cr_kept (data_prefix ++ b'{' ∷ mid) b'}' (omega arith))
      ∙ strip_prefix-append (lit "data:") (b' ' ∷ braced mid)

  line_braced :
      (mid : Text)
      → line_item from_str (data_prefix ++ braced mid) ≡ data_item from_str (braced mid)
  line_braced mid =
      line_stripped (data_prefix ++ braced mid) (b' ' ∷ braced mid) (strip_braced mid)
      ∙ ap (data_item from_str)
          (trim_graphic b'{' b'}' mid (omega arith, omega arith) (omega arith, omega arith))

  -- A chunk with this text in its first choice, as one line of UTF-8.
  abbrev pub IsChunk : Text → Text → Type 0
  IsChunk mid content =
      (chunk : ChatCompletionsChunk) × (from_str (braced mid) ≡ ok chunk)
      × (first_content chunk.choices ≡ some content)
      × NoLineFeed (braced mid)
      × (is_utf8 (braced mid) ≡ true)

  data_chunk :
      (mid content : Text)
      → IsChunk mid content
      → data_item from_str (braced mid) ≡ some (ok (delta_text content))
  unfolding data_item lit text_eq
  data_chunk mid content (chunk, parsed, first, line, valid) =
      rw (data_item, parsed, chunk_item, first) refl

  module _ (mid content : Text) (h : IsChunk mid content) where
    line_valid : is_utf8 (data_prefix ++ braced mid) ≡ true
    line_valid =
        is_utf8-append data_prefix (braced mid) (ascii-is_utf8 data_prefix prefix_ascii) h.4

    line_feedless : NoLineFeed (data_prefix ++ braced mid)
    line_feedless = All-append (λ b. b ≢ 10) data_prefix (braced mid) prefix_feedless h.3

    parse_chunk : parse_event from_str (data_prefix ++ braced mid) ≡ ok (delta_text content)
    parse_chunk =
        parse_line (data_prefix ++ braced mid) (ok (delta_text content)) line_valid
          (lines_prefixed (braced mid) line_feedless) (line_braced mid ∙ data_chunk mid content h)

  strip_done : strip_prefix (lit "data:") (trim_end_cr done_line) ≡ some (lit " [DONE]")
  unfolding lit strip_prefix trim_end_cr
  strip_done = refl

  data_done : data_item from_str (lit "[DONE]") ≡ some (ok done)
  unfolding data_item lit text_eq
  data_done = refl

  line_done : line_item from_str done_line ≡ some (ok done)
  unfolding lit
  line_done =
      line_stripped done_line (lit " [DONE]") strip_done
      ∙ ap (data_item from_str) (
          trim_graphic b'[' b']' (lit "DONE") (omega arith, omega arith) (omega arith, omega arith))
      ∙ data_done

  parse_done : parse_event from_str done_line ≡ ok done
  unfolding lit
  parse_done =
      parse_line done_line (ok done)
        (ascii-is_utf8 done_line
          (All-append (λ b. b < 128) data_prefix (lit "[DONE]") prefix_ascii done_ascii))
        (lines_prefixed (lit "[DONE]") done_feedless) line_done

  -- What the server writes for each piece: the JSON text, its text and the blank line.
  pub record Piece : Type 0 where
    pub mid : Text
    pub content : Text
    pub delimiter : Bytes
    pub is_delimiter : IsDelimiter delimiter
    pub is_chunk : IsChunk mid content

  abbrev pub served : List Piece → Bytes → Bytes
  served [] last = last
  served (p ∷ ps) last = (data_prefix ++ braced p.mid) ++ (p.delimiter ++ served ps last)

  abbrev pub items_of : List Piece → List Item → List Item
  items_of [] last = last
  items_of (p ∷ ps) last = ok (delta_text p.content) ∷ items_of ps last

  take_line :
      (line d rest : Bytes)
      → IsDelimiter d
      → NoLineFeed line
      → take_event (line ++ (d ++ rest)) ≡ some (line, rest)
  take_line line d rest delim h =
      take_event-First line d rest delim (NoLineFeed-First line d rest delim h)

  events_line :
      (line d rest : Bytes) (item : Item)
      → IsDelimiter d
      → NoLineFeed line
      → parse_event from_str line ≡ item
      → events from_str (line ++ (d ++ rest)) ≡ item ∷ events from_str rest
  events_line line d rest item delim h k =
      events-some from_str (line ++ (d ++ rest)) line rest (take_line line d rest delim h)
      ∙ ap (λ i. i ∷ events from_str rest) k

  events-served_then :
      (ps : List Piece) (last : Bytes)
      → events from_str (served ps last) ≡ items_of ps (events from_str last)
  events-served_then [] last = refl
  events-served_then (p ∷ ps) last =
      events_line (data_prefix ++ braced p.mid) p.delimiter (served ps last)
        (ok (delta_text p.content)) p.is_delimiter (line_feedless p.mid p.content p.is_chunk)
        (parse_chunk p.mid p.content p.is_chunk)
      ∙ ap (λ l. ok (delta_text p.content) ∷ l) (events-served_then ps last)

  -- The events of an answer: a piece of text for each chunk, and the end behind them.
  pub events-served :
      (ps : List Piece) (d rest : Bytes)
      → IsDelimiter d
      → events from_str (served ps (done_line ++ (d ++ rest)))
        ≡ items_of ps (ok done ∷ events from_str rest)
  events-served ps d rest delim =
      events-served_then ps (done_line ++ (d ++ rest))
      ∙ ap (items_of ps) (events_line done_line d rest (ok done) delim done_feedless parse_done)
