-- ===== src/Llm/Client/Tests.antt =====
-- A relay that streams, over a server that answers every request with two chunks.
use guyos.Prelude.{
  ℕ, ◌+◌, ◌≡◌, ◌∙◌, ap, append-nil, refl, arith, true, false, none, some, List, [], ◌∷◌, ◌++◌,
  Result, ok, err, inl,
}
use guyos.Text.{Text, Bytes, lit}
use guyos.Text.Utf8.{is_utf8, lead}
use guyos.Session.{Poll, ready, pending}
use guyos.Llm.{
  take_event, find_event_delimiter, is_crlf_delimiter, is_lf_delimiter, LlmRelayConfig, delta_text,
  done,
}
use guyos.Llm.Reply.{Says}
use guyos.Llm.Sse.{ChatCompletionsChunk}
use guyos.Llm.Sse.Draining.{events}
use guyos.Llm.Sse.Polling.{bytes_of}
use guyos.Llm.Sse.Waking.{Timely}
use guyos.Llm.Sse.Served.{Piece, served, done_line, events-served}
use guyos.Llm.Client.{LlmCrates, run_streaming_reply}
use guyos.Llm.Client.Relayed.{run_streaming_reply-told}

-- A reader for which the content stands between the braces.
abbrev inside : Text → Text
inside [] = []
inside (b ∷ []) = []
inside (b ∷ c ∷ s) = b ∷ inside (c ∷ s)

abbrev from_str : Text → Result ChatCompletionsChunk Text
from_str [] = err []
from_str (b ∷ s) =
    ok (record { choices = record { delta = record { content = some (inside s) } } ∷ [] })

hi_valid : is_utf8 (b'{' ∷ b'H' ∷ b'i' ∷ b'}' ∷ []) ≡ true
unfolding is_utf8 lead
hi_valid = refl

abbrev piece : Piece from_str
piece = record {
  mid = b'H' ∷ b'i' ∷ [];
  content = b'H' ∷ b'i' ∷ [];
  delimiter = 13 ∷ 10 ∷ 13 ∷ 10 ∷ [];
  is_delimiter = inl refl;
  is_chunk = (
    record { choices = record { delta = record { content = some (b'H' ∷ b'i' ∷ []) } } ∷ [] },
    refl,
    refl,
    (omega arith, (omega arith, (omega arith, (omega arith, tt)))),
    hi_valid,
  );
}

abbrev pieces : List (Piece from_str)
pieces = piece ∷ piece ∷ []

abbrev crlf : Bytes
crlf = 13 ∷ 10 ∷ 13 ∷ 10 ∷ []

abbrev body : List (Poll Bytes)
body = pending ∷ ready (served from_str pieces (done_line ++ (crlf ++ []))) ∷ []

abbrev server : LlmCrates
server = record {
  Url = Text;
  parse = λ s. some s;
  cannot_be_a_base = λ u. false;
  pop_if_empty = λ u. u;
  extend = λ u segments. u;
  post = λ u req.
      some (record { status = 200; text = none; json = none; arrivals = body; ending = none });
  from_str = from_str;
}

abbrev cfg : LlmRelayConfig
cfg = record {
  assistant_name = b'a' ∷ [];
  base_url = b'u' ∷ [];
  model = b'm' ∷ [];
  system_prompt = none;
  context = 2;
  stream = true;
  stream_chunk_min_chars = 2;
  stream_interval = 10;
}

abbrev clock : ℕ → ℕ
clock i = 10 + i

body_events :
    events from_str (bytes_of body)
    ≡ ok (delta_text (b'H' ∷ b'i' ∷ [])) ∷ ok (delta_text (b'H' ∷ b'i' ∷ [])) ∷ ok done ∷ []
unfolding events
body_events = ap (events from_str) (append-nil _) ∙ events-served from_str pieces crlf [] (inl refl)

body_Timely : Timely [] body
unfolding take_event find_event_delimiter is_crlf_delimiter is_lf_delimiter lit
body_Timely = (λ e. cc, tt)

run_streaming_reply-told_example :
    (outs : List Text) × (run_streaming_reply server cfg 5 clock clock 7 [] ≡ some (ok tt, outs))
    × Says false outs (b'H' ∷ b'i' ∷ b'H' ∷ b'i' ∷ [])
run_streaming_reply-told_example =
    run_streaming_reply-told server cfg 5 clock clock [] _ pieces crlf [] 7 refl
      (b'u' ∷ [], refl, refl, refl, omega arith, omega arith) (inl refl) (append-nil _) body_Timely
      (rw body_events (omega arith))
