-- ===== src/Llm/Client/Relayed.antt =====
-- What the relay of guyos_core/src/llm.rs sends on of an answer.
use guyos.Prelude.{
  ℕ, ◌+◌, ◌≤◌, ◌≡◌, refl, ap, ◌∙◌, inl, inr, Bool, true, false, Bool-cases, some, List, [], ◌∷◌,
  ◌++◌, length, ok, subst,
}
use guyos.Text.{Bytes, Text}
use guyos.Llm.{
  HistoryMessage, LlmRelayConfig, ClockedItem, delta_text, done, reply_loop, stream_reply,
  first_last_send,
}
use guyos.Llm.Reply.{said, loop_done, loop_send, loop_keep, due, Says, stream_reply-Says}
use guyos.Llm.Search.{IsDelimiter}
use guyos.Llm.Sse.{Item, new_sse}
use guyos.Llm.Sse.Draining.{events}
use guyos.Llm.Sse.Polling.{bytes_of, ending_items}
use guyos.Llm.Sse.Waking.{Timely, await_times, await_times-events}
use guyos.Llm.Sse.Served.{Piece, served, items_of, done_line, events-served}
use guyos.Llm.Client.Calling.{Answers, asked, call_ok, stream_ok, run_streamed}
use guyos.Llm.Client.{
  LlmCrates, HttpAnswer, bytes_stream, clocked, any_last, reply_to, run_streaming_reply,
}

module _ (L : LlmCrates) where
  -- The text of the pieces.
  abbrev pub told : List (Piece L.from_str) → Text
  told [] = []
  told (p ∷ ps) = p.content ++ told ps

  said-told :
      (checked_at sent_at : ℕ → ℕ) (ps : List (Piece L.from_str)) (i : ℕ) (more : List Item)
      → said (clocked L checked_at sent_at i (items_of L.from_str ps (ok done ∷ more))) ≡ told ps
  said-told checked_at sent_at [] i more = refl
  said-told checked_at sent_at (p ∷ ps) i more =
      ap (λ t. p.content ++ t) (said-told checked_at sent_at ps (i + 1) more)

  last-told :
      (ps : List (Piece L.from_str)) (more : List Item)
      → any_last L (items_of L.from_str ps (ok done ∷ more)) ≡ true
  last-told [] more = refl
  last-told (p ∷ ps) more = last-told ps more

  items-append :
      (ps : List (Piece L.from_str)) (more after : List Item)
      → items_of L.from_str ps (ok done ∷ more) ++ after
        ≡ items_of L.from_str ps (ok done ∷ (more ++ after))
  items-append [] more after = refl
  items-append (p ∷ ps) more after =
      ap (λ l. ok (delta_text p.content) ∷ l) (items-append ps more after)

  -- A reply that meets the end ends well.
  reply_ok :
      (cfg : LlmRelayConfig) (checked_at sent_at : ℕ → ℕ) (ps : List (Piece L.from_str))
      (more : List Item) (i : ℕ) (acc : Text) (last : ℕ) (any : Bool)
      → (reply_loop cfg acc last any
          (clocked L checked_at sent_at i (items_of L.from_str ps (ok done ∷ more)))).0
        ≡ ok tt
  reply_ok cfg checked_at sent_at [] more i acc last any =
      ap (λ r. r.0) (loop_done cfg acc last any _ _ refl)
  reply_ok cfg checked_at sent_at (p ∷ ps) more i acc last any =
      let evs = clocked L checked_at sent_at (i + 1) (items_of L.from_str ps (ok done ∷ more)) in
      let ev : ClockedItem = record {
        item = ok (delta_text p.content);
        checked_at = checked_at i;
        sent_at = sent_at i;
      } in
      elim (Bool-cases (due cfg acc last any ev evs p.content refl)) [
        | inl d ↦
            ap (λ r. r.0) (loop_send cfg acc last any ev evs p.content refl d)
            ∙ reply_ok cfg checked_at sent_at ps more (i + 1) [] (sent_at i) true
        | inr d ↦
            ap (λ r. r.0) (loop_keep cfg acc last any ev evs p.content refl d)
            ∙ reply_ok cfg checked_at sent_at ps more (i + 1) (acc ++ p.content) last any
      ]

  module _ (cfg : LlmRelayConfig) (now : ℕ) (checked_at sent_at : ℕ → ℕ) where
    reply_last :
        (items : List Item) (end : Bool)
        → any_last L items ≡ true
        → reply_to L cfg now checked_at sent_at (items, end)
          ≡ some (stream_reply cfg now (clocked L checked_at sent_at 0 items))
    reply_last items end h = rw h refl

    reply_told :
        (ps : List (Piece L.from_str)) (more : List Item)
        → (outs : List Text) × (reply_to L cfg now checked_at sent_at
              (items_of L.from_str ps (ok done ∷ more), true)
            ≡ some (ok tt, outs))
          × Says false outs (told ps)
    unfolding stream_reply
    reply_told ps more =
        let evs = clocked L checked_at sent_at 0 (items_of L.from_str ps (ok done ∷ more)) in
        let outs = (stream_reply cfg now evs).1 in
        let whole : stream_reply cfg now evs ≡ (ok tt, outs) =
          ap (λ r. (r, outs))
            (reply_ok cfg checked_at sent_at ps more 0 [] (first_last_send cfg now) false) in
        (
          outs,
          reply_last (items_of L.from_str ps (ok done ∷ more)) true (last-told ps more)
              ∙ ap some whole,
          subst (λ t. Says false outs t) (said-told checked_at sent_at ps 0 more)
              (stream_reply-Says cfg now evs outs whole),
        )

    -- A server that answers the request of a streaming relay, at `chat/completions` under the URL
    -- of the relay, with a success and with chunks, each an event of one line of UTF-8, and with
    -- the event that ends them is relayed whole, whatever follows, if each piece of bytes that
    -- arrives completes an event, however it is delayed: with a poll for each arrival and each
    -- event and two more, each poll behind an item or a wake, the reply ends without an error,
    -- and what it sends is the text of all the chunks, in order, in pieces marked as partial or
    -- as one unmarked text.
    pub run_streaming_reply-told :
        (history : List HistoryMessage) (resp : HttpAnswer) (ps : List (Piece L.from_str))
        (d rest : Bytes) (polls : ℕ)
        → cfg.stream ≡ true
        → Answers L cfg.base_url (asked cfg history true) resp
        → IsDelimiter d
        → bytes_of resp.arrivals ≡ served L.from_str ps (done_line ++ (d ++ rest))
        → Timely [] resp.arrivals
        → length resp.arrivals + length (events L.from_str (bytes_of resp.arrivals)) + 2 ≤ polls
        → (outs : List Text) × (run_streaming_reply L cfg now checked_at sent_at polls history
            ≡ some (ok tt, outs))
          × Says false outs (told ps)
    run_streaming_reply-told history resp ps d rest polls streams answers delim bytes timely
          enough =
        let items =
          items_of L.from_str ps (ok done ∷ (events L.from_str rest ++ ending_items resp.ending)) in
        let polled : await_times L.from_str polls (new_sse (bytes_stream resp)) ≡ (items, true) =
          await_times-events L.from_str polls resp.arrivals resp.ending enough timely
          ∙ ap (λ l. (l ++ ending_items resp.ending, true))
              (ap (events L.from_str) bytes ∙ events-served L.from_str ps d rest delim)
          ∙ ap (λ l. (l, true))
              (items-append ps (events L.from_str rest) (ending_items resp.ending)) in
        let (outs, e, says) = reply_told ps (events L.from_str rest ++ ending_items resp.ending) in
        (
          outs,
          run_streamed L cfg now checked_at sent_at polls history (ok (new_sse (bytes_stream resp)))
                streams (stream_ok L cfg.base_url _ resp (call_ok L cfg.base_url _ resp answers))
              ∙ ap (reply_to L cfg now checked_at sent_at) polled
              ∙ e,
          says,
        )
