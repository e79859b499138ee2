-- ===== src/Relay/Typing.antt =====
-- What the thread that reads the standard input sends on.
use guyos.Prelude.{
  ℕ, zero, suc, ◌+◌, ◌≡◌, ◌≢◌, refl, ap, ◌∙◌, true, none, List, [], ◌∷◌, ◌++◌, length, Result, ok,
  All, arith,
}
use guyos.Text.{Bytes, Text}
use guyos.Text.Utf8.{is_utf8, is_utf8-append, ascii-is_utf8, from_utf8_eq, from_utf8}
use guyos.Relay.{next_line, input_round, input_loop}

-- A channel that takes so many texts.
abbrev pub taken : ℕ → List (Result (Unit {0}) Text)
taken zero = []
taken (suc n) = ok tt ∷ taken n

abbrev pub IsLine : Text → Type 0
IsLine s = All (λ b. b ≢ 10) s × (is_utf8 s ≡ true)

-- The standard input with these lines, and the texts of the lines.
abbrev pub typed : List Text → Bytes
typed [] = []
typed (line ∷ lines) = line ++ 10 ∷ typed lines

abbrev pub with_line_feeds : List Text → List Text
with_line_feeds [] = []
with_line_feeds (line ∷ lines) = (line ++ 10 ∷ []) ∷ with_line_feeds lines

abbrev pub empty_texts : ℕ → List Text
empty_texts zero = []
empty_texts (suc k) = [] ∷ empty_texts k

next_line_ended :
    (line rest : Bytes)
    → All (λ b. b ≢ 10) line
    → next_line (line ++ 10 ∷ rest) ≡ (line ++ 10 ∷ [], rest)
unfolding next_line
next_line_ended [] rest h = refl
next_line_ended (b ∷ line) rest h = ground (arith, next_line_ended line rest h.1)

loop_text :
    (answers : List (Result (Unit {0}) Text)) (stdin line rest : Bytes)
    → next_line stdin ≡ (line, rest)
    → is_utf8 line ≡ true
    → input_loop (ok tt ∷ answers) stdin
      ≡ (line ∷ (input_loop answers rest).0, (input_loop answers rest).1)
unfolding input_loop
loop_text answers stdin line rest h valid =
    ap (λ p. input_round (ok tt) (input_loop answers p.1) (from_utf8 p.0)) h
    ∙ ap (input_round (ok tt) (input_loop answers rest)) (from_utf8_eq line valid)

line_feed_valid : (line : Text) → is_utf8 line ≡ true → is_utf8 (line ++ 10 ∷ []) ≡ true
line_feed_valid line h = is_utf8-append line (10 ∷ []) h (ascii-is_utf8 (10 ∷ []) (omega arith, tt))

-- At the end of the input each round sends an empty text.
loop_ended : (k : ℕ) → input_loop (taken k) [] ≡ (empty_texts k, none)
unfolding next_line
loop_ended zero = unfold input_loop in refl
loop_ended (suc k) =
    loop_text (taken k) [] [] [] refl (ascii-is_utf8 [] tt)
    ∙ ap (λ r. ([] ∷ r.0, r.1)) (loop_ended k)

more_rounds : (n k : ℕ) → suc n + k ≡ suc (n + k)
more_rounds n k = omega arith

-- While the channel takes them, lines of the standard input that are UTF-8 are sent in order,
-- each with its line feed; and when there are no more the loop does not end: it sends one empty
-- text after the other, as often as the channel takes one.
pub input_loop-typed :
    (lines : List Text) (k : ℕ)
    → All IsLine lines
    → input_loop (taken (length lines + k)) (typed lines)
      ≡ (with_line_feeds lines ++ empty_texts k, none)
input_loop-typed [] k h = ap (λ n. input_loop (taken n) []) zero_rounds ∙ loop_ended k
  where
    zero_rounds : 0 + k ≡ k
    zero_rounds = omega arith
input_loop-typed (line ∷ lines) k (is_line, h) =
    ap (λ n. input_loop (taken n) (typed (line ∷ lines))) (more_rounds (length lines) k)
    ∙ loop_text (taken (length lines + k)) (typed (line ∷ lines)) (line ++ 10 ∷ []) (typed lines)
        (next_line_ended line (typed lines) is_line.0) (line_feed_valid line is_line.1)
    ∙ ap (λ r. ((line ++ 10 ∷ []) ∷ r.0, r.1)) (input_loop-typed lines k h)
