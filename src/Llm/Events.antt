-- ===== src/Llm/Events.antt =====
-- The end of an event, and that more bytes do not move it.
use guyos.Prelude.{
  ℕ, ◌≡◌, ◌↔◌, take-append_length, drop-append_length, Option-cases, refl, sym, ap, ◌∙◌, none, some,
  [], ◌∷◌, ◌++◌, drop, if◌then◌else◌, append_assoc, arith, inl, inr,
}
use guyos.Text.{Bytes}
use guyos.Llm.{is_crlf_delimiter, is_lf_delimiter, find_event_delimiter, take_event}
use guyos.Llm.Search.{IsDelimiter, NoDelimiter, First, find_event_inv, find_event-First}

-- What the code drains behind the event is the delimiter.
drop_delimiter :
    (d rest : Bytes)
    → IsDelimiter d
    → drop (if is_crlf_delimiter (d ++ rest) then 4 else 2) (d ++ rest) ≡ rest
unfolding is_crlf_delimiter
drop_delimiter d rest (inl e) = rw e refl
drop_delimiter d [] (inr e) = rw e refl
drop_delimiter d (a ∷ []) (inr e) = rw e refl
drop_delimiter d (a ∷ b ∷ rest) (inr e) = rw e refl

pub take_event-First :
    (front d rest : Bytes)
    → IsDelimiter d
    → First front (d ++ rest)
    → take_event (front ++ (d ++ rest)) ≡ some (front, rest)
unfolding take_event
take_event-First front d rest delim first =
    rw
      (
        take_event,
        find_event-First front d rest delim first,
        take-append_length,
        drop-append_length,
        drop_delimiter d rest delim,
      )
      refl

take_event-none : (buf : Bytes) → find_event_delimiter buf ≡ none → take_event buf ≡ none
unfolding take_event
take_event-none buf h = rw (take_event, h) refl

-- The buffer gives up an event exactly when a delimiter is in it, two line feeds or two pairs of
-- CR and LF: the event is what stands before the first place where a delimiter begins, and what
-- is left begins behind that delimiter.
pub take_event_iff :
    (buf event rest : Bytes)
    → (take_event buf ≡ some (event, rest))
      ↔ ((d : Bytes) × IsDelimiter d × (buf ≡ event ++ (d ++ rest)) × First event (d ++ rest))
take_event_iff buf event rest =
    (taken buf event rest, λ h. ap take_event h.2 ∙ take_event-First event h.0 rest h.1 h.3)
  where
    taken :
        (buf event rest : Bytes)
        → take_event buf ≡ some (event, rest)
        → (d : Bytes) × IsDelimiter d × (buf ≡ event ++ (d ++ rest)) × First event (d ++ rest)
    taken buf event rest h = elim (Option-cases (find_event_delimiter buf)) [
      | inl e ↦ absurd (ground (arith, take_event-none buf e))
      | inr (j, e) ↦
          let (front, d, left, delim, buf_eq, j_eq, first) = find_event_inv buf j e in
          let same : some (front, left) ≡ some (event, rest) =
            sym (take_event-First front d left delim first) ∙ ap take_event (sym buf_eq) ∙ h in
          let front_eq : front ≡ event = cc same in
          let left_eq : left ≡ rest = cc same in
          (d, delim, buf_eq ∙ rw (front_eq, left_eq) refl, rw (front_eq, left_eq) at first)
    ]

-- More bytes behind a delimiter make no delimiter begin before it.
miss_more :
    (b : ℕ) (front d rest more : Bytes)
    → IsDelimiter d
    → NoDelimiter ((b ∷ front) ++ (d ++ rest))
    → NoDelimiter ((b ∷ front) ++ (d ++ (rest ++ more)))
unfolding is_crlf_delimiter is_lf_delimiter
miss_more b [] d rest more (inl e) h = ground (arith, e)
miss_more b (x ∷ []) d rest more (inl e) h = ground (arith, e)
miss_more b (x ∷ y ∷ []) d rest more (inl e) h = ground (arith, e)
miss_more b (x ∷ y ∷ z ∷ front) d rest more (inl e) h = h
miss_more b [] d [] [] (inr e) h = ground (arith, e)
miss_more b [] d [] (m ∷ more) (inr e) h = ground (arith, e)
miss_more b [] d (r ∷ rest) more (inr e) h = ground (arith, e)
miss_more b (x ∷ []) d rest more (inr e) h = ground (arith, e)
miss_more b (x ∷ y ∷ []) d rest more (inr e) h = ground (arith, e)
miss_more b (x ∷ y ∷ z ∷ front) d rest more (inr e) h = h

First-more :
    (front d rest more : Bytes)
    → IsDelimiter d
    → First front (d ++ rest)
    → First front (d ++ (rest ++ more))
First-more [] d rest more delim first = tt
First-more (b ∷ front) d rest more delim (miss, first) =
    (miss_more b front d rest more delim miss, First-more front d rest more delim first)

-- An event that the buffer gives up does not depend on how many bytes have arrived behind it:
-- with more bytes in the buffer the same event comes, and the new bytes stand behind the others.
pub take_event-append :
    (buf event rest more : Bytes)
    → take_event buf ≡ some (event, rest)
    → take_event (buf ++ more) ≡ some (event, rest ++ more)
take_event-append buf event rest more h =
    let (d, delim, e, first) = (take_event_iff buf event rest).0 h in
    ap (λ l. take_event (l ++ more)) e
    ∙ ap take_event
        (append_assoc event (d ++ rest) more ∙ ap (λ l. event ++ l) (append_assoc d rest more))
    ∙ take_event-First event d (rest ++ more) delim (First-more event d rest more delim first)
