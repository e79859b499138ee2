-- ===== src/Llm/Reply.antt =====
-- What a streamed reply says in all.
use guyos.Prelude.{
  ℕ, ◌≡◌, ◌⊎◌, inl, inr, refl, subst, Result-cases, sym, ap, ◌∙◌, Bool, true, false, List, [], ◌∷◌,
  ◌++◌, append-nil, append_assoc, ok, err, arith, Bool-cases, leb, ◌&&◌, ◌-◌, length,
}
use guyos.Text.{Text}
use guyos.Llm.{
  LlmRelayConfig, delta_text, done, ClockedItem, partial, flush, reply_loop, stream_reply,
}

-- The text of the deltas up to the end of the stream or the item that ends it.
abbrev pub said : List ClockedItem → Text
said [] = []
said (ev ∷ evs) =
    let rest = said evs in
    elim ev.item [ ok (delta_text delta) ↦ delta ++ rest | ok done ↦ [] | err e ↦ [] ]

-- The texts are the pieces of `t` in order, each marked as partial.
abbrev pub InPieces : List Text → Text → Type 0
InPieces [] t = t ≡ []
InPieces (o ∷ os) t = (p : Text) × (q : Text) × (o ≡ partial p) × (t ≡ p ++ q) × InPieces os q

-- The texts are `t` in pieces, or `t` itself when no piece has been sent.
abbrev pub Says : Bool → List Text → Text → Type 0
Says true outs t = InPieces outs t
Says false outs t = InPieces outs t ⊎ (outs ≡ t ∷ [])

flush-Says : (any : Bool) (acc : Text) → Says any (flush any acc) acc
unfolding flush
flush-Says true [] = refl
flush-Says true (b ∷ acc) = (b ∷ acc, [], refl, sym (append-nil (b ∷ acc)), refl)
flush-Says false [] = inl refl
flush-Says false (b ∷ acc) = inr refl

module _ (cfg : LlmRelayConfig) (acc : Text) (last_send : ℕ) (any : Bool) (ev : ClockedItem)
    (evs : List ClockedItem) where
  pub loop_err :
      (e : Text) → ev.item ≡ err e → reply_loop cfg acc last_send any (ev ∷ evs) ≡ (err e, [])
  unfolding reply_loop
  loop_err e h = rw h refl

  pub loop_done :
      ev.item ≡ ok done → reply_loop cfg acc last_send any (ev ∷ evs) ≡ (ok tt, flush any acc)
  unfolding reply_loop
  loop_done h = rw h refl

  pub said_done : ev.item ≡ ok done → said (ev ∷ evs) ≡ []
  said_done h = rw h refl

  module _ (delta : Text) (h : ev.item ≡ ok (delta_text delta)) where
    abbrev pub due : Bool
    due =
        leb cfg.stream_chunk_min_chars (length (acc ++ delta))
        && leb cfg.stream_interval (ev.checked_at - last_send)

    pub said_delta : said (ev ∷ evs) ≡ delta ++ said evs
    said_delta = rw h refl

    pub loop_send :
        due ≡ true
        → reply_loop cfg acc last_send any (ev ∷ evs) ≡ (
          (reply_loop cfg [] ev.sent_at true evs).0,
          partial (acc ++ delta) ∷ (reply_loop cfg [] ev.sent_at true evs).1,
        )
    unfolding reply_loop
    loop_send d = rw (h, d) refl

    pub loop_keep :
        due ≡ false
        → reply_loop cfg acc last_send any (ev ∷ evs)
          ≡ reply_loop cfg (acc ++ delta) last_send any evs
    unfolding reply_loop
    loop_keep d = rw (h, d) refl

-- A piece in front of the others.
InPieces-Says : (any : Bool) (outs : List Text) (t : Text) → InPieces outs t → Says any outs t
InPieces-Says true outs t h = h
InPieces-Says false outs t h = inl h

reply_Says :
    (cfg : LlmRelayConfig) (evs : List ClockedItem) (acc : Text) (last_send : ℕ) (any : Bool)
    (outs : List Text)
    → reply_loop cfg acc last_send any evs ≡ (ok tt, outs)
    → Says any outs (acc ++ said evs)
reply_Says cfg [] acc last any outs h =
    let e : flush any acc ≡ outs = unfold reply_loop in ap (λ r. r.1) h in
    rw append-nil (subst (λ o. Says any o acc) e (flush-Says any acc))
reply_Says cfg (ev ∷ evs) acc last any outs h = elim (Result-cases ev.item) [
  | inr (e, item) ↦ absurd (ground (arith, loop_err cfg acc last any ev evs e item))
  | inl (done, item) ↦
      let e : flush any acc ≡ outs =
        ap (λ r. r.1) (sym (loop_done cfg acc last any ev evs item) ∙ h) in
      rw (said_done cfg acc last any ev evs item, append-nil)
        (subst (λ o. Says any o acc) e (flush-Says any acc))
  | inl (delta_text delta, item) ↦ elim (Bool-cases (due cfg acc last any ev evs delta item)) [
    | inl d ↦
        let sends = (reply_loop cfg [] ev.sent_at true evs).1 in
        let whole = sym (loop_send cfg acc last any ev evs delta item d) ∙ h in
        let e : partial (acc ++ delta) ∷ sends ≡ outs = ap (λ r. r.1) whole in
        let ih =
          reply_Says cfg evs [] ev.sent_at true sends
            (ap (λ r. (r, sends)) (ap (λ r. r.0) whole)) in
        subst (λ o. Says any o (acc ++ said (ev ∷ evs))) e
          (InPieces-Says any _ _ (
            acc ++ delta,
            said evs,
            refl,
            ap (λ t. acc ++ t) (said_delta cfg acc last any ev evs delta item)
                ∙ sym (append_assoc acc delta (said evs)),
            ih,
          ))
    | inr d ↦
        let ih =
          reply_Says cfg evs (acc ++ delta) last any outs
            (sym (loop_keep cfg acc last any ev evs delta item d) ∙ h) in
        subst (λ t. Says any outs t)
          (append_assoc acc delta (said evs)
            ∙ ap (λ t. acc ++ t) (sym (said_delta cfg acc last any ev evs delta item)))
          ih
  ]
]

-- A streamed reply that ends without an error has sent all the text of the deltas up to the item
-- that ends the reply or the end of the stream, in order and without loss or repetition: in
-- pieces that are marked as partial, or as one unmarked text when no piece was sent before the
-- end.
pub stream_reply-Says :
    (cfg : LlmRelayConfig) (now : ℕ) (evs : List ClockedItem) (outs : List Text)
    → stream_reply cfg now evs ≡ (ok tt, outs)
    → Says false outs (said evs)
unfolding stream_reply
stream_reply-Says cfg now evs outs h = reply_Says cfg evs [] _ false outs h
