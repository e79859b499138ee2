-- ===== src/Gossip/Sample.antt =====
-- Small crates that keep every law of `GossipCrates`, on which the tests run.
use guyos.Prelude.{
  ℕ, ◌≡◌, refl, true, false, Bool, none, some, Option, List, [], ◌∷◌, ◌++◌, Result, ok, err, ok_or,
  length, take, drop, if◌then◌else◌, ◌==◌, take-append_length, drop-append_length, All, arith, inl,
  ap,
}
use guyos.Text.{Bytes, Text, IsByte}
use guyos.Text.Ascii.{IsBase32}
use guyos.Crates.Sample.Base64.{encode, decode, decode-encode}
use guyos.Gossip.{MessageBody, about_me, message, Message, Ticket, GossipCrates}

abbrev pub put : Text → Text → Bytes → Bytes
put from text nonce = length from ∷ (from ++ (length text ∷ (text ++ nonce)))

abbrev pub put_body : MessageBody Text → Bytes → Bytes
put_body (about_me from name) nonce = 0 ∷ put from name nonce
put_body (message from text) nonce = 1 ∷ put from text nonce

abbrev pub body_of : ℕ → Text → Text → MessageBody Text
body_of tag from text = if tag == 0 then about_me from text else message from text

abbrev pub with_from : ℕ → Text → Bytes → Option (Message Text)
with_from tag from [] = none
with_from tag from (n ∷ s) = some (record { body = body_of tag from (take n s); nonce = drop n s })

abbrev pub read_message : Bytes → Option (Message Text)
read_message [] = none
read_message (tag ∷ []) = none
read_message (tag ∷ n ∷ s) = with_from tag (take n s) (drop n s)

pub read-put :
    (tag : ℕ) (from text : Text) (nonce : Bytes)
    → read_message (tag ∷ put from text nonce)
      ≡ some (record { body = body_of tag from text; nonce = nonce })
read-put tag from text nonce =
    rw
      (
        read_message,
        take-append_length from (length text ∷ (text ++ nonce)),
        drop-append_length from (length text ∷ (text ++ nonce)),
        take-append_length text nonce,
        drop-append_length text nonce,
      )
      refl

pub read-put_body :
    (body : MessageBody Text) (nonce : Bytes)
    → read_message (put_body body nonce) ≡ some (record { body = body; nonce = nonce })
read-put_body (about_me from name) nonce = read-put 0 from name nonce
read-put_body (message from text) nonce = read-put 1 from text nonce

-- Two endpoints and two topics.
abbrev pub id_of : Bool → Text
id_of true = 7 ∷ []
id_of false = 8 ∷ []

abbrev pub bit : Bool → ℕ
bit true = 1
bit false = 0

abbrev pub bits : List Bool → Bytes
bits [] = []
bits (b ∷ bs) = bit b ∷ bits bs

abbrev pub unbits : Bytes → List Bool
unbits [] = []
unbits (n ∷ s) = (if n == 1 then true else false) ∷ unbits s

pub unbits-bits : (bs : List Bool) → unbits (bits bs) ≡ bs
unbits-bits [] = refl
unbits-bits (true ∷ bs) = ap (λ l. true ∷ l) (unbits-bits bs)
unbits-bits (false ∷ bs) = ap (λ l. false ∷ l) (unbits-bits bs)

pub bits-IsByte : (bs : List Bool) → All IsByte (bits bs)
bits-IsByte [] = tt
bits-IsByte (true ∷ bs) = (omega arith, bits-IsByte bs)
bits-IsByte (false ∷ bs) = (omega arith, bits-IsByte bs)

abbrev pub ticket_of : List Bool → Result (Ticket Bool Bool) Text
ticket_of [] = err []
ticket_of (b ∷ bs) = ok (record { topic = b; endpoints = bs })

pub encode-IsBase32 : (b : Bytes) → All IsByte b → All IsBase32 (encode b)
encode-IsBase32 [] h = tt
encode-IsBase32 (b ∷ bs) h = (inl (omega arith), (inl (omega arith), encode-IsBase32 bs h.1))

abbrev pub sample_gossip : GossipCrates
sample_gossip = record {
  EndpointId = Text;
  EndpointAddr = Bool;
  Endpoint = Bool;
  Gossip = Bool;
  Router = Bool;
  GossipSender = Bool;
  TopicId = Bool;
  id = id_of;
  addr = λ e. e;
  addr_id = id_of;
  addr_id-addr = λ e. refl;
  spawn_gossip = λ e. e;
  spawn_router = λ e g. e;
  base32_encode = encode;
  base32_decode = λ s. ok_or [] (decode s);
  base32_encode-IsBase32 = encode-IsBase32;
  base32_decode-encode = λ b h. ap (ok_or []) (decode-encode b h);
  ticket_to_vec = λ t. bits (t.topic ∷ t.endpoints);
  ticket_from_slice = λ b. ticket_of (unbits b);
  ticket_to_vec-IsByte = λ t. bits-IsByte (t.topic ∷ t.endpoints);
  ticket_from_slice-to_vec = λ t. ap ticket_of (unbits-bits (t.topic ∷ t.endpoints));
  fmt_short = λ id. id;
  hexlower_encode = λ b. b;
  to_vec = λ m. put_body m.body m.nonce;
  from_slice = λ b. ok_or [] (read_message b);
  from_slice-to_vec = λ m. ap (ok_or []) (read-put_body m.body m.nonce);
}
