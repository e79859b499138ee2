-- ===== src/Chat/Tests.antt =====
-- The service over the fake backend.
use guyos.Prelude.{refl, some, [], ◌∷◌, arith}
use guyos.Chat.Fake.{new_backend}
use guyos.Chat.Echo.{Service, AllSent, Receives, after_sends, sent_and_received}

abbrev fresh : Service
fresh = record {
  backend = new_backend;
  name = some (b'a' ∷ []);
  names = [];
  messages = record { queue = []; capacity = 100 };
  spawned = 0;
}

sent_and_received_example :
    AllSent fresh ((b'x' ∷ []) ∷ [] ∷ [])
    × Receives (after_sends fresh ((b'x' ∷ []) ∷ [] ∷ [])) ((b'x' ∷ []) ∷ [] ∷ [])
sent_and_received_example = sent_and_received fresh ((b'x' ∷ []) ∷ [] ∷ []) refl (omega arith)
