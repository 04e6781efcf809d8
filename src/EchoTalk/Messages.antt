-- ===== src/EchoTalk/Messages.antt =====
-- The messages of a conversation of client and server of the WebSocket.
use da_gis_service.Common.{◌≡◌, ◌≢◌, refl, ap, ◌⊎◌, inl, inr, true, List, [], ◌∷◌, ◌++◌}
use da_gis_service.EchoClient.{Operation, resolve, connect, handshake, write, read, close}
use da_gis_service.EchoServer.{Message}
use da_gis_service.EchoTalk.{sent_of}

-- Nothing, or the one message.
abbrev pub AtMost : Message → List Message → Type 0
AtMost m list = (list ≡ []) ⊎ (list ≡ m ∷ [])

append-not_nil : (n : Message) (before rest : List Message) → before ++ n ∷ rest ≢ []
append-not_nil n [] rest e = absurd cc
append-not_nil n (x ∷ before) rest e = absurd cc

pub AtMost-next :
    (m n : Message) (before rest list : List Message)
    → before ++ n ∷ rest ≡ list
    → AtMost m list
    → (before ≡ []) × (n ≡ m)
AtMost-next m n [] rest list e (inl q) = absurd cc
AtMost-next m n [] rest list e (inr q) = let one : n ∷ rest ≡ m ∷ [] = cc in (refl, cc)
AtMost-next m n (x ∷ before) rest list e (inl q) = absurd cc
AtMost-next m n (x ∷ before) rest list e (inr q) =
    let one : x ∷ (before ++ n ∷ rest) ≡ m ∷ [] = cc in
    let none_left : before ++ n ∷ rest ≡ [] = cc in absurd (append-not_nil n before rest none_left)

pub sent_of-append :
    (started later : List Operation) → sent_of (started ++ later) ≡ sent_of started ++ sent_of later
unfolding sent_of
sent_of-append [] later = refl
sent_of-append (resolve _ _ ∷ started) later = sent_of-append started later
sent_of-append (connect ∷ started) later = sent_of-append started later
sent_of-append (handshake _ _ ∷ started) later = sent_of-append started later
sent_of-append (write t ∷ started) later = ap (λ s. (true, t) ∷ s) (sent_of-append started later)
sent_of-append (read ∷ started) later = sent_of-append started later
sent_of-append (close ∷ started) later = sent_of-append started later
