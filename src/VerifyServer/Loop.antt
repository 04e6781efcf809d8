-- ===== src/VerifyServer/Loop.antt =====
-- The loop of thrVerifyServer of main.cpp, turn after turn: what it sends to its clients.
use da_gis_service.Common.{
  ℕ, ◌≤◌, ◌+◌, ◌*◌, ◌≡◌, ◌∙◌, refl, ap, Bool, true, false, Option, none, some, List, [], ◌∷◌, ◌++◌,
  Bytes, length, take, ◌==◌, if◌then◌else◌, All, All-append, Bool-cases, inl, inr,
}
use da_gis_service.Frames.{Memory}
use da_gis_service.Verify.{SrvToCl, str_json, prepare_verify_answer}
use da_gis_service.Verify.Framed.{read_message, prepare_verify_answer-read_message}
use da_gis_service.Verify.Fits.{length-prepare_verify_answer}
use da_gis_service.VerifyServer.{
  verify_server_mode, Doubles, Surroundings, Globals, read_position, compress, read_and_compress,
  GetSockOpt, send_verify_answer, Sockets, Calls, after_send,
}

module _ (d : Doubles) where
  -- The globals that a turn of the loop changes, and the bytes given to `send` so far, one text for each call.
  pub record Loop : Type 0 where
    pub globals : Globals d
    pub send_json : Bytes
    pub sockets : Sockets
    pub outbox : List Bytes

  -- What a turn finds: whether a call of send or accept that it makes never returns, the frames and mutexes, the two calls of getsockopt, the result of send, and those of
  -- the calls that take another client.
  pub record Turn : Type 0 where
    pub blocks : Bool
    pub surroundings : Surroundings d
    pub before_send : GetSockOpt
    pub after_sent : GetSockOpt
    pub n : Option ℕ
    pub calls : Calls

  -- The calls of send in sendVerifyAnswer: none if the first getsockopt gives an error.
  unfoldable pub sends_of : GetSockOpt → (answer : ℕ × Bytes) → List Bytes
  sends_of before (size, send_json) = if (before 0 0).0 == 0 then take size send_json ∷ [] else []

  abbrev pub after_compress : Turn → Loop → Option (Globals d) → Option Loop
  after_compress t l none = none
  after_compress t l (some g) =
      let answer =
        prepare_verify_answer d.Double d.to_string g.left_b64 g.right_b64 g.send_to_client
          l.send_json in
      some (record {
        globals = g;
        send_json = answer.1;
        sockets = after_send (send_verify_answer t.before_send t.after_sent t.n) t.calls l.sockets;
        outbox = l.outbox ++ sends_of t.before_send answer;
      })

  module _ (image_bytes : ℕ) (encode : Memory → (time : ℕ) → Bytes × Bytes) where
    -- The body of the loop if send and accept return; none while it waits for a mutex.
    abbrev run_turn : Turn → Loop → Option Loop
    run_turn t l =
        after_compress t l
          (read_and_compress d image_bytes encode verify_server_mode t.surroundings l.globals)

    -- The body of the loop; none if send or accept never returns.
    unfoldable pub take_turn : Turn → Loop → Option Loop
    take_turn t l = if t.blocks then none else run_turn t l

    abbrev and_then : (Loop → Option Loop) → Option Loop → Option Loop
    and_then f none = none
    and_then f (some l) = f l

    -- So many turns of `while (work)`.
    unfoldable pub take_turns : List Turn → Loop → Option Loop
    take_turns [] l = some l
    take_turns (t ∷ turns) l = and_then (take_turns turns) (take_turn t l)

    -- The position of no frame.
    abbrev nowhere : SrvToCl d.Double
    nowhere = record {
      lat = d.to_string d.zero_double;
      lon = d.to_string d.zero_double;
      time = 0;
      dist = d.dist;
      brightness_gain = 7;
      brightness_shutter = 56;
      brightness_gamma = 89;
    }

    -- The position of no frame, with the images that are in memory.
    abbrev pub nowhere_json : (imgsum : Memory) → Bytes
    nowhere_json imgsum =
        let images = encode imgsum 0 in str_json d.Double d.to_string images.0 images.1 nowhere

    -- A client reads this JSON out of a message, whatever comes after it.
    abbrev pub ReadsAs : (json message : Bytes) → Type 0
    ReadsAs json message = (rest : Bytes) → read_message (message ++ rest) ≡ some (json, rest)

    -- Every call of send and accept in a turn returns.
    abbrev pub Returns : Turn → Type 0
    Returns t = t.blocks ≡ false

    -- The loop has not read a frame, its array has its size, and it has sent the same JSON in each message.
    pub record SendsNowhere (imgsum : Memory) (l : Loop) : Type 0 where
      pub array : length l.send_json ≡ 1024 * 1500
      pub same_memory : l.globals.reader.imgsum ≡ imgsum
      pub sent : All (ReadsAs (nowhere_json imgsum)) l.outbox

    sends_of-All :
        (before : GetSockOpt) (answer : ℕ × Bytes) (json : Bytes)
        → ReadsAs json (take answer.0 answer.1)
        → All (ReadsAs json) (sends_of before answer)
    unfolding sends_of
    sends_of-All before answer json h = elim (Bool-cases ((before 0 0).0 == 0)) [
      | inl e ↦ rw e (h, tt)
      | inr e ↦ rw e tt
    ]

    run_turn-SendsNowhere :
        (imgsum : Memory)
        → length (nowhere_json imgsum) + 4 ≤ 1024 * 1500
        → (t : Turn) (l : Loop) → SendsNowhere imgsum l
        → (l' : Loop) × (run_turn t l ≡ some l') × SendsNowhere imgsum l'
    unfolding read_and_compress read_position compress
    run_turn-SendsNowhere imgsum short t l h =
        let reads =
          prepare_verify_answer-read_message d.Double d.to_string (encode imgsum 0).0
            (encode imgsum 0).1 _ l.send_json in
        (
          _,
          refl,
          record {
            array = rw h.same_memory (
                length-prepare_verify_answer d.Double d.to_string (encode imgsum 0).0
                  (encode imgsum 0).1 nowhere l.send_json (rw h.array short)
                ∙ h.array);
            same_memory = h.same_memory;
            sent = All-append (ReadsAs (nowhere_json imgsum)) l.outbox _ h.sent (
                rw h.same_memory (
                  sends_of-All t.before_send _ (nowhere_json imgsum)
                    (λ rest. reads rest h.array short)));
          },
        )

    if-returns :
        (blocks : Bool) (o : Option Loop) → blocks ≡ false → (if blocks then none else o) ≡ o
    if-returns true o e = absurd cc
    if-returns false o e = refl

    take_turn-SendsNowhere :
        (imgsum : Memory)
        → length (nowhere_json imgsum) + 4 ≤ 1024 * 1500
        → (t : Turn) (l : Loop) → Returns t
        → SendsNowhere imgsum l
        → (l' : Loop) × (take_turn t l ≡ some l') × SendsNowhere imgsum l'
    unfolding take_turn
    take_turn-SendsNowhere imgsum short t l returns h =
        let (l', runs, kept) = run_turn-SendsNowhere imgsum short t l h in
        (l', if-returns t.blocks (run_turn t l) returns ∙ runs, kept)

    -- Whatever the frames, mutexes, sockets and clients do, if every call of send and accept returns, so many
    -- turns of the loop come to an end without having read a frame; and from each message that was given to send a client reads the same JSON, with the
    -- position and the time zero and the images that were in memory before the first turn. The JSON
    -- is taken to fit with its length into send_json, which has 1500 KiB.
    pub take_turns-SendsNowhere :
        (turns : List Turn) (imgsum : Memory)
        → length (nowhere_json imgsum) + 4 ≤ 1024 * 1500
        → All Returns turns
        → (l : Loop) → SendsNowhere imgsum l
        → (l' : Loop) × (take_turns turns l ≡ some l') × SendsNowhere imgsum l'
    unfolding take_turns
    take_turns-SendsNowhere [] imgsum short _ l h = (l, refl, h)
    take_turns-SendsNowhere (t ∷ turns) imgsum short (returns, more_return) l h =
        let (mid, first, kept) = take_turn-SendsNowhere imgsum short t l returns h in
        let (l', more, sent) = take_turns-SendsNowhere turns imgsum short more_return mid kept in
        (l', ap (and_then (take_turns turns)) first ∙ more, sent)
