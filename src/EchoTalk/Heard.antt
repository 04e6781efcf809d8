-- ===== src/EchoTalk/Heard.antt =====
-- What client and server of the WebSocket hear of each other, in any interleaving of their handlers.
use mathlib.Core.List.{append-nil}
use da_gis_service.Common.{◌≡◌, ◌≢◌, refl, ◌⊎◌, inl, inr, true, List, [], ◌∷◌, ◌++◌, Bytes}
use da_gis_service.EchoClient.{closing, ClientSession, run}
use da_gis_service.EchoServer
use da_gis_service.EchoServer.{Message, EchoSession, on_run}
use da_gis_service.EchoServer.Echoes
use da_gis_service.EchoServer.Echoes.{Run, IsEcho, Run-IsEcho}
use da_gis_service.EchoTalk.{
  sent_of, Talk, calls, goes_on, hears, accepts, sees, is_closed, answers,
}
use da_gis_service.EchoTalk.Messages.{AtMost, AtMost-next}
use da_gis_service.EchoTalk.Client.{is_late, IsClient, complete-IsClient, on_read-IsClient}

-- What both have read and written.
pub record IsTalk (text : Bytes) (seen heard : List Message) (c : ClientSession) (e : EchoSession)
    : Type 0 where
  pub seen_of_client : AtMost (true, text) seen
  pub echoed : e.written ≡ seen
  pub heard_or_not :
      ((heard ≡ []) × (c.buffer ≡ []) × (c.pending ≢ closing))
      ⊎ ((heard ≡ (true, text) ∷ []) × (c.buffer ≡ text) × (is_late c.pending ≡ true))

closed-Run :
    (seen : List Message) (lost : List (Bytes × Bytes)) (e : EchoSession)
    → Run seen lost e
    → e.pending ≡ EchoServer.reading
    → Run seen (lost ++ []) (EchoServer.on_read EchoServer.closed e)
closed-Run seen lost e run p = rw (← append-nil seen) (Echoes.reads run p EchoServer.closed)

module _ (host port text : Bytes) where
  Talk-Run :
      {seen heard : List Message} {c : ClientSession} {e : EchoSession}
      → Talk host port text seen heard c e
      → (lost : List (Bytes × Bytes)) × Run seen lost e
  Talk-Run calls = ([], Echoes.begin)
  Talk-Run (goes_on t p r can other) = Talk-Run t
  Talk-Run (hears m rest t can there) = Talk-Run t
  Talk-Run (accepts ec t can) = let (lost, run) = Talk-Run t in (_, Echoes.accepts run can ec)
  Talk-Run (sees m rest t can there) =
      let (lost, run) = Talk-Run t in (_, Echoes.reads run can (EchoServer.message m.0 m.1))
  Talk-Run (is_closed {seen} {heard} {c} {e} t can there) =
      let (lost, run) = Talk-Run t in (_, closed-Run seen lost e run can)
  Talk-Run (answers ec t can) = let (lost, run) = Talk-Run t in (_, Echoes.writes run can ec)

  written_of-Talk :
      {seen heard : List Message} {c : ClientSession} {e : EchoSession}
      → Talk host port text seen heard c e
      → e.written ≡ seen
  written_of-Talk t = let (lost, run) = Talk-Run t in (Run-IsEcho run).echoed

  run-IsClient : IsClient text [] (run host port text)
  unfolding run sent_of
  run-IsClient = record {
    has_text = refl;
    early = λ e. refl;
    sent = inl refl;
    has_heard = inl (refl, refl, (λ e. cc));
  }

  Talk-IsClient :
      {seen heard : List Message} {c : ClientSession} {e : EchoSession}
      → Talk host port text seen heard c e
      → IsClient text heard c × AtMost (true, text) seen
  Talk-IsClient calls = (run-IsClient, inl refl)
  Talk-IsClient (goes_on {seen} {heard} {c} t p r can other) =
      let (client, one) = Talk-IsClient t in
      (complete-IsClient text heard p r c can other client, one)
  Talk-IsClient (hears {seen} {heard} {c} {e} m rest t can there) =
      let (client, one) = Talk-IsClient t in
      let written : AtMost (true, text) e.written = rw (written_of-Talk t) one in
      (on_read-IsClient text heard rest e.written m c client can there written, one)
  Talk-IsClient (accepts ec t can) = Talk-IsClient t
  Talk-IsClient (sees {seen} {heard} {c} m rest t can there) =
      let (client, one) = Talk-IsClient t in
      let (first, is_text) =
        AtMost-next (true, text) m seen rest (sent_of c.started) there client.sent in
      (client, inr (rw (first, is_text) refl))
  Talk-IsClient (is_closed t can there) = Talk-IsClient t
  Talk-IsClient (answers ec t can) = Talk-IsClient t

  -- However the handlers of client and server interleave, and whichever operation other than a read fails:
  -- the server reads at most the text of the client, once, and echoes what it has read; the client reads
  -- nothing, or the echo, and then its buffer is the text. It begins to close only after the latter.
  pub Talk-IsTalk :
      {seen heard : List Message} {c : ClientSession} {e : EchoSession}
      → Talk host port text seen heard c e
      → IsTalk text seen heard c e
  Talk-IsTalk t =
      let (client, one) = Talk-IsClient t in
      record { seen_of_client = one; echoed = written_of-Talk t; heard_or_not = client.has_heard }
