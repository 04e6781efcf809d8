-- ===== src/EchoTalk/Client.antt =====
-- The client of wxUI/websocket_client.cpp, handler by handler: what it has sent and read.
use mathlib.Core.List.{append-nil}
use da_gis_service.Common.{
  ◌≡◌, ◌≢◌, ◌∙◌, refl, ◌⊎◌, inl, inr, Bool, true, false, Option, none, some, List, [], ◌∷◌, ◌++◌,
  Bytes, bytes,
}
use da_gis_service.EchoClient
use da_gis_service.EchoClient.{
  Pending, idle, resolving, connecting, handshaking, writing, reading, closing, Operation, resolve,
  connect, handshake, write, read, close, ClientSession, Results, run, complete, on_resolve,
  on_connect, on_handshake, on_close,
}
use da_gis_service.EchoServer.{Message}
use da_gis_service.EchoTalk.{sent_of}
use da_gis_service.EchoTalk.Messages.{AtMost, AtMost-next, sent_of-append}

-- Before the handshake has ended.
abbrev pub is_early : Pending → Bool
is_early resolving = true
is_early connecting = true
is_early handshaking = true
is_early _ = false

-- After the read has ended.
abbrev pub is_late : Pending → Bool
is_late closing = true
is_late idle = true
is_late _ = false

-- What the client has sent and read.
pub record IsClient (text : Bytes) (heard : List Message) (c : ClientSession) : Type 0 where
  pub has_text : c.text ≡ text
  pub early : is_early c.pending ≡ true → sent_of c.started ≡ []
  pub sent : AtMost (true, text) (sent_of c.started)
  pub has_heard :
      ((heard ≡ []) × (c.buffer ≡ []) × (c.pending ≢ closing))
      ⊎ ((heard ≡ (true, text) ∷ []) × (c.buffer ≡ text) × (is_late c.pending ≡ true))

module _ (text : Bytes) (heard : List Message) where
  -- A handler that ends the session, or keeps it so.
  IsClient-idle :
      (c d : ClientSession)
      → IsClient text heard c
      → d.pending ≡ idle
      → d.text ≡ c.text
      → d.started ≡ c.started
      → d.buffer ≡ c.buffer
      → IsClient text heard d
  IsClient-idle c d h p t s b = record {
    has_text = t ∙ h.has_text;
    early = rw p (λ e. absurd cc);
    sent = rw s h.sent;
    has_heard = elim h.has_heard [
      | inl (none_heard, empty, _) ↦ rw (p, b) (inl (none_heard, empty, (λ e. cc)))
      | inr (one, full, _) ↦ rw (p, b) (inr (one, full, refl))
    ];
  }

  nothing_heard :
      (c : ClientSession)
      → IsClient text heard c
      → is_late c.pending ≡ false
      → (heard ≡ []) × (c.buffer ≡ [])
  nothing_heard c h q = elim h.has_heard [
    | inl (none_heard, empty, _) ↦ (none_heard, empty)
    | inr (_, _, late) ↦ absurd cc
  ]

  -- A handler that starts an operation which sends nothing.
  IsClient-quiet :
      (c d : ClientSession) (operation : Operation)
      → IsClient text heard c
      → is_late c.pending ≡ false
      → (is_early d.pending ≡ true → is_early c.pending ≡ true)
      → d.pending ≢ closing
      → sent_of (operation ∷ []) ≡ []
      → d.text ≡ c.text
      → d.started ≡ c.started ++ operation ∷ []
      → d.buffer ≡ c.buffer
      → IsClient text heard d
  IsClient-quiet c d operation h late before stays quiet t s b =
      let same : sent_of d.started ≡ sent_of c.started =
        rw (s, sent_of-append c.started (operation ∷ []), quiet) (append-nil (sent_of c.started)) in
      let (none_heard, empty) = nothing_heard c h late in
      record {
        has_text = t ∙ h.has_text;
        early = λ e. same ∙ h.early (before e);
        sent = rw same h.sent;
        has_heard = inl (none_heard, b ∙ empty, stays);
      }

  IsClient-write :
      (c : ClientSession)
      → IsClient text heard c
      → c.pending ≡ handshaking
      → IsClient text heard (EchoClient.on_handshake none c)
  unfolding on_handshake sent_of
  IsClient-write c h p =
      let silent : sent_of c.started ≡ [] = h.early (rw p refl) in
      let (none_heard, empty) = nothing_heard c h (rw p refl) in
      record {
        has_text = h.has_text;
        early = λ e. absurd cc;
        sent = inr (rw (sent_of-append c.started (write c.text ∷ []), silent, h.has_text) refl);
        has_heard = inl (none_heard, empty, (λ e. cc));
      }

  on_resolve-IsClient :
      (ec : Option Bytes) (c : ClientSession)
      → IsClient text heard c
      → c.pending ≡ resolving
      → IsClient text heard (on_resolve ec c)
  unfolding on_resolve sent_of
  on_resolve-IsClient none c h p =
      IsClient-quiet c (on_resolve none c) connect h (rw p refl) (λ e. rw p refl) (λ e. cc) refl
        refl refl refl
  on_resolve-IsClient (some message) c h p =
      IsClient-idle c (on_resolve (some message) c) h refl refl refl refl

  on_connect-IsClient :
      (ec : Option Bytes) (port : Bytes) (c : ClientSession)
      → IsClient text heard c
      → c.pending ≡ connecting
      → IsClient text heard (on_connect ec port c)
  unfolding on_connect sent_of
  on_connect-IsClient none port c h p =
      IsClient-quiet c (on_connect none port c) (handshake (c.host ++ b':' ∷ port) (bytes "/")) h
        (rw p refl) (λ e. rw p refl) (λ e. cc) refl refl refl refl
  on_connect-IsClient (some message) port c h p =
      IsClient-idle c (on_connect (some message) port c) h refl refl refl refl

  on_handshake-IsClient :
      (ec : Option Bytes) (c : ClientSession)
      → IsClient text heard c
      → c.pending ≡ handshaking
      → IsClient text heard (on_handshake ec c)
  unfolding on_handshake
  on_handshake-IsClient none c h p = IsClient-write c h p
  on_handshake-IsClient (some message) c h p =
      IsClient-idle c (on_handshake (some message) c) h refl refl refl refl

  on_write-IsClient :
      (ec : Option Bytes) (c : ClientSession)
      → IsClient text heard c
      → c.pending ≡ writing
      → IsClient text heard (EchoClient.on_write ec c)
  unfolding EchoClient.on_write sent_of
  on_write-IsClient none c h p =
      IsClient-quiet c (EchoClient.on_write none c) read h (rw p refl) (λ e. absurd cc) (λ e. cc)
        refl refl refl refl
  on_write-IsClient (some message) c h p =
      IsClient-idle c (EchoClient.on_write (some message) c) h refl refl refl refl

  on_close-IsClient :
      (ec : Option Bytes) (c : ClientSession)
      → IsClient text heard c
      → IsClient text heard (on_close ec c)
  unfolding on_close
  on_close-IsClient none c h = IsClient-idle c (on_close none c) h refl refl refl refl
  on_close-IsClient (some message) c h =
      IsClient-idle c (on_close (some message) c) h refl refl refl refl

  pub complete-IsClient :
      (p : Pending) (r : Results) (c : ClientSession)
      → c.pending ≡ p
      → ¬ (p ≡ reading)
      → IsClient text heard c
      → IsClient text heard (complete p r c)
  unfolding complete
  complete-IsClient idle r c p n h = h
  complete-IsClient resolving r c p n h = on_resolve-IsClient r.resolve_error c h p
  complete-IsClient connecting r c p n h = on_connect-IsClient r.connect_error r.port c h p
  complete-IsClient handshaking r c p n h = on_handshake-IsClient r.handshake_error c h p
  complete-IsClient writing r c p n h = on_write-IsClient r.write_error c h p
  complete-IsClient reading r c p n h = absurd (n refl)
  complete-IsClient closing r c p n h = on_close-IsClient r.close_error c h

-- The first message that the client reads is the text.
pub on_read-IsClient :
    (text : Bytes) (heard rest written : List Message) (m : Message) (c : ClientSession)
    → IsClient text heard c
    → c.pending ≡ reading
    → heard ++ m ∷ rest ≡ written
    → AtMost (true, text) written
    → IsClient text
        (heard ++ m ∷ [])
        (EchoClient.on_read none (record c { buffer = c.buffer ++ m.1 }))
unfolding EchoClient.on_read sent_of
on_read-IsClient text heard rest written m c h p e one =
    let (none_heard, empty) = nothing_heard text heard c h (rw p refl) in
    let (_, is_text) = AtMost-next (true, text) m heard rest written e one in
    let same : sent_of (c.started ++ close ∷ []) ≡ sent_of c.started =
      rw (sent_of-append c.started (close ∷ [])) (append-nil (sent_of c.started)) in
    record {
      has_text = h.has_text;
      early = λ q. absurd cc;
      sent = rw same h.sent;
      has_heard = inr (rw (none_heard, is_text) refl, rw (empty, is_text) refl, refl);
    }
