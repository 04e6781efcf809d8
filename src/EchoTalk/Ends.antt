-- ===== src/EchoTalk/Ends.antt =====
-- A conversation of client and server of the WebSocket in which nothing fails.
use da_gis_service.Common.{◌≡◌, refl, true, none, [], ◌∷◌, Bytes}
use da_gis_service.EchoClient
use da_gis_service.EchoClient.{
  resolving, connecting, handshaking, writing, closing, ClientSession, Results, run, complete,
  on_resolve, on_connect, on_handshake, on_close,
}
use da_gis_service.EchoServer
use da_gis_service.EchoServer.{
  Message, EchoSession, on_run, do_read, stop, on_accept, echo, append_bytes, consume_all,
}
use da_gis_service.EchoTalk.{
  sent_of, Talk, calls, goes_on, hears, accepts, sees, is_closed, answers,
}

-- No error, and a connection to `port`.
abbrev pub fine : Bytes → Results
fine port = record {
  resolve_error = none;
  connect_error = none;
  port = port;
  handshake_error = none;
  write_error = none;
  read_error = none;
  message = [];
  close_error = none;
}

code : Unit {0}
unfolding sent_of run complete on_resolve on_connect on_handshake on_close EchoClient.on_write
    EchoClient.on_read on_accept do_read stop echo append_bytes consume_all EchoServer.on_read
    EchoServer.on_write
code = tt

-- Client and server have a conversation, whatever the text, in which the client gets its text back, both close
-- without an error and nothing is left to wait for.
pub Talk-ends :
    (host port text : Bytes)
    → (c : ClientSession) × (e : EchoSession) × Talk host port text
        ((true, text) ∷ [])
        ((true, text) ∷ [])
        c
        e
      × (c.buffer ≡ text)
      × (c.pending ≡ EchoClient.idle)
      × (e.pending ≡ EchoServer.idle)
      × (c.errors ≡ [])
      × (e.errors ≡ [])
unfolding code
Talk-ends host port text =
    let no_resolving : ¬ (resolving ≡ EchoClient.reading) = λ q. cc in
    let no_connecting : ¬ (connecting ≡ EchoClient.reading) = λ q. cc in
    let no_handshaking : ¬ (handshaking ≡ EchoClient.reading) = λ q. cc in
    let no_writing : ¬ (writing ≡ EchoClient.reading) = λ q. cc in
    let no_closing : ¬ (closing ≡ EchoClient.reading) = λ q. cc in
    let r = fine port in
    let resolved = goes_on calls resolving r refl no_resolving in
    let connected = goes_on resolved connecting r refl no_connecting in
    let accepted = accepts none connected refl in
    let shaken = goes_on accepted handshaking r refl no_handshaking in
    let seen = sees (true, text) [] shaken refl refl in
    let written = goes_on seen writing r refl no_writing in
    let answered = answers none written refl in
    let heard = hears (true, text) [] answered refl refl in
    let closed_there = is_closed heard refl refl in
    let closed_here = goes_on closed_there closing r refl no_closing in
    (_, _, closed_here, refl, refl, refl, refl, refl)
