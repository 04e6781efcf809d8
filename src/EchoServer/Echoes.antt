-- ===== src/EchoServer/Echoes.antt =====
-- Every run of a session of websocket_srv/webserver.cpp: the messages it reads and those it writes.
use mathlib.Core.List.{append-nil}
use da_gis_service.Common.{◌≡◌, refl, Option, none, some, List, [], ◌∷◌, ◌++◌, Bytes, bytes}
use da_gis_service.EchoServer.{
  accepting, reading, writing, Message, EchoSession, ReadEnd, message, closed, read_error, on_run,
  do_read, fail, stop, on_accept, echo, append_bytes, on_read, consume_all, on_write,
}

-- What a read adds to the messages echoed: also what a failed read leaves in the buffer.
abbrev pub echoes_of : ReadEnd → List Message
echoes_of (message got_text bytes_read) = (got_text, bytes_read) ∷ []
echoes_of closed = []
echoes_of (read_error reason got_text bytes_read) = (got_text, bytes_read) ∷ []

-- The failures that a read reports.
abbrev pub failures_of : ReadEnd → List (Bytes × Bytes)
failures_of (read_error reason got_text bytes_read) = (bytes "read", reason) ∷ []
failures_of _ = []

-- The failure that a handler with the error code `ec` reports.
abbrev pub failure : Bytes → Option Bytes → List (Bytes × Bytes)
failure what none = []
failure what (some reason) = (what, reason) ∷ []

-- The states of a session after on_run, with the messages to echo and the failures so far.
pub data Run : List Message → List (Bytes × Bytes) → EchoSession → Type 0 where
  begin : Run [] [] on_run
  accepts :
      {sent : List Message} {lost : List (Bytes × Bytes)} {c : EchoSession}
      → Run sent lost c
      → c.pending ≡ accepting
      → (ec : Option Bytes) → Run sent (lost ++ failure (bytes "accept") ec) (on_accept ec c)
  reads :
      {sent : List Message} {lost : List (Bytes × Bytes)} {c : EchoSession}
      → Run sent lost c
      → c.pending ≡ reading
      → (end : ReadEnd) → Run (sent ++ echoes_of end) (lost ++ failures_of end) (on_read end c)
  writes :
      {sent : List Message} {lost : List (Bytes × Bytes)} {c : EchoSession}
      → Run sent lost c
      → c.pending ≡ writing
      → (ec : Option Bytes) → Run sent (lost ++ failure (bytes "write") ec) (on_write ec c)

-- The session has echoed what it read and reported what failed; and its buffer is empty whenever
-- it waits for the handshake or for a read.
pub record IsEcho (sent : List Message) (lost : List (Bytes × Bytes)) (c : EchoSession)
    : Type 0 where
  pub echoed : c.written ≡ sent
  pub reported : c.errors ≡ lost
  pub empty_on_accept : c.pending ≡ accepting → c.buffer ≡ []
  pub empty_on_read : c.pending ≡ reading → c.buffer ≡ []

on_read-IsEcho :
    (end : ReadEnd) (sent : List Message) (lost : List (Bytes × Bytes)) (c : EchoSession)
    → c.pending ≡ reading
    → IsEcho sent lost c
    → IsEcho (sent ++ echoes_of end) (lost ++ failures_of end) (on_read end c)
unfolding on_read echo append_bytes fail stop
on_read-IsEcho closed sent lost c p h = record {
  echoed = rw (append-nil sent) h.echoed;
  reported = rw (append-nil lost) h.reported;
  empty_on_accept = λ e. absurd cc;
  empty_on_read = λ e. absurd cc;
}
on_read-IsEcho (message got_text bytes_read) sent lost c p h = record {
  echoed = rw (h.echoed, h.empty_on_read p) refl;
  reported = rw (append-nil lost) h.reported;
  empty_on_accept = λ e. absurd cc;
  empty_on_read = λ e. absurd cc;
}
on_read-IsEcho (read_error reason got_text bytes_read) sent lost c p h = record {
  echoed = rw (h.echoed, h.empty_on_read p) refl;
  reported = rw h.reported refl;
  empty_on_accept = λ e. absurd cc;
  empty_on_read = λ e. absurd cc;
}

on_accept-IsEcho :
    (ec : Option Bytes) (sent : List Message) (lost : List (Bytes × Bytes)) (c : EchoSession)
    → c.pending ≡ accepting
    → IsEcho sent lost c
    → IsEcho sent (lost ++ failure (bytes "accept") ec) (on_accept ec c)
unfolding on_accept do_read stop fail
on_accept-IsEcho none sent lost c p h = record {
  echoed = h.echoed;
  reported = rw (append-nil lost) h.reported;
  empty_on_accept = λ e. h.empty_on_accept p;
  empty_on_read = λ e. h.empty_on_accept p;
}
on_accept-IsEcho (some reason) sent lost c p h = record {
  echoed = h.echoed;
  reported = rw h.reported refl;
  empty_on_accept = λ e. absurd cc;
  empty_on_read = λ e. absurd cc;
}

on_write-IsEcho :
    (ec : Option Bytes) (sent : List Message) (lost : List (Bytes × Bytes)) (c : EchoSession)
    → IsEcho sent lost c
    → IsEcho sent (lost ++ failure (bytes "write") ec) (on_write ec c)
unfolding on_write do_read consume_all stop fail
on_write-IsEcho none sent lost c h = record {
  echoed = h.echoed;
  reported = rw (append-nil lost) h.reported;
  empty_on_accept = λ e. refl;
  empty_on_read = λ e. refl;
}
on_write-IsEcho (some reason) sent lost c h = record {
  echoed = h.echoed;
  reported = rw h.reported refl;
  empty_on_accept = λ e. absurd cc;
  empty_on_read = λ e. absurd cc;
}

-- In every run a session has written one message for each read that ended otherwise than by the close,
-- in their order: of the kind that got_text told, with the bytes of this read and no others. That holds
-- of reads that fail too. It has reported each failure, in order, and its buffer is empty whenever a
-- read is pending.
pub Run-IsEcho :
    {sent : List Message} {lost : List (Bytes × Bytes)} {c : EchoSession}
    → Run sent lost c
    → IsEcho sent lost c
Run-IsEcho begin = record {
  echoed = refl;
  reported = refl;
  empty_on_accept = λ e. refl;
  empty_on_read = λ e. refl;
}
Run-IsEcho (accepts {sent} {lost} {c} run can ec) =
    on_accept-IsEcho ec sent lost c can (Run-IsEcho run)
Run-IsEcho (reads {sent} {lost} {c} run can end) =
    on_read-IsEcho end sent lost c can (Run-IsEcho run)
Run-IsEcho (writes {sent} {lost} {c} run can ec) = on_write-IsEcho ec sent lost c (Run-IsEcho run)
