-- ===== src/EchoServer.antt =====
-- class CWSSession of websocket_srv/webserver.cpp: one WebSocket connection that echoes. An operation
-- on the stream is pending from the call that starts it to the call of its handler.
pub mod Echoes
mod Tests
use da_gis_service.Common.{
  ◌≡◌, Bool, true, false, Option, none, some, List, [], ◌∷◌, ◌++◌, Bytes, bytes,
}

-- The operation that the session waits for.
pub data Pending : Type 0 where
  idle accepting reading writing : Pending

-- A message of the stream: text or binary, and its bytes.
abbrev pub Message : Type 0
Message = Bool × Bytes

-- `is_text` is the stream's option set by `ws_.text`; `written` and `errors` are what the session gave
-- to the stream and to `fail`, in order.
pub record EchoSession : Type 0 where
  pub pending : Pending
  pub buffer : Bytes
  pub is_text : Bool
  pub written : List Message
  pub errors : List (Bytes × Bytes)

-- How `ws_.async_read` ends: each end but `closed` leaves bytes that it appended to the buffer, and the
-- answer of `got_text`.
pub data ReadEnd : Type 0 where
  message : (got_text : Bool) → Bytes → ReadEnd
  closed : ReadEnd
  read_error : (reason : Bytes) (got_text : Bool) → Bytes → ReadEnd

-- on_run, on a session as its constructor leaves it; a stream sends text unless told otherwise.
abbrev pub on_run : EchoSession
on_run = record { pending = accepting; buffer = []; is_text = true; written = []; errors = [] }

-- do_read
unfoldable pub do_read : EchoSession → EchoSession
do_read c = record {
  pending = reading;
  buffer = c.buffer;
  is_text = c.is_text;
  written = c.written;
  errors = c.errors;
}

-- `fail(ec, what)`
unfoldable pub fail : (reason what : Bytes) → EchoSession → EchoSession
fail reason what c = record {
  pending = c.pending;
  buffer = c.buffer;
  is_text = c.is_text;
  written = c.written;
  errors = c.errors ++ (what, reason) ∷ [];
}

-- The handler that runs was the one waited for; it returns without another operation.
unfoldable pub stop : EchoSession → EchoSession
stop c = record {
  pending = idle;
  buffer = c.buffer;
  is_text = c.is_text;
  written = c.written;
  errors = c.errors;
}

-- on_accept; `ec` is the message of an error.
unfoldable pub on_accept : (ec : Option Bytes) → EchoSession → EchoSession
on_accept (some reason) c = stop (fail reason (bytes "accept") c)
on_accept none c = do_read c

-- The end of on_read: `ws_.text(ws_.got_text())` and `ws_.async_write(buffer_.data(), …)`.
unfoldable pub echo : (got_text : Bool) → EchoSession → EchoSession
echo got_text c = record {
  pending = writing;
  buffer = c.buffer;
  is_text = got_text;
  written = c.written ++ (got_text, c.buffer) ∷ [];
  errors = c.errors;
}

-- The bytes that async_read appends to the buffer.
unfoldable pub append_bytes : Bytes → EchoSession → EchoSession
append_bytes data_read c = record {
  pending = c.pending;
  buffer = c.buffer ++ data_read;
  is_text = c.is_text;
  written = c.written;
  errors = c.errors;
}

-- on_read, after async_read has filled the buffer.
unfoldable pub on_read : ReadEnd → EchoSession → EchoSession
on_read closed c = stop c
on_read (read_error reason got_text data_read) c =
    echo got_text (fail reason (bytes "read") (append_bytes data_read c))
on_read (message got_text data_read) c = echo got_text (append_bytes data_read c)

-- `buffer_.consume(buffer_.size())`
unfoldable pub consume_all : EchoSession → EchoSession
consume_all c = record {
  pending = c.pending;
  buffer = [];
  is_text = c.is_text;
  written = c.written;
  errors = c.errors;
}

-- on_write
unfoldable pub on_write : (ec : Option Bytes) → EchoSession → EchoSession
on_write (some reason) c = stop (fail reason (bytes "write") c)
on_write none c = do_read (consume_all c)
