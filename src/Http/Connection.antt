-- ===== src/Http/Connection.antt =====
-- class session of http_server/httpserver.cpp: one connection, from the first read to the close. An
-- operation on the stream is pending from the call that starts it to the call of its handler; a time
-- limit that ends it shows as an error of it.
pub mod Moments
pub mod Ordered
pub mod Served
mod Tests
use da_gis_service.Common.{
  ◌≡◌, Bool, true, false, Option, none, some, List, [], ◌∷◌, ◌++◌, Bytes, bytes,
}
use da_gis_service.Outcome.{Outcome, ret, raise}
use da_gis_service.Jwt.{JwtCpp}
use da_gis_service.Json.{BoostJson}
use da_gis_service.Api.{Request, Server, Clock}
use da_gis_service.HttpResponse.{Response, Opened}
use da_gis_service.Http.{handle_request}

-- The operation that the session waits for; `close` is the first argument bound to on_write.
pub data Pending : Type 0 where
  idle : Pending
  reading : Pending
  writing : (close : Bool) → Pending

-- `written` and `errors` are what the session gave to the stream and to `fail`, in order.
pub record HttpSession : Type 0 where
  pub pending : Pending
  pub res : Option Response
  pub is_shut : Bool
  pub written : List Response
  pub errors : List (Bytes × Bytes)

-- How `http::async_read` ends.
pub data ReadEnd : Type 0 where
  request : Clock → Request → ReadEnd
  end_of_stream : ReadEnd
  read_error : (message : Bytes) → ReadEnd

-- A session as its constructor leaves it.
abbrev pub fresh : HttpSession
fresh = record { pending = idle; res = none; is_shut = false; written = []; errors = [] }

-- do_read
unfoldable pub do_read : HttpSession → HttpSession
do_read c = record {
  pending = reading;
  res = c.res;
  is_shut = c.is_shut;
  written = c.written;
  errors = c.errors;
}

-- do_close
unfoldable pub do_close : HttpSession → HttpSession
do_close c = record {
  pending = idle;
  res = c.res;
  is_shut = true;
  written = c.written;
  errors = c.errors;
}

-- `return fail(ec, what)`
unfoldable pub fail : (message what : Bytes) → HttpSession → HttpSession
fail message what c = record {
  pending = idle;
  res = c.res;
  is_shut = c.is_shut;
  written = c.written;
  errors = c.errors ++ (what, message) ∷ [];
}

abbrev clear_res : HttpSession → HttpSession
clear_res c = record {
  pending = c.pending;
  res = none;
  is_shut = c.is_shut;
  written = c.written;
  errors = c.errors;
}

-- on_write; `ec` is the message of an error.
unfoldable pub on_write : (close : Bool) (ec : Option Bytes) → HttpSession → HttpSession
on_write close (some message) c = fail message (bytes "write") c
on_write true none c = do_close c
on_write false none c = do_read (clear_res c)

-- `need_eof` is http::message::need_eof.
module _ (need_eof : Response → Bool) where
  -- send_lambda::operator()
  unfoldable pub send_lambda : Response → HttpSession → HttpSession
  send_lambda msg c = record {
    pending = writing (need_eof msg);
    res = some msg;
    is_shut = c.is_shut;
    written = c.written ++ msg ∷ [];
    errors = c.errors;
  }

  -- handle_request with the session's send_lambda, from its answer on.
  unfoldable pub send_answer :
      Outcome Response × Server → HttpSession → Outcome HttpSession × Server
  send_answer (raise e, s) c = (raise e, s)
  send_answer (ret msg, s) c = (ret (send_lambda msg c), s)

  module _ (beast_version : Bytes) (open_file : Bytes → Opened) (jwt : JwtCpp) (js : BoostJson)
      (doc_root : Bytes) where
    -- on_read
    unfoldable pub on_read : ReadEnd → HttpSession → Server → Outcome HttpSession × Server
    on_read end_of_stream c s = (ret (do_close c), s)
    on_read (read_error message) c s = (ret (fail message (bytes "read") c), s)
    on_read (request clock req) c s =
        send_answer (handle_request beast_version open_file jwt js doc_root clock req s) c
