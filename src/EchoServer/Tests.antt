-- ===== src/EchoServer/Tests.antt =====
-- A connection of websocket_srv/webserver.cpp with two messages and a failed read.
use da_gis_service.Common.{refl, true, false, none, List, [], ◌∷◌, Bytes, bytes}
use da_gis_service.EchoServer.{
  Message, EchoSession, message, read_error, on_run, do_read, fail, stop, on_accept, echo,
  append_bytes, on_read, consume_all, on_write,
}
use da_gis_service.EchoServer.Echoes.{Run, begin, accepts, reads, writes, IsEcho, Run-IsEcho}

abbrev second_read : EchoSession
second_read =
    on_read (message false (bytes "two"))
      (on_write none (on_read (message true (bytes "one")) (on_accept none on_run)))

abbrev failed_read : EchoSession
failed_read = on_read (read_error (bytes "reset") true (bytes "thr")) (on_write none second_read)

abbrev sent : List Message
sent = (true, bytes "one") ∷ (false, bytes "two") ∷ (true, bytes "thr") ∷ []

abbrev lost : List (Bytes × Bytes)
lost = (bytes "read", bytes "reset") ∷ []

three_reads : Run sent lost failed_read
unfolding do_read fail stop on_accept echo append_bytes on_read consume_all on_write
three_reads =
    reads
      (writes
        (reads
          (writes (reads (accepts begin refl none) refl (message true (bytes "one"))) refl none)
          refl (message false (bytes "two")))
        refl none)
      refl (read_error (bytes "reset") true (bytes "thr"))

Run-IsEcho_example : IsEcho sent lost failed_read
Run-IsEcho_example = Run-IsEcho three_reads
