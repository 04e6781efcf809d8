-- ===== src/Http/Connection/Ordered.antt =====
-- Every run of a session of http_server/httpserver.cpp: the requests it reads and the responses it
-- writes, with other sessions changing the shared users and context between its handlers.
use mathlib.Core.List.{append-nil}
use da_gis_service.Common.{
  ◌≡◌, ◌∙◌, ap, refl, Bool, true, false, Option, none, some, List, [], ◌∷◌, ◌++◌, Bytes, bytes, All,
  All-append,
}
use da_gis_service.Outcome.{Outcome, ret, raise}
use da_gis_service.Jwt.{JwtCpp}
use da_gis_service.Json.{BoostJson}
use da_gis_service.Api.{Request, Server, Clock}
use da_gis_service.HttpResponse.{Response, Opened}
use da_gis_service.Http.{handle_request}
use da_gis_service.Http.Connection.Moments.{
  requests_of, Moment, moments_at, requests, requests-moments_at, Answered, snoc-Answered,
}
use da_gis_service.Http.Connection.{
  idle, reading, writing, HttpSession, ReadEnd, request, end_of_stream, read_error, fresh, do_read,
  do_close, fail, on_write, send_lambda, send_answer, on_read,
}

module _ (need_eof : Response → Bool) (beast_version : Bytes) (open_file : Bytes → Opened)
    (jwt : JwtCpp) (js : BoostJson) (doc_root : Bytes) where
  -- The states of a session after `run`, the requests read so far, and the shared state.
  pub data Run : List Request → HttpSession → Server → Type 0 where
    begin : (s : Server) → Run [] (do_read fresh) s
    elsewhere :
        {reqs : List Request} {c : HttpSession} {s : Server}
        → Run reqs c s
        → (s' : Server) → Run reqs c s'
    reads :
        {reqs : List Request} {c c' : HttpSession} {s s' : Server}
        → Run reqs c s
        → c.pending ≡ reading
        → (end : ReadEnd)
        → on_read need_eof beast_version open_file jwt js doc_root end c s ≡ (ret c', s')
        → Run (reqs ++ requests_of end) c' s'
    writes :
        {reqs : List Request} {c : HttpSession} {s : Server}
        → Run reqs c s
        → (close : Bool) → c.pending ≡ writing close
        → (ec : Option Bytes) → Run reqs (on_write close ec c) s

  -- The moments of a run at which a request was read, in order.
  unfoldable pub moments_of :
      {reqs : List Request} {c : HttpSession} {s : Server} → Run reqs c s → List Moment
  moments_of (begin s) = []
  moments_of (elsewhere run s') = moments_of run
  moments_of (reads {reqs} {c} {c'} {s} {s'} run can end q) = moments_of run ++ moments_at end s s'
  moments_of (writes run close can ec) = moments_of run

  -- The response leaves the connection open.
  abbrev pub KeepsOpen : Response → Type 0
  KeepsOpen msg = need_eof msg ≡ false

  -- What holds of a session between two of its handlers.
  pub data WellFormed (c : HttpSession) : Type 0 where
    waits :
        c.pending ≡ reading
        → c.res ≡ none
        → All KeepsOpen c.written
        → c.is_shut ≡ false
        → c.errors ≡ []
        → WellFormed c
    sends :
        (earlier : List Response) (msg : Response)
        → c.pending ≡ writing (need_eof msg)
        → c.res ≡ some msg
        → c.written ≡ earlier ++ msg ∷ []
        → All KeepsOpen earlier
        → c.is_shut ≡ false
        → c.errors ≡ []
        → WellFormed c
    closed : c.pending ≡ idle → c.is_shut ≡ true → c.errors ≡ [] → WellFormed c
    broken :
        (what message : Bytes)
        → c.pending ≡ idle
        → c.is_shut ≡ false
        → c.errors ≡ (what, message) ∷ []
        → WellFormed c

  -- What a read that ends without an exception comes to.
  pub data AfterRead (end : ReadEnd) (c c' : HttpSession) (s s' : Server) : Type 0 where
    hangs_up : end ≡ end_of_stream → c' ≡ do_close c → AfterRead end c c' s s'
    gives_up :
        (message : Bytes)
        → end ≡ read_error message
        → c' ≡ fail message (bytes "read") c
        → AfterRead end c c' s s'
    responds :
        (clock : Clock) (req : Request) (msg : Response)
        → end ≡ request clock req
        → handle_request beast_version open_file jwt js doc_root clock req s ≡ (ret msg, s')
        → c' ≡ send_lambda need_eof msg c
        → AfterRead end c c' s s'

  send_answer-AfterRead :
      (clock : Clock) (req : Request) (c c' : HttpSession) (s s' : Server)
      (r : Outcome Response × Server)
      → handle_request beast_version open_file jwt js doc_root clock req s ≡ r
      → send_answer need_eof r c ≡ (ret c', s')
      → AfterRead (request clock req) c c' s s'
  unfolding send_answer
  send_answer-AfterRead clock req c c' s s' (raise e, after) h q = absurd cc
  send_answer-AfterRead clock req c c' s s' (ret msg, after) h q =
      let same : after ≡ s' = cc in
      let sent : c' ≡ send_lambda need_eof msg c = cc in
      responds clock req msg refl (rw (← same) h) sent

  pub on_read-AfterRead :
      (end : ReadEnd) (c c' : HttpSession) (s s' : Server)
      → on_read need_eof beast_version open_file jwt js doc_root end c s ≡ (ret c', s')
      → AfterRead end c c' s s'
  unfolding on_read
  on_read-AfterRead end_of_stream c c' s s' q = hangs_up refl cc
  on_read-AfterRead (read_error message) c c' s s' q = gives_up message refl cc
  on_read-AfterRead (request clock req) c c' s s' q =
      send_answer-AfterRead clock req c c' s s' _ refl q

  pub on_write-written :
      (close : Bool) (ec : Option Bytes) (c : HttpSession)
      → (on_write close ec c).written ≡ c.written
  unfolding on_write do_close do_read fail
  on_write-written close (some message) c = refl
  on_write-written true none c = refl
  on_write-written false none c = refl

  pub AfterRead-Answered :
      (moments : List Moment) (end : ReadEnd) (c c' : HttpSession) (s s' : Server)
      → Answered beast_version open_file jwt js doc_root moments c.written
      → AfterRead end c c' s s'
      → Answered beast_version open_file jwt js doc_root (moments ++ moments_at end s s') c'.written
  unfolding do_close fail send_lambda
  AfterRead-Answered moments end c c' s s' h (hangs_up ended q) =
      rw (ended, q, append-nil moments) h
  AfterRead-Answered moments end c c' s s' h (gives_up message ended q) =
      rw (ended, q, append-nil moments) h
  AfterRead-Answered moments end c c' s s' h (responds clock req msg ended handled q) =
      rw (ended, q)
        (snoc-Answered beast_version open_file jwt js doc_root moments c.written
          (record { clock = clock; asked_for = req; before = s; after = s' }) msg h handled)

  moments_of-Answered :
      {reqs : List Request} {c : HttpSession} {s : Server}
      → (run : Run reqs c s)
      → Answered beast_version open_file jwt js doc_root (moments_of run) c.written
  unfolding do_read moments_of
  moments_of-Answered (begin s) = tt
  moments_of-Answered (elsewhere run s') = moments_of-Answered run
  moments_of-Answered (reads {reqs} {c} {c'} {s} {s'} run can end q) =
      AfterRead-Answered (moments_of run) end c c' s s' (moments_of-Answered run)
        (on_read-AfterRead end c c' s s' q)
  moments_of-Answered (writes {c} run close can ec) =
      rw (on_write-written close ec c) (moments_of-Answered run)

  requests-moments_of :
      {reqs : List Request} {c : HttpSession} {s : Server}
      → (run : Run reqs c s) → requests (moments_of run) ≡ reqs
  unfolding moments_of
  requests-moments_of (begin s) = refl
  requests-moments_of (elsewhere run s') = requests-moments_of run
  requests-moments_of (reads {reqs} {c} {c'} {s} {s'} run can end q) =
      requests-moments_at (moments_of run) end s s'
      ∙ ap (λ r. r ++ requests_of end) (requests-moments_of run)
  requests-moments_of (writes run close can ec) = requests-moments_of run

  -- However handlers and other sessions interleave, a session answers each request that it reads with one
  -- response, in the order of the requests: that of handle_request in the state in which the read ended, which
  -- also gives the state in which the handler of the read ends.
  pub Run-Answered :
      {reqs : List Request} {c : HttpSession} {s : Server}
      → (run : Run reqs c s)
      → Answered beast_version open_file jwt js doc_root (moments_of run) c.written
        × (requests (moments_of run) ≡ reqs)
  Run-Answered run = (moments_of-Answered run, requests-moments_of run)

  AfterRead-WellFormed :
      (end : ReadEnd) (c c' : HttpSession) (s s' : Server)
      → c.pending ≡ reading
      → WellFormed c
      → AfterRead end c c' s s'
      → WellFormed c'
  unfolding do_close fail send_lambda
  AfterRead-WellFormed end c c' s s' p (waits _ none_kept keeps open_still no_errors)
        (hangs_up _ q) =
      rw q (closed refl refl no_errors)
  AfterRead-WellFormed end c c' s s' p (waits _ none_kept keeps open_still no_errors)
        (gives_up message _ q) =
      rw q (broken (bytes "read") message refl open_still (rw no_errors refl))
  AfterRead-WellFormed end c c' s s' p (waits _ none_kept keeps open_still no_errors)
        (responds _ _ msg _ _ q) =
      rw q (sends c.written msg refl refl refl keeps open_still no_errors)
  AfterRead-WellFormed end c c' s s' p (sends _ _ e _ _ _ _ _) a = absurd cc
  AfterRead-WellFormed end c c' s s' p (closed e _ _) a = absurd cc
  AfterRead-WellFormed end c c' s s' p (broken _ _ e _ _) a = absurd cc

  on_write-WellFormed :
      (close : Bool) (ec : Option Bytes) (c : HttpSession)
      → c.pending ≡ writing close
      → WellFormed c
      → WellFormed (on_write close ec c)
  unfolding on_write do_close do_read fail
  on_write-WellFormed close ec c p (waits e _ _ _ _) = absurd cc
  on_write-WellFormed close ec c p (closed e _ _) = absurd cc
  on_write-WellFormed close ec c p (broken _ _ e _ _) = absurd cc
  on_write-WellFormed close (some message) c p (sends _ _ _ _ _ _ open_still no_errors) =
      broken (bytes "write") message refl open_still (rw no_errors refl)
  on_write-WellFormed true none c p (sends _ _ _ _ _ _ _ no_errors) = closed refl refl no_errors
  on_write-WellFormed false none c p (sends earlier msg e _ w keep open_still no_errors) =
      let stays : need_eof msg ≡ false = cc in
      waits refl refl (rw w (All-append KeepsOpen earlier (msg ∷ []) keep (stays, tt))) open_still
        no_errors

  -- Between its handlers a session waits for a request, with every response so far leaving the
  -- connection open; or for the last response that it wrote, which it still holds; or it is done: shut
  -- without an error, or ended by the one error that it reported.
  pub Run-WellFormed :
      {reqs : List Request} {c : HttpSession} {s : Server} → Run reqs c s → WellFormed c
  unfolding do_read
  Run-WellFormed (begin s) = waits refl refl tt refl refl
  Run-WellFormed (elsewhere run s') = Run-WellFormed run
  Run-WellFormed (reads {c} {c'} {s} {s'} run can end q) =
      AfterRead-WellFormed end c c' s s' can (Run-WellFormed run)
        (on_read-AfterRead end c c' s s' q)
  Run-WellFormed (writes {c} run close can ec) =
      on_write-WellFormed close ec c can (Run-WellFormed run)
