-- ===== src/HttpService/Sound.antt =====
-- What holds of every state that the server of http_server/httpserver.cpp reaches.
use da_gis_service.Common.{
  ◌≡◌, ◌∙◌, inl, inr, sym, refl, Bool, true, Option, List, [], ◌∷◌, ◌++◌, All, All-append,
  All-middle, All-replace, Bytes, length, length-append, length-replace, All-map,
}
use da_gis_service.Outcome.{Outcome, ret, raise}
use da_gis_service.Jwt.{JwtCpp}
use da_gis_service.Json.{BoostJson}
use da_gis_service.Api.{Request, Server, Clock}
use da_gis_service.Api.Reach.{Reach, start}
use da_gis_service.HttpResponse.{Response, Opened}
use da_gis_service.Http.{handle_request}
use da_gis_service.Http.Listener.{
  Listener, Setup, AcceptEnd, failed, accepted, on_accept, launch, do_accept, run,
}
use da_gis_service.Http.Listener.Launched.{listener-launched}
use da_gis_service.Http.Connection.{
  reading, writing, HttpSession, ReadEnd, request, end_of_stream, read_error, send_answer, do_read,
  on_read, on_write,
}
use da_gis_service.Http.Connection.Ordered
use da_gis_service.Http.Connection.Ordered.{
  Run, AfterRead-Answered, on_read-AfterRead, on_write-written,
}
use da_gis_service.HttpService.{
  Connection, World, connection, world, new_connection, Serving, Was, begin, accepts, reads, writes,
}
use da_gis_service.HttpService.Exchanges.{handle_request-Reach}
use da_gis_service.Http.Connection.Moments.{
  Moment, moments_at, requests, requests-moments_at, Answered,
}

module _ (beast_version : Bytes) (open_file : Bytes → Opened) (jwt : JwtCpp) (js : BoostJson)
    (doc_root : Bytes) where
  module _ (need_eof : Response → Bool) (setup : Setup) where
    abbrev Here : World → Type 0
    Here = Serving need_eof beast_version open_file jwt js doc_root setup

    abbrev Runs : Server → Connection → Type 0
    Runs s c = Run need_eof beast_version open_file jwt js doc_root (requests c.asked) c.session s

    abbrev Exchanged : Connection → Type 0
    Exchanged c = Answered beast_version open_file jwt js doc_root c.asked c.session.written

    abbrev WasIn : {w : World} → Here w → Server → Type 0
    WasIn serving t = Was need_eof beast_version open_file jwt js doc_root setup serving t

    -- The server was in the states before and after each moment of a connection.
    abbrev pub Passed : {w : World} → Here w → Connection → Type 0
    Passed serving c = All (λ (m : Moment). WasIn serving m.before × WasIn serving m.after) c.asked

    -- Users and context are as answered requests leave them; each connection is a run of a session, its
    -- responses are those to its requests in the states of their moments, which the server went through; and
    -- there is one connection for each socket that the listener accepted.
    pub record IsSound {w : World} (serving : Here w) : Type 0 where
      pub reached : (t : Server) → WasIn serving t → Reach jwt js t
      pub is_now : WasIn serving w.server
      pub runs : All (Runs w.server) w.connections
      pub exchanges : All Exchanged w.connections
      pub passed : All (Passed serving) w.connections
      pub launched : length w.connections ≡ length w.listener.launched

    connect-IsSound :
        (end : AcceptEnd) (l : Listener) (connections : List Connection) (s : Server)
        (before : Here (world l connections s)) (can : l.is_accepting ≡ true)
        → IsSound before
        → IsSound (accepts before can end)
    unfolding on_accept do_accept launch do_read
    connect-IsSound (failed message) l connections s before can h = record {
      reached = h.reached;
      is_now = h.is_now;
      runs = h.runs;
      exchanges = h.exchanges;
      passed = h.passed;
      launched = h.launched;
    }
    connect-IsSound (accepted socket) l connections s before can h = record {
      reached = h.reached;
      is_now = h.is_now;
      runs = All-append (Runs s) connections (new_connection ∷ []) h.runs (Ordered.begin s, tt);
      exchanges = All-append Exchanged connections (new_connection ∷ []) h.exchanges (tt, tt);
      passed = All-append (Passed before) connections (new_connection ∷ []) h.passed (tt, tt);
      launched =
          rw (length-append connections (new_connection ∷ []), h.launched)
            (sym (length-append l.launched (socket ∷ [])));
    }

    send_answer-Reach :
        (clock : Clock) (req : Request) (c c' : HttpSession) (s s' : Server)
        (r : Outcome Response × Server)
        → Reach jwt js s
        → handle_request beast_version open_file jwt js doc_root clock req s ≡ r
        → send_answer need_eof r c ≡ (ret c', s')
        → Reach jwt js s'
    unfolding send_answer
    send_answer-Reach clock req c c' s s' (raise e, after) reach h q = absurd cc
    send_answer-Reach clock req c c' s s' (ret msg, after) reach h q =
        let same : after ≡ s' = cc in
        handle_request-Reach beast_version open_file jwt js doc_root clock req msg s s' reach
          (rw (← same) h)

    on_read-Reach :
        (end : ReadEnd) (c c' : HttpSession) (s s' : Server)
        → Reach jwt js s
        → on_read need_eof beast_version open_file jwt js doc_root end c s ≡ (ret c', s')
        → Reach jwt js s'
    unfolding on_read send_answer
    on_read-Reach end_of_stream c c' s s' reach q = let same : s ≡ s' = cc in rw (← same) reach
    on_read-Reach (read_error message) c c' s s' reach q =
        let same : s ≡ s' = cc in rw (← same) reach
    on_read-Reach (request clock req) c c' s s' reach q =
        send_answer-Reach clock req c c' s s' _ reach refl q

    -- The moment of a read that ends with a request lies between two states that the server was in.
    moments_at-Passed :
        (P : Server → Type 0) (end : ReadEnd) (s s' : Server)
        → P s
        → P s'
        → All (λ (m : Moment). P m.before × P m.after) (moments_at end s s')
    moments_at-Passed P (request clock req) s s' p q = ((p, q), tt)
    moments_at-Passed P end_of_stream s s' p q = tt
    moments_at-Passed P (read_error message) s s' p q = tt

    -- What a read leaves as it was, and what it adds.
    read-IsSound :
        (earlier later : List Connection) (asked : List Moment) (c c' : HttpSession) (l : Listener)
        (s s' : Server) (before : Here (world l (earlier ++ connection asked c ∷ later) s))
        (can : c.pending ≡ reading) (end : ReadEnd)
        (q : on_read need_eof beast_version open_file jwt js doc_root end c s ≡ (ret c', s'))
        → IsSound before
        → IsSound (reads earlier later asked c c' before can end q)
    read-IsSound earlier later asked c c' l s s' before can end q h =
        let old = connection asked c in
        let new = connection (asked ++ moments_at end s s') c' in
        let run = All-middle (Runs s) earlier old later h.runs in
        let more = Ordered.reads run can end q in
        let next : Runs s' new = rw (requests-moments_at asked end s s') more in
        let now = reads earlier later asked c c' before can end q in
        let still = λ (d : Connection) (p : Passed before d).
          All-map (λ (m : Moment). WasIn before m.before × WasIn before m.after)
            (λ (m : Moment). WasIn now m.before × WasIn now m.after) (λ m (x, y). (inr x, inr y))
            d.asked p in
        record {
          reached = λ t w. elim w [
            | inl e ↦ rw e (on_read-Reach end c c' s s' (h.reached s h.is_now) q)
            | inr w ↦ h.reached t w
          ];
          is_now = inl refl;
          runs = All-replace (Runs s') earlier old new later next (
              All-map (Runs s) (Runs s') (λ d r. Ordered.elsewhere r s') (earlier ++ old ∷ later)
                h.runs);
          exchanges =
              All-replace Exchanged earlier old new later
                (AfterRead-Answered need_eof beast_version open_file jwt js doc_root asked end c c'
                  s s' (All-middle Exchanged earlier old later h.exchanges)
                  (on_read-AfterRead need_eof beast_version open_file jwt js doc_root end c c' s s'
                    q))
                h.exchanges;
          passed =
              All-replace (Passed now) earlier old new later
                (All-append (λ (m : Moment). WasIn now m.before × WasIn now m.after) asked
                  (moments_at end s s')
                  (still old (All-middle (Passed before) earlier old later h.passed))
                  (moments_at-Passed (WasIn now) end s s' (inr h.is_now) (inl refl)))
                (All-map (Passed before) (Passed now) still (earlier ++ old ∷ later) h.passed);
          launched = length-replace earlier new old later ∙ h.launched;
        }

    write-IsSound :
        (earlier later : List Connection) (asked : List Moment) (c : HttpSession) (l : Listener)
        (s : Server) (before : Here (world l (earlier ++ connection asked c ∷ later) s))
        (close : Bool) (can : c.pending ≡ writing close) (ec : Option Bytes)
        → IsSound before
        → IsSound (writes earlier later asked c before close can ec)
    write-IsSound earlier later asked c l s before close can ec h =
        let old = connection asked c in
        let new = connection asked (on_write close ec c) in
        let run = All-middle (Runs s) earlier old later h.runs in
        record {
          reached = h.reached;
          is_now = h.is_now;
          runs =
              All-replace (Runs s) earlier old new later (Ordered.writes run close can ec) h.runs;
          exchanges =
              All-replace Exchanged earlier old new later
                (rw (on_write-written need_eof beast_version open_file jwt js doc_root close ec c)
                  (All-middle Exchanged earlier old later h.exchanges))
                h.exchanges;
          passed =
              All-replace (Passed before) earlier old new later
                (All-middle (Passed before) earlier old later h.passed) h.passed;
          launched = length-replace earlier new old later ∙ h.launched;
        }

    begin-IsSound : IsSound begin
    unfolding do_read run do_accept
    begin-IsSound = record {
      reached = λ t e. rw e start;
      is_now = refl;
      runs = tt;
      exchanges = tt;
      passed = tt;
      launched = rw (listener-launched setup) refl;
    }

    -- However the handlers of the HTTP server interleave, in every state on their way: users and context are
    -- as answered requests leave them; each connection is a run of a session; each response is that of
    -- handle_request to the request at its place, in the state in which the read of the request ended, which
    -- the server was in; and there is one connection for each socket that was accepted.
    pub Serving-IsSound : {w : World} → (serving : Here w) → IsSound serving
    Serving-IsSound begin = begin-IsSound
    Serving-IsSound (accepts {l} {connections} {s} before can end) =
        connect-IsSound end l connections s before can (Serving-IsSound before)
    Serving-IsSound (reads earlier later asked c c' {l} {s} {s'} before can end q) =
        read-IsSound earlier later asked c c' l s s' before can end q (Serving-IsSound before)
    Serving-IsSound (writes earlier later asked c {l} {s} before close can ec) =
        write-IsSound earlier later asked c l s before close can ec (Serving-IsSound before)
