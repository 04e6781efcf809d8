-- ===== src/EchoService/Sound.antt =====
-- What holds of every state that the server of websocket_srv/webserver.cpp reaches.
use da_gis_service.Common.{
  ◌≡◌, ◌∙◌, sym, refl, true, [], ◌∷◌, All, All-append, All-middle, All-replace, length,
  length-append, length-replace, All-map,
}
use da_gis_service.Http.Listener.{
  Setup, AcceptEnd, failed, accepted, do_accept, run, launch, on_accept,
}
use da_gis_service.Http.Listener.Launched.{listener-launched}
use da_gis_service.EchoServer.Echoes as Echoes
use da_gis_service.EchoServer.Echoes.{Run, IsEcho, Run-IsEcho}
use da_gis_service.EchoService.{
  Member, EchoWorld, new_member, websocket_listener, websocket_on_accept, Handles, accepts, reads,
  writes, EchoServing, begin, launches, handles,
}

abbrev HasRun : Member → Type 0
HasRun m = Run m.sent m.lost m.session

abbrev pub Echoed : Member → Type 0
Echoed m = IsEcho m.sent m.lost m.session

-- The listener waits for a connection; there is one session for each socket that it accepted; and each session
-- has echoed what it read and reported what failed.
pub record IsEchoing (w : EchoWorld) : Type 0 where
  pub accepting : w.listener.is_accepting ≡ true
  pub launched : length w.members ≡ length w.listener.launched
  pub echoed : All Echoed w.members

-- The same, with the runs of the sessions.
record HasRuns (w : EchoWorld) : Type 0 where
  accepting : w.listener.is_accepting ≡ true
  launched : length w.members ≡ length w.listener.launched
  runs : All HasRun w.members

launch-HasRuns : (end : AcceptEnd) (w : EchoWorld) → HasRuns w → HasRuns (websocket_on_accept end w)
unfolding websocket_on_accept on_accept do_accept launch
launch-HasRuns (failed message) w h = record {
  accepting = refl;
  launched = h.launched;
  runs = h.runs;
}
launch-HasRuns (accepted socket) w h = record {
  accepting = refl;
  launched =
      rw (length-append w.members (new_member ∷ []), h.launched)
        (sym (length-append w.listener.launched (socket ∷ [])));
  runs = All-append HasRun w.members (new_member ∷ []) h.runs (Echoes.begin, tt);
}

Handles-HasRun : (m m' : Member) → Handles m m' → HasRun m → HasRun m'
Handles-HasRun m m' (accepts can ec) h = Echoes.accepts h can ec
Handles-HasRun m m' (reads can end) h = Echoes.reads h can end
Handles-HasRun m m' (writes can ec) h = Echoes.writes h can ec

EchoServing-HasRuns : {setup : Setup} {w : EchoWorld} → EchoServing setup w → HasRuns w
unfolding websocket_listener run do_accept
EchoServing-HasRuns {setup} begin = record {
  accepting = refl;
  launched = rw (listener-launched setup) refl;
  runs = tt;
}
EchoServing-HasRuns (launches {w} before can end) =
    launch-HasRuns end w (EchoServing-HasRuns before)
EchoServing-HasRuns (handles earlier later m m' before step) =
    let h = EchoServing-HasRuns before in
    record {
      accepting = h.accepting;
      launched = length-replace earlier m' m later ∙ h.launched;
      runs =
          All-replace HasRun earlier m m' later
            (Handles-HasRun m m' step (All-middle HasRun earlier m later h.runs)) h.runs;
    }

-- However the handlers of the listener and of the sessions come, whether the set-up failed or not: the server
-- waits for a connection, has one session for each socket that it accepted, and each session has echoed each of
-- its reads, with no byte of another's, and reported each of its failures.
pub EchoServing-IsEchoing : {setup : Setup} {w : EchoWorld} → EchoServing setup w → IsEchoing w
EchoServing-IsEchoing {w} serving =
    let h = EchoServing-HasRuns serving in
    record {
      accepting = h.accepting;
      launched = h.launched;
      echoed = All-map HasRun Echoed (λ m run. Run-IsEcho run) w.members h.runs;
    }
