-- ===== src/EchoService/Tests.antt =====
-- Two clients of websocket_srv/webserver.cpp.
use da_gis_service.Common.{refl, true, none, [], ◌∷◌, bytes}
use da_gis_service.Http.Listener.{
  Setup, Listener, accepted, listener, listen_step, bind_step, set_option_step, run, launch,
  on_accept, do_accept,
}
use da_gis_service.EchoServer as EchoServer
use da_gis_service.EchoServer.{EchoSession, message, on_run, do_read, echo, append_bytes, on_read}
use da_gis_service.EchoService.{
  Member, member, echo_world, new_member, websocket_listener, websocket_on_accept, accepts, reads,
  EchoServing, begin, launches, handles,
}
use da_gis_service.EchoService.Sound.{IsEchoing, EchoServing-IsEchoing}

code : Unit {0}
unfolding websocket_listener websocket_on_accept listener listen_step bind_step set_option_step run
    launch on_accept do_accept EchoServer.on_accept do_read
code = tt

abbrev setup : Setup
setup = record {
  open_error = none;
  set_option_error = none;
  bind_error = none;
  listen_error = none;
}

abbrev two_sockets : Listener
two_sockets = record { is_accepting = true; launched = 4 ∷ 5 ∷ []; errors = [] }

abbrev open_session : EchoSession
open_session = do_read on_run

abbrev greeted : Member
greeted =
    member ((true, bytes "hello") ∷ []) [] (on_read (message true (bytes "hello")) open_session)

one_greeted : EchoServing setup (echo_world two_sockets (greeted ∷ new_member ∷ []))
unfolding code
one_greeted =
    handles [] (new_member ∷ []) (member [] [] open_session) greeted
      (handles [] (new_member ∷ []) new_member (member [] [] open_session)
        (launches (launches begin refl (accepted 4)) refl (accepted 5)) (accepts refl none))
      (reads refl (message true (bytes "hello")))

EchoServing-IsEchoing_example : IsEchoing (echo_world two_sockets (greeted ∷ new_member ∷ []))
EchoServing-IsEchoing_example = EchoServing-IsEchoing one_greeted
