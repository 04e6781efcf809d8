-- ===== src/TestProtocol/Tests.antt =====
-- Calls of ws_callback of main.cpp.
use da_gis_service.Common.{◌≡◌, ◌≤◌, ◌↔◌, ℕ, refl, none, some, [], ◌∷◌, bytes, length, c_str}
use da_gis_service.Frames.{Memory}
use da_gis_service.Passage.{set, put, text_at}
use da_gis_service.TestProtocol.{
  client_writeable, closed, receive, TestGlobals, lws_message_size, clear, test_message,
  send_test_message, receive_message, on_reason, ws_callback,
}
use da_gis_service.TestProtocol.Received.{with_recv, ws_callback-outside_iff}

abbrev globals : TestGlobals
globals = record {
  web_socket = some 3;
  lws_message = λ a. 7;
  lws_recv_message = λ a. 7;
  printed = [];
  written = [];
}

code : Unit {0}
unfolding clear send_test_message receive_message on_reason ws_callback put set text_at c_str
code = tt

callback_run :
    ((ws_callback 0 receive (bytes "hello") globals).1.printed ≡ bytes "receive = hello\r\n" ∷ [])
    × ((ws_callback 0 client_writeable [] globals).1.written ≡ test_message ∷ [])
    × ((ws_callback 0 closed [] globals).1.web_socket ≡ none)
unfolding code
callback_run = (refl, refl, refl)

ws_callback-outside_iff_example :
    ((m : Memory) (a : ℕ)
      → lws_message_size ≤ a
      → (ws_callback 0 receive (bytes "hello") (with_recv globals m)).1.lws_recv_message a ≡ m a)
    ↔ (length (bytes "hello") ≤ lws_message_size)
ws_callback-outside_iff_example = ws_callback-outside_iff 0 (bytes "hello") globals
