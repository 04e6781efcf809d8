-- ===== src/TestProtocol.antt =====
-- ws_callback of main.cpp, the callback of the daemon's protocol without a name. Its array
-- lws_recv_message has 4096 bytes, and so has lws_message. `in` is seen as the message that it points to.
pub mod Received
mod Tests
use da_gis_service.Common.{
  ℕ, zero, suc, ◌+◌, ◌*◌, ◌≡◌, Bool, true, false, Option, none, some, List, [], ◌∷◌, ◌++◌, Bytes,
  bytes, length, c_str, ltb, if◌then◌else◌,
}
use da_gis_service.Frames.{Memory}
use da_gis_service.Verify.{to_string}
use da_gis_service.Passage.{put, text_at}

-- lws_callback_reasons, those of the switch and any other.
pub data Reason : Type 0 where
  http client_established client_receive http_confirm_upgrade add_headers established : Reason
  established_client_http client_writeable closed client_connection_error protocol_init : Reason
  client_http_bind_protocol get_thread_id event_wait_cancelled client_http_drop_protocol : Reason
  wsi_destroy filter_network_connection wsi_create closed_http filter_http_connection : Reason
  http_bind_protocol server_new_client_instantiated http_writeable receive other : Reason

-- LWS_MESSAGE and LWS_RECV_MESSAGE
abbrev pub lws_message_size : ℕ
lws_message_size = 4096

-- `web_socket`, which is a connection or null, the two arrays, and what was printed and written.
pub record TestGlobals : Type 0 where
  pub web_socket : Option ℕ
  pub lws_message : Memory
  pub lws_recv_message : Memory
  pub printed : List Bytes
  pub written : List Bytes

-- `memset(m, 0, n)`
unfoldable pub clear : (n : ℕ) → Memory → Memory
clear n m a = if ltb a n then 0 else m a

-- The text that is sent to a server that can take one, in UTF-8.
abbrev pub test_message : Bytes
test_message =
    bytes "{\"type\" : \"test\", \"first\" : \""
    ++ 208
      ∷ 191
      ∷ 208
      ∷ 181
      ∷ 209
      ∷ 128
      ∷ 208
      ∷ 178
      ∷ 209
      ∷ 139
      ∷ 208
      ∷ 185
      ∷ (bytes "\",\"second\" : \""
          ++ 208 ∷ 178 ∷ 209 ∷ 130 ∷ 208 ∷ 190 ∷ 209 ∷ 128 ∷ 208 ∷ 190 ∷ 208 ∷ 185 ∷ bytes "\"}")

abbrev print : Bytes → TestGlobals → TestGlobals
print text g = record g { printed = g.printed ++ text ∷ [] }

-- `LWS_CALLBACK_CLIENT_WRITEABLE`; sprintf ends the text with a NUL.
unfoldable pub send_test_message : TestGlobals → TestGlobals
send_test_message g = record g {
  lws_message = put (test_message ++ 0 ∷ []) 0 (clear lws_message_size g.lws_message);
  printed = g.printed ++ bytes "LWS_CALLBACK_CLIENT_WRITEABLE\r\n" ∷ [];
  written = g.written ++ test_message ∷ [];
}

-- `LWS_CALLBACK_RECEIVE`; the C string printed is read with fuel for the array and `bound` bytes behind it.
unfoldable pub receive_message : (bound : ℕ) (in_message : Bytes) → TestGlobals → TestGlobals
receive_message bound in_message g =
    let m = put in_message 0 (clear lws_message_size g.lws_recv_message) in
    record g {
      lws_recv_message = m;
      printed =
          g.printed
          ++ (bytes "receive = " ++ (text_at (lws_message_size + bound) 0 m ++ bytes "\r\n")) ∷ [];
    }

-- The switch of ws_callback.
unfoldable pub on_reason : (bound : ℕ) → Reason → (in_message : Bytes) → TestGlobals → TestGlobals
on_reason bound http in_message g = print (bytes "LWS_CALLBACK_HTTP\r\n") g
on_reason bound client_established in_message g =
    print (bytes "LWS_CALLBACK_CLIENT_ESTABLISHED\r\n") g
on_reason bound client_receive in_message g = print (bytes "LWS_CALLBACK_CLIENT_RECEIVE\r\n") g
on_reason bound established in_message g = print (bytes "LWS_CALLBACK_ESTABLISHED\r\n") g
on_reason bound client_writeable in_message g = send_test_message g
on_reason bound closed in_message g = record g { web_socket = none }
on_reason bound client_connection_error in_message g = record g {
  web_socket = none;
  printed =
      g.printed
      ++ bytes "LWS_CALLBACK_CLIENT_CONNECTION_ERROR\r\n"
        ∷ (b'[' ∷ (to_string (length in_message) ++ b']' ∷ (c_str in_message ++ bytes "\r\n")))
        ∷ [];
}
on_reason bound client_http_drop_protocol in_message g =
    print (bytes "LWS_CALLBACK_CLIENT_HTTP_DROP_PROTOCOL\r\n") g
on_reason bound wsi_destroy in_message g = record g {
  web_socket = none;
  printed = g.printed ++ bytes "LWS_CALLBACK_WSI_DESTROY\r\n" ∷ [];
}
on_reason bound closed_http in_message g = print (bytes "LWS_CALLBACK_CLOSED_HTTP\r\n") g
on_reason bound filter_http_connection in_message g =
    print (bytes "LWS_CALLBACK_FILTER_HTTP_CONNECTION\r\n") g
on_reason bound server_new_client_instantiated in_message g =
    print (bytes "LWS_CALLBACK_SERVER_NEW_CLIENT_INSTANTIATED\r\n") g
on_reason bound http_writeable in_message g = print (bytes "LWS_CALLBACK_HTTP_WRITEABLE\r\n") g
on_reason bound receive in_message g = receive_message bound in_message g
on_reason bound _ in_message g = g

-- ws_callback: its result and the globals after it.
unfoldable pub ws_callback :
    (bound : ℕ) → Reason → (in_message : Bytes) → TestGlobals → ℕ × TestGlobals
ws_callback bound reason in_message g = (0, on_reason bound reason in_message g)
