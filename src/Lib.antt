-- ===== src/Lib.antt =====
-- The services of da_gis_service, as a library of definitions and theorems.
--
-- The program is a set of services. http_server/ is an HTTP server for a web client: it sends files,
-- lets users log in with a name and a password, issues JSON web tokens, and answers API requests that
-- come with such a token. websocket_srv/ is a WebSocket server that sends each message back, and wxUI/
-- has a client for it. main.cpp is a daemon that reads frames of two cameras from shared memory and
-- sends images and position to a client that connects to it.
--
-- Common: byte strings, tests and list lemmas. Outcome: a call returns or throws.
-- Jwt: http_server/jwt/json_web_tokens.cpp (Verify is `verify`, CreateToken `create_token`).
-- Users: http_server/users/users_storage.{h,cpp} (AuthenticateUser is `authenticate_user`, DisproveUser
--   `disprove_user`, GetUserData `get_user_data`, TokenExist `token_exist`, CheckAccess `check_access`,
--   VerifyToken `verify_token`). The state is the list of users.
-- Json: http_server/api/json_structs.hpp (JsonToStruct is `json_to_struct`, StructToJson
--   `struct_to_json`, the overloads of tag_invoke `token_of_json`, `json_of_token` and so on).
-- Api: http_server/api/api_handler.{h,cpp} (HandleApiRequest is `handle_api_request`, LoginUser
--   `login_user`, the functions of the route table `run_method`). The state, `Server`, is the users
--   and the request context.
-- HttpResponse, Http: http_server/httpserver.cpp (`mime_type` and the helpers that build a response;
--   `path_cat` and `handle_request`, under the names of the code).
-- Http.Connection: class session of the same file, with `on_read`, `on_write`, `do_close` and so on.
-- Http.Listener: class listener of the same file; that of websocket_srv/webserver.cpp has the same words.
-- HttpService: the HTTP server as a whole, its listener, sessions, users and context; a state is a `World`.
-- EchoServer: class CWSSession of websocket_srv/webserver.cpp.
-- EchoService: the WebSocket server as a whole, its listener and sessions.
-- StartUp: main of both servers (`http_main`, `websocket_main`).
-- Numerals: std::atoi and std::stoi.
-- EchoClient: wxUI/websocket_client.cpp (`spawn_client`). EchoTalk: this client in conversation with a
--   CWSSession of the server.
-- Broadcast: callback_minimal of main.cpp, a function for each reason of a callback.
-- Frames: readFrame (`read_frame`) and readPartFrame (`read_part_frame`) of main.cpp. Frames.Mutexes: the
--   mutexes that mutexIdsInit and mutexFramesInit copy, and readFrame on the copies (`read_shared`).
-- NmeaLog: addNmeaLog (`add_nmea_log`), getField (`get_field`) and getTimeMcsFromArray
--   (`get_time_mcs_from_array`) of main.cpp. NmeaLog.Dates: getCalcTime (`get_calc_time`) and getCalcTimeNs.
-- Verify: prepareVerifyAnswer (`prepare_verify_answer`) of main.cpp.
-- VerifyServer: readAndCompress (`read_and_compress`), sendVerifyAnswer (`send_verify_answer`),
--   accept_connectionVerify, reacceptVerify and the loop of thrVerifyServer of main.cpp.
--   VerifyServer.Loop: turns of that loop (`take_turns`). VerifyServer.Commands: recvVerifyMessage.
-- Passage: savePassage (`save_passage`), jpegProc (`jpeg_proc`) and convertToBase64 of main.cpp; `encode` is
--   what VerifyServer takes for the images.
-- Sift: calcsift of main.cpp. Sift.Distance: calcClassicZ (`calc_classic_z`) and calcDist.
-- TestProtocol: ws_callback of main.cpp.
-- Settings: parse_settings of main.cpp.
-- Samples: small stand-ins for the libraries, for evaluation.
--
-- A string is the list of its bytes. Functions that may throw return an `Outcome`; a state after an
-- exception is returned beside it. The mutexes of the two singletons make each request one step: a
-- run of the server is a sequence of requests. Readings of the clock are arguments, in whole
-- seconds, rounded down.
--
-- A session of Boost.Asio is a state that waits for one operation. Its runs are data types: each
-- handler runs when its operation was the one waited for, with any end that the operation can have.
-- Between the handlers of an HTTP session others may change the shared state. A loop on a mutex runs
-- over the list of its attempts, and has no result while they all find the mutex busy. Digits are
-- written on fuel, one more than the number, which has no more digits than that; a client session is
-- run for six handlers, as many as it can have.
--
-- What is not in the repository, or is a copy of another project's library in it, is a parameter:
-- jwt-cpp (`JwtCpp`), boost::json (`BoostJson`), the file system (`open_file`), the version string
-- of Boost.Beast and its need_eof, the type double with its conversions, the layout of the shared
-- memory, the results of the system's calls, what memory holds behind an array, mktime, localtime, rapidjson,
-- OpenCV, libjpeg and Base64. The records `JwtLaws`, `JsonLaws`, `EndIsTrue`, `OpenCvLaws`, `Base64Laws`,
-- `SortLaws`, `OrderLaws`, `CropLaws`, `EmptyLaws` and `MutexLaws` hold the documented behaviour that a
-- theorem relies on.
--
-- Not modelled: log output of the servers, time limits, the wxWidgets window, main of the daemon and the
-- opening of its pipe, lwsInit and lwsMain, which only call libwebsockets, save_settings, which does nothing,
-- and the libraries jwt-cpp, picojson, CxxUrl and base64 that the repository has copies of.
mod Common
pub mod Outcome
pub mod Numerals
pub mod Jwt
pub mod Users
pub mod Json
pub mod Api
pub mod HttpResponse
pub mod Http
pub mod EchoServer
pub mod Broadcast
pub mod Frames
pub mod Verify
pub mod VerifyServer
pub mod Passage
pub mod Sift
pub mod TestProtocol
pub mod Settings
pub mod EchoClient
pub mod NmeaLog
pub mod HttpService
pub mod EchoService
pub mod EchoTalk
pub mod StartUp
mod Samples
