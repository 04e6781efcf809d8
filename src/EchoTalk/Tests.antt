-- ===== src/EchoTalk/Tests.antt =====
-- A client of wxUI/websocket_client.cpp that says hello to the server of websocket_srv/webserver.cpp.
use da_gis_service.Common.{true, List, [], ◌∷◌, Bytes, bytes}
use da_gis_service.EchoClient.{ClientSession}
use da_gis_service.EchoServer.{Message, EchoSession}
use da_gis_service.EchoTalk.Heard.{IsTalk, Talk-IsTalk}
use da_gis_service.EchoTalk.Ends.{Talk-ends}

abbrev host : Bytes
host = bytes "127.0.0.1"

abbrev port : Bytes
port = bytes "8082"

abbrev hello : Bytes
hello = bytes "Hello world"

abbrev greeting : List Message
greeting = (true, hello) ∷ []

abbrev client : ClientSession
client = (Talk-ends host port hello).0

abbrev server : EchoSession
server = (Talk-ends host port hello).1

Talk-IsTalk_example : IsTalk hello greeting greeting client server
Talk-IsTalk_example = Talk-IsTalk host port hello (Talk-ends host port hello).2
