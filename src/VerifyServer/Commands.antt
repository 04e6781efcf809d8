-- ===== src/VerifyServer/Commands.antt =====
-- recvVerifyMessage and recvVerifyParsing of main.cpp: commands of the client, which thrVerifyServer does not
-- ask for. The array bufRecvVrf has 1024 bytes.
use da_gis_service.Common.{
  ℕ, ◌+◌, ◌≤◌, ◌<◌, ◌≡◌, refl, Option, none, some, List, [], ◌∷◌, ◌++◌, Bytes, bytes, length, c_str,
}
use da_gis_service.Frames.{Memory}
use da_gis_service.Passage.{put, text_at}
use da_gis_service.TestProtocol.{clear}
use da_gis_service.TestProtocol.Received.{stored_text}

-- VRF_CMD
pub data VrfCmd : Type 0 where
  vrf_null vrf_set_brightness vrf_set_mode vrf_set_settings : VrfCmd

-- BUFFRECVSIZE
abbrev pub buffrecvsize : ℕ
buffrecvsize = 1024

-- bufRecvVrf, what the pointers `cmd` and `params` lead to, and what was printed.
pub record Received : Type 0 where
  pub buf_recv_vrf : Memory
  pub cmd : VrfCmd
  pub params : Bytes
  pub printed : List Bytes

-- recvVerifyParsing: its result and the parameters, whatever has been received.
unfoldable pub recv_verify_parsing : (size : ℕ) → VrfCmd × Bytes
recv_verify_parsing size = (vrf_set_mode, bytes "name=name&")

-- recvVerifyMessage: its result, none for -1, and what it leaves. recv stores a message in the array, or fails;
-- the C string printed is read with fuel for the array and `bound` bytes behind it.
unfoldable pub recv_verify_message : (bound : ℕ) → Option Bytes → Received → Option ℕ × Received
recv_verify_message bound none r =
    (none, record r { buf_recv_vrf = clear buffrecvsize r.buf_recv_vrf })
recv_verify_message bound (some message) r =
    let m = put message 0 (clear buffrecvsize r.buf_recv_vrf) in
    let parsed = recv_verify_parsing (length message) in
    (
      some (length message),
      record {
        buf_recv_vrf = m;
        cmd = parsed.0;
        params = parsed.1;
        printed =
            r.printed
            ++ (bytes "Here is the message:\r\n"
                ++ (text_at (buffrecvsize + bound) 0 m ++ bytes "\r\n"))
              ∷ [];
      },
    )

-- What a message leaves, of at most as many bytes as recv was told that there is room for.
pub record IsCommand (message : Bytes) (before : Received) (r : Option ℕ × Received) : Type 0 where
  pub result : r.0 ≡ some (length message)
  pub cmd : r.1.cmd ≡ vrf_set_mode
  pub params : r.1.params ≡ bytes "name=name&"
  pub outside : (a : ℕ) → buffrecvsize ≤ a → r.1.buf_recv_vrf a ≡ before.buf_recv_vrf a
  pub printed :
      r.1.printed
      ≡ before.printed ++ (bytes "Here is the message:\r\n" ++ (c_str message ++ bytes "\r\n")) ∷ []

-- A message that leaves room for a NUL is printed up to its first NUL, memory behind the array is left alone, and
-- whatever the message says, the command is that to set the mode, with the same parameters.
pub recv_verify_message-IsCommand :
    (bound : ℕ) (message : Bytes) (r : Received)
    → length message < buffrecvsize
    → IsCommand message r (recv_verify_message bound (some message) r)
unfolding recv_verify_message recv_verify_parsing
recv_verify_message-IsCommand bound message r h =
    let (text, outside) = stored_text buffrecvsize bound message r.buf_recv_vrf h in
    record { result = refl; cmd = refl; params = refl; outside = outside; printed = rw text refl }
