-- ===== src/Broadcast.antt =====
-- callback_minimal of main.cpp: one pending message that is sent to every connected session.
-- libwebsockets is seen as the callbacks that it makes and the results of its calls; its pointers
-- `wsi` are numbers. A message is taken to be shorter than 2^31 bytes, the range of `int`.
pub mod Round
pub mod Numbered
mod Tests
use da_gis_service.Common.{
  ℕ, suc, ◌+◌, ◌%◌, ◌^◌, ◌≡◌, Bool, true, false, Option, none, some, List, [], ◌∷◌, ◌++◌, map,
  Bytes, length, ◌==◌, ltb, if◌then◌else◌,
}

-- per_session_data__minimal; the link to the next is the list's.
pub record Pss : Type 0 where
  pub wsi : ℕ
  pub last : ℕ

-- struct msg
pub record Msg : Type 0 where
  pub payload : Option Bytes
  pub len : ℕ

-- per_vhost_data__minimal, without the pointers of libwebsockets.
pub record Vhd : Type 0 where
  pub pss_list : List Pss
  pub amsg : Msg
  pub current : ℕ

-- What a callback hands to libwebsockets: its result (true for 0), the text it gives to lws_write, and
-- the sessions that it asks to be called back for writing.
pub record Effect : Type 0 where
  pub succeeds : Bool
  pub written : Option Bytes
  pub asked : List ℕ

abbrev pub nothing : Effect
nothing = record { succeeds = true; written = none; asked = [] }

-- `vhd->current++`. `current` and `last` are ints that start at 0: a number here is the 32 bits of one. From
-- 2^31 - 1 on the increment overflows, which C leaves undefined; here it wraps.
abbrev pub next_number : ℕ → ℕ
next_number n = (n + 1) % 2 ^ 32

-- LWS_CALLBACK_PROTOCOL_INIT: the memory is zeroed.
abbrev pub protocol_init : Vhd
protocol_init = record { pss_list = []; amsg = record { payload = none; len = 0 }; current = 0 }

-- LWS_CALLBACK_ESTABLISHED: lws_ll_fwd_insert puts the session first.
unfoldable pub established : (wsi : ℕ) → Vhd → Vhd
established wsi vhd = record {
  pss_list = record { wsi = wsi; last = vhd.current } ∷ vhd.pss_list;
  amsg = vhd.amsg;
  current = vhd.current;
}

-- lws_ll_fwd_remove
unfoldable pub fwd_remove : (wsi : ℕ) → List Pss → List Pss
fwd_remove wsi [] = []
fwd_remove wsi (p ∷ ps) = if p.wsi == wsi then ps else p ∷ fwd_remove wsi ps

-- LWS_CALLBACK_CLOSED
unfoldable pub closed : (wsi : ℕ) → Vhd → Vhd
closed wsi vhd = record {
  pss_list = fwd_remove wsi vhd.pss_list;
  amsg = vhd.amsg;
  current = vhd.current;
}

-- `pss->last`; the data of a session that is not on the list is zeroed.
unfoldable pub last_of : (wsi : ℕ) → List Pss → ℕ
last_of wsi [] = 0
last_of wsi (p ∷ ps) = if p.wsi == wsi then p.last else last_of wsi ps

-- `pss->last = last`
unfoldable pub set_last : (wsi last : ℕ) → List Pss → List Pss
set_last wsi last [] = []
set_last wsi last (p ∷ ps) =
    if p.wsi == wsi then record { wsi = p.wsi; last = last } ∷ ps else p ∷ set_last wsi last ps

-- `m < (int)vhd->amsg.len`, for the result `m` of lws_write, none if it is negative.
unfoldable pub is_short : Option ℕ → ℕ → Bool
is_short none len = true
is_short (some m) len = ltb m len

-- The part of LWS_CALLBACK_SERVER_WRITEABLE for a payload.
unfoldable pub write_payload : (wsi : ℕ) (m : Option ℕ) (payload : Bytes) → Vhd → Effect × Vhd
write_payload wsi m payload vhd =
    if last_of wsi vhd.pss_list == vhd.current
    then (nothing, vhd)
    else if is_short m vhd.amsg.len
    then (record { succeeds = false; written = some payload; asked = [] }, vhd)
    else (
      record { succeeds = true; written = some payload; asked = [] },
      record {
        pss_list = set_last wsi vhd.current vhd.pss_list;
        amsg = vhd.amsg;
        current = vhd.current;
      },
    )

-- LWS_CALLBACK_SERVER_WRITEABLE, where lws_write would return `m`.
unfoldable pub writeable : (wsi : ℕ) (m : Option ℕ) → Vhd → Effect × Vhd
writeable wsi m vhd = elim vhd.amsg.payload [
  | none ↦ (nothing, vhd)
  | some payload ↦ write_payload wsi m payload vhd
]

-- LWS_CALLBACK_RECEIVE of the message `in`, where malloc succeeds or not.
unfoldable pub receive : (allocates : Bool) (message : Bytes) → Vhd → Effect × Vhd
receive false message vhd = (
  nothing,
  record {
    pss_list = vhd.pss_list;
    amsg = record { payload = none; len = length message };
    current = vhd.current;
  },
)
receive true message vhd = (
  record { succeeds = true; written = none; asked = map (λ (p : Pss). p.wsi) vhd.pss_list },
  record {
    pss_list = vhd.pss_list;
    amsg = record { payload = some message; len = length message };
    current = next_number vhd.current;
  },
)

-- The callbacks for writing that libwebsockets makes for the sessions asked, where lws_write takes the
-- whole message: the messages that go out.
unfoldable pub serve_asked : List ℕ → Vhd → List (ℕ × Option Bytes) × Vhd
serve_asked [] vhd = ([], vhd)
serve_asked (wsi ∷ asked) vhd =
    let (effect, after) = writeable wsi (some vhd.amsg.len) vhd in
    let (out, end) = serve_asked asked after in ((wsi, effect.written) ∷ out, end)
