-- ===== src/TestProtocol/Received.antt =====
-- Messages that ws_callback of main.cpp receives.
use da_gis_service.Common.{
  ℕ, suc, ◌+◌, ◌≤◌, ◌<◌, ◌≡◌, ◌∙◌, ◌↔◌, inl, inr, refl, [], ◌∷◌, ◌++◌, Bytes, bytes, arith, length,
  c_str, leb, Bool-cases, get_elem?-some,
}
use da_gis_service.Frames.{Memory}
use da_gis_service.Passage.{put, text_at}
use da_gis_service.Passage.Texts.{put-after, put-Holds, text_at-c_str, put-get_elem?}
use da_gis_service.TestProtocol.{
  receive, TestGlobals, lws_message_size, clear, receive_message, on_reason, ws_callback,
}

-- What a message does that leaves room for a NUL.
pub record IsReceived (in_message : Bytes) (g : TestGlobals) (r : ℕ × TestGlobals) : Type 0 where
  pub result : r.0 ≡ 0
  pub printed :
      r.1.printed ≡ g.printed ++ (bytes "receive = " ++ (c_str in_message ++ bytes "\r\n")) ∷ []
  pub outside : (a : ℕ) → lws_message_size ≤ a → r.1.lws_recv_message a ≡ g.lws_recv_message a
  pub others :
      (r.1.web_socket ≡ g.web_socket)
      × (r.1.lws_message ≡ g.lws_message)
      × (r.1.written ≡ g.written)

cleared : (n : ℕ) (m : Memory) (a : ℕ) → a < n → clear n m a ≡ 0
unfolding clear
cleared n m a h = ground (arith, h)

not_cleared : (n : ℕ) (m : Memory) (a : ℕ) → n ≤ a → clear n m a ≡ m a
unfolding clear
not_cleared n m a h = ground (arith, h)

-- A text stored in an array of `n` bytes that was cleared before, with room for a NUL: it is the C string there,
-- up to its first NUL, and the memory behind the array is as before.
pub stored_text :
    (n bound : ℕ) (s : Bytes) (m : Memory)
    → length s < n
    → (text_at (n + bound) 0 (put s 0 (clear n m)) ≡ c_str s)
      × ((a : ℕ) → n ≤ a → put s 0 (clear n m) a ≡ m a)
stored_text n bound s m h =
    let end : put s 0 (clear n m) (0 + length s) ≡ 0 =
      put-after s 0 (clear n m) (0 + length s) (omega arith)
      ∙ cleared n m (0 + length s) (omega (arith, h)) in
    (
      text_at-c_str s (n + bound) 0 (put s 0 (clear n m)) (omega (arith, h))
          (put-Holds s 0 (clear n m)) end,
      λ a le. put-after s 0 (clear n m) a (omega (arith, h, le)) ∙ not_cleared n m a le,
    )

-- A message of fewer than 4096 bytes: ws_callback returns 0, prints the message up to its first NUL, leaves all
-- memory behind the array alone, and changes no other global.
pub ws_callback-IsReceived :
    (bound : ℕ) (in_message : Bytes) (g : TestGlobals)
    → length in_message < lws_message_size
    → IsReceived in_message g (ws_callback bound receive in_message g)
unfolding ws_callback on_reason receive_message
ws_callback-IsReceived bound in_message g h =
    let (text, outside) = stored_text lws_message_size bound in_message g.lws_recv_message h in
    record { result = refl; printed = rw text refl; outside = outside; others = (refl, refl, refl) }

-- Globals with other memory in the place of the array and behind it.
abbrev pub with_recv : TestGlobals → Memory → TestGlobals
with_recv g m = record g { lws_recv_message = m }

-- ws_callback leaves all memory behind the array alone, whatever was there, exactly if the message has at most
-- 4096 bytes, though it does not look at their number.
pub ws_callback-outside_iff :
    (bound : ℕ) (in_message : Bytes) (g : TestGlobals)
    → ((m : Memory) (a : ℕ)
        → lws_message_size ≤ a
        → (ws_callback bound receive in_message (with_recv g m)).1.lws_recv_message a ≡ m a)
      ↔ (length in_message ≤ lws_message_size)
unfolding ws_callback on_reason receive_message
ws_callback-outside_iff bound in_message g = (
  λ alone. elim (Bool-cases (leb (length in_message) lws_message_size)) [
    | inl e ↦ ground (arith, e)
    | inr e ↦
        let (c, there) = get_elem?-some in_message lws_message_size (ground (arith, e)) in
        let m : Memory = λ a. suc c in
        let changed =
          put-get_elem? in_message 0 (clear lws_message_size m) lws_message_size c there in
        let same = alone m lws_message_size (omega arith) in absurd (omega (arith, changed, same))
  ],
  λ h m a le.
      put-after in_message 0 (clear lws_message_size m) a (omega (arith, h, le))
      ∙ not_cleared lws_message_size m a le,
)
