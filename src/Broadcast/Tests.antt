-- ===== src/Broadcast/Tests.antt =====
-- Sequences of callbacks of callback_minimal of main.cpp.
use da_gis_service.Common.{
  ℕ, ◌+◌, ◌≡◌, refl, true, false, Option, none, some, [], ◌∷◌, map, arith, bytes, length, inl, inr,
}
use da_gis_service.Broadcast.{
  Pss, Vhd, nothing, protocol_init, established, fwd_remove, closed, last_of, set_last, is_short,
  write_payload, writeable, receive, serve_asked,
}
use da_gis_service.Broadcast.Round.{IsLive, pending, all_at}
use da_gis_service.Broadcast.Numbered.{
  Run, begin, establishes, closes, writes, receives, IsNumbered, Run-IsNumbered, Run-serve_asked,
}

abbrev joined : Vhd
joined = established 8 (established 7 protocol_init)

-- One of two sessions got the first message, the other left and came again.
abbrev told : Vhd
told = (writeable 7 (some 5) (receive true (bytes "hello") joined).1).1

abbrev again : Vhd
again = established 8 (closed 8 told)

code : Unit {0}
unfolding established fwd_remove closed last_of set_last is_short write_payload writeable receive
    serve_asked
code = tt

joined_run : Run 0 joined
unfolding code
joined_run =
    establishes (establishes begin 7 (λ l. elim l [ ])) 8
      (λ l. elim l [ inl e ↦ omega (arith, e) | inr none_left ↦ elim none_left [ ] ])

not-IsLive : ¬ IsLive 8 (closed 8 told).pss_list
unfolding code
not-IsLive (inl e) = omega (arith, e)
not-IsLive (inr none_left) = elim none_left [ ]

again_run : Run 1 again
again_run =
    establishes (closes (writes (receives joined_run (bytes "hello")) 7 (some 5)) 8) 8 not-IsLive

broadcast_run :
    ((serve_asked (7 ∷ 8 ∷ []) (receive true (bytes "news") again).1).0
      ≡ (7, some (bytes "news")) ∷ (8, some (bytes "news")) ∷ [])
    × ((writeable 8 (some 5) again).0 ≡ nothing)
    × ((serve_asked (7 ∷ 8 ∷ []) (receive false (bytes "news") again).1).0
        ≡ (7, none) ∷ (8, none) ∷ [])
unfolding code
broadcast_run = (refl, refl, refl)

Run-IsNumbered_example : IsNumbered 1 again
Run-IsNumbered_example = Run-IsNumbered again_run (omega arith)

Run-serve_asked_example :
    (serve_asked (receive true (bytes "news") again).0.asked (receive true (bytes "news") again).1
      ≡ (
        map (λ (p : Pss). (p.wsi, some (bytes "news"))) again.pss_list,
        pending (bytes "news") (length (bytes "news")) (1 + 1) (all_at (1 + 1) again.pss_list),
      ))
    × ((wsi : ℕ) (m : Option ℕ)
        → IsLive wsi again.pss_list
        → (writeable wsi m
            (serve_asked
              (receive true (bytes "news") again).0.asked
              (receive true (bytes "news") again).1).1).0
          ≡ nothing)
Run-serve_asked_example = Run-serve_asked again_run (omega arith) (bytes "news")
