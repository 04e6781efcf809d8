-- ===== src/Broadcast/Round.antt =====
-- callback_minimal of main.cpp: what the sessions get between one message and the next.
use mathlib.Core.List.{append_assoc}
use da_gis_service.Common.{
  ℕ, ◌≡◌, ◌≢◌, ◌⊎◌, inl, inr, refl, ap, true, Option, some, List, [], ◌∷◌, ◌++◌, map, arith, Bytes,
  length, All, All-append,
}
use da_gis_service.Broadcast.{
  Pss, Vhd, Effect, nothing, next_number, last_of, set_last, is_short, write_payload, writeable,
  receive, serve_asked,
}

-- No two sessions of the list have the same connection.
abbrev pub Distinct : List Pss → Type 0
Distinct [] = Unit
Distinct (p ∷ ps) = All (λ (q : Pss). p.wsi ≢ q.wsi) ps × Distinct ps

-- No session of the list has got message `n`.
abbrev pub AllBehind : ℕ → List Pss → Type 0
AllBehind n ps = All (λ (p : Pss). p.last ≢ n) ps

abbrev pub at_number : ℕ → Pss → Pss
at_number n p = record { wsi = p.wsi; last = n }

-- The sessions `ps` after all have got message `n`.
abbrev pub all_at : ℕ → List Pss → List Pss
all_at n ps = map (at_number n) ps

abbrev Others : Pss → List Pss → Type 0
Others p done = All (λ (q : Pss). q.wsi ≢ p.wsi) done

last_of-append :
    (p : Pss) (done todo : List Pss) → Others p done → last_of p.wsi (done ++ p ∷ todo) ≡ p.last
unfolding last_of
last_of-append p [] todo h = ground arith
last_of-append p (q ∷ done) todo (d, h) = ground (arith, last_of-append p done todo h)

set_last-append :
    (n : ℕ) (p : Pss) (done todo : List Pss)
    → Others p done
    → set_last p.wsi n (done ++ p ∷ todo) ≡ done ++ at_number n p ∷ todo
unfolding set_last
set_last-append n p [] todo h = ground arith
set_last-append n p (q ∷ done) todo (d, h) = ground (arith, set_last-append n p done todo h)

abbrev pub with_sessions : List Pss → Vhd → Vhd
with_sessions ps v = record { pss_list = ps; amsg = v.amsg; current = v.current }

-- The state with the message `msg` pending as number `n`, for the sessions `ps`.
abbrev pub pending : Bytes → ℕ → ℕ → List Pss → Vhd
pending msg len n ps = record {
  pss_list = ps;
  amsg = record { payload = some msg; len = len };
  current = n;
}

abbrev pub writes : Bytes → Effect
writes msg = record { succeeds = true; written = some msg; asked = [] }

module _ (msg : Bytes) (len n : ℕ) where
  writeable-behind :
      (wsi : ℕ) (ps : List Pss)
      → last_of wsi ps ≢ n
      → writeable wsi (some len) (pending msg len n ps)
        ≡ (writes msg, pending msg len n (set_last wsi n ps))
  unfolding writeable write_payload is_short
  writeable-behind wsi ps behind = ground arith

  writeable-same :
      (wsi : ℕ) (m : Option ℕ) (ps : List Pss)
      → last_of wsi ps ≡ n
      → writeable wsi m (pending msg len n ps) ≡ (nothing, pending msg len n ps)
  unfolding writeable write_payload
  writeable-same wsi m ps same = ground arith

  extend-Others :
      (p : Pss) (done todo : List Pss)
      → All (λ (q : Pss). p.wsi ≢ q.wsi) todo
      → All (λ (q : Pss). Others q done) todo
      → All (λ (q : Pss). Others q (done ++ at_number n p ∷ [])) todo
  extend-Others p done [] apart o = tt
  extend-Others p done (q ∷ todo) (a, apart) (h, o) = (
    All-append (λ (r : Pss). r.wsi ≢ q.wsi) done (at_number n p ∷ []) h (a, tt),
    extend-Others p done todo apart o,
  )

  serve_asked-pending :
      (done todo : List Pss)
      → Distinct todo
      → AllBehind n todo
      → All (λ (p : Pss). Others p done) todo
      → serve_asked (map (λ (p : Pss). p.wsi) todo) (pending msg len n (done ++ todo))
        ≡ (map (λ (p : Pss). (p.wsi, some msg)) todo, pending msg len n (done ++ all_at n todo))
  unfolding serve_asked
  serve_asked-pending done [] d b o = refl
  serve_asked-pending done (p ∷ todo) (apart, d) (behind, b) (others, o) =
      let first =
        writeable-behind p.wsi (done ++ p ∷ todo) (rw (last_of-append p done todo others) behind) in
      let moved = set_last-append n p done todo others in
      let rest =
        serve_asked-pending (done ++ at_number n p ∷ []) todo d b
          (extend-Others p done todo apart o) in
      let prepend : List (ℕ × Option Bytes) × Vhd → List (ℕ × Option Bytes) × Vhd =
        λ r. ((p.wsi, some msg) ∷ r.0, r.1) in
      rw (first, moved)
        (ap prepend (
          rw
            (
              append_assoc done (at_number n p ∷ []) todo,
              append_assoc done (at_number n p ∷ []) (all_at n todo),
            )
            at rest))

Others-nil : (ps : List Pss) → All (λ (p : Pss). Others p []) ps
Others-nil [] = tt
Others-nil (p ∷ ps) = (tt, Others-nil ps)

-- A session of the list.
abbrev pub IsLive : ℕ → List Pss → Type 0
IsLive wsi [] = ⊥
IsLive wsi (p ∷ ps) = (p.wsi ≡ wsi) ⊎ IsLive wsi ps

last_of-all_at : (n wsi : ℕ) (ps : List Pss) → IsLive wsi ps → last_of wsi (all_at n ps) ≡ n
unfolding last_of
last_of-all_at n wsi [] none_live = elim none_live [ ]
last_of-all_at n wsi (p ∷ ps) (inl here) = ground arith
last_of-all_at n wsi (p ∷ ps) (inr later) = ground (arith, last_of-all_at n wsi ps later)

-- A message for which there is memory, followed by the callbacks it asks for, goes out once to each
-- connected session, in the order of the list; after that no callback writes anything, until the next
-- message. The sessions have different connections, and the number of the message is new to each.
pub serve_asked-receive :
    (message : Bytes) (vhd : Vhd)
    → Distinct vhd.pss_list
    → AllBehind (next_number vhd.current) vhd.pss_list
    → (serve_asked (receive true message vhd).0.asked (receive true message vhd).1 ≡ (
      map (λ (p : Pss). (p.wsi, some message)) vhd.pss_list,
      pending message
          (length message)
          (next_number vhd.current)
          (all_at (next_number vhd.current) vhd.pss_list),
    ))
      × ((wsi : ℕ) (m : Option ℕ)
          → IsLive wsi vhd.pss_list
          → (writeable wsi m
              (serve_asked (receive true message vhd).0.asked (receive true message vhd).1).1).0
            ≡ nothing)
unfolding receive
serve_asked-receive message vhd distinct behind =
    let n = next_number vhd.current in
    let round =
      serve_asked-pending message (length message) n [] vhd.pss_list distinct behind
        (Others-nil vhd.pss_list) in
    (
      round,
      λ wsi m live. rw round (
          ap (λ (r : Effect × Vhd). r.0)
            (writeable-same message (length message) n wsi m (all_at n vhd.pss_list)
              (last_of-all_at n wsi vhd.pss_list live))),
    )
