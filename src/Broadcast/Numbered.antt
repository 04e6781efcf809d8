-- ===== src/Broadcast/Numbered.antt =====
-- Every sequence of callbacks of callback_minimal of main.cpp, and the numbers of its messages.
use da_gis_service.Common.{
  ℕ, suc, ◌+◌, ◌^◌, ◌≤◌, ◌<◌, ◌≡◌, ◌≢◌, inl, inr, refl, true, false, Option, none, some, List, [],
  ◌∷◌, map, arith, Bytes, length, All, Bool-cases, ◌==◌,
}
use da_gis_service.Broadcast.{
  Pss, Vhd, nothing, next_number, protocol_init, established, fwd_remove, closed, last_of, set_last,
  is_short, write_payload, writeable, receive, serve_asked,
}
use da_gis_service.Broadcast.Round.{
  Distinct, AllBehind, IsLive, all_at, pending, serve_asked-receive,
}

-- The states that callbacks reach, with the number of messages for which there was memory. A connection
-- that is established is not one of the sessions.
pub data Run : ℕ → Vhd → Type 0 where
  begin : Run 0 protocol_init
  establishes :
      {n : ℕ} {vhd : Vhd}
      → Run n vhd
      → (wsi : ℕ) → ¬ IsLive wsi vhd.pss_list
      → Run n (established wsi vhd)
  closes : {n : ℕ} {vhd : Vhd} → Run n vhd → (wsi : ℕ) → Run n (closed wsi vhd)
  writes :
      {n : ℕ} {vhd : Vhd} → Run n vhd → (wsi : ℕ) (m : Option ℕ) → Run n (writeable wsi m vhd).1
  receives :
      {n : ℕ} {vhd : Vhd} → Run n vhd → (message : Bytes) → Run (suc n) (receive true message vhd).1
  drops : {n : ℕ} {vhd : Vhd} → Run n vhd → (message : Bytes) → Run n (receive false message vhd).1

abbrev AtMost : ℕ → List Pss → Type 0
AtMost n ps = All (λ (p : Pss). p.last ≤ n) ps

-- `current` counts the messages, no session is ahead of it, and each connection is there once.
pub record IsNumbered (n : ℕ) (vhd : Vhd) : Type 0 where
  pub counts : vhd.current ≡ n
  pub at_most : AtMost n vhd.pss_list
  pub distinct : Distinct vhd.pss_list

AtMost-suc : (n : ℕ) (ps : List Pss) → AtMost n ps → AtMost (suc n) ps
AtMost-suc n [] h = tt
AtMost-suc n (p ∷ ps) (le, h) = (omega (arith, le), AtMost-suc n ps h)

AtMost-AllBehind : (n : ℕ) (ps : List Pss) → AtMost n ps → AllBehind (n + 1) ps
AtMost-AllBehind n [] h = tt
AtMost-AllBehind n (p ∷ ps) (le, h) = (omega (arith, le), AtMost-AllBehind n ps h)

abbrev Apart : ℕ → List Pss → Type 0
Apart wsi ps = All (λ (p : Pss). wsi ≢ p.wsi) ps

Apart-new : (wsi : ℕ) (ps : List Pss) → ¬ IsLive wsi ps → Apart wsi ps
Apart-new wsi [] h = tt
Apart-new wsi (p ∷ ps) h = (λ e. h (inl (omega (arith, e))), Apart-new wsi ps (λ l. h (inr l)))

-- What holds of all sessions still does after one has gone.
All-fwd_remove : (P : Pss → Type 0) (wsi : ℕ) (ps : List Pss) → All P ps → All P (fwd_remove wsi ps)
unfolding fwd_remove
All-fwd_remove P wsi [] h = tt
All-fwd_remove P wsi (p ∷ ps) (x, h) = elim (Bool-cases (p.wsi == wsi)) [
  | inl e ↦ rw e h
  | inr e ↦ rw e (x, All-fwd_remove P wsi ps h)
]

Distinct-fwd_remove : (wsi : ℕ) (ps : List Pss) → Distinct ps → Distinct (fwd_remove wsi ps)
unfolding fwd_remove
Distinct-fwd_remove wsi [] h = tt
Distinct-fwd_remove wsi (p ∷ ps) (x, h) = elim (Bool-cases (p.wsi == wsi)) [
  | inl e ↦ rw e h
  | inr e ↦
      rw e (All-fwd_remove (λ (q : Pss). p.wsi ≢ q.wsi) wsi ps x, Distinct-fwd_remove wsi ps h)
]

AtMost-set_last : (n wsi k : ℕ) (ps : List Pss) → k ≤ n → AtMost n ps → AtMost n (set_last wsi k ps)
unfolding set_last
AtMost-set_last n wsi k [] le h = tt
AtMost-set_last n wsi k (p ∷ ps) le (x, h) = elim (Bool-cases (p.wsi == wsi)) [
  | inl e ↦ rw e (le, h)
  | inr e ↦ rw e (x, AtMost-set_last n wsi k ps le h)
]

Apart-set_last : (w wsi k : ℕ) (ps : List Pss) → Apart w ps → Apart w (set_last wsi k ps)
unfolding set_last
Apart-set_last w wsi k [] h = tt
Apart-set_last w wsi k (p ∷ ps) (x, h) = elim (Bool-cases (p.wsi == wsi)) [
  | inl e ↦ rw e (x, h)
  | inr e ↦ rw e (x, Apart-set_last w wsi k ps h)
]

Distinct-set_last : (wsi k : ℕ) (ps : List Pss) → Distinct ps → Distinct (set_last wsi k ps)
unfolding set_last
Distinct-set_last wsi k [] h = tt
Distinct-set_last wsi k (p ∷ ps) (x, h) = elim (Bool-cases (p.wsi == wsi)) [
  | inl e ↦ rw e (x, h)
  | inr e ↦ rw e (Apart-set_last p.wsi wsi k ps x, Distinct-set_last wsi k ps h)
]

write_payload-IsNumbered :
    (n wsi : ℕ) (m : Option ℕ) (payload : Bytes) (vhd : Vhd)
    → IsNumbered n vhd
    → IsNumbered n (write_payload wsi m payload vhd).1
unfolding write_payload
write_payload-IsNumbered n wsi m payload vhd h =
    elim (Bool-cases (last_of wsi vhd.pss_list == vhd.current)) [
      | inl e ↦ rw (e, write_payload) h
      | inr e ↦ elim (Bool-cases (is_short m vhd.amsg.len)) [
        | inl f ↦ rw (e, f, write_payload) h
        | inr f ↦
            rw (e, f, write_payload)
              (record {
                counts = h.counts;
                at_most =
                    AtMost-set_last n wsi vhd.current vhd.pss_list (omega (arith, h.counts))
                      h.at_most;
                distinct = Distinct-set_last wsi vhd.current vhd.pss_list h.distinct;
              })
      ]
    ]

abbrev state : List Pss → Option Bytes → (len current : ℕ) → Vhd
state ps payload len current = record {
  pss_list = ps;
  amsg = record { payload = payload; len = len };
  current = current;
}

writeable-IsNumbered :
    (n wsi : ℕ) (m : Option ℕ) (ps : List Pss) (payload : Option Bytes) (len current : ℕ)
    → IsNumbered n (state ps payload len current)
    → IsNumbered n (writeable wsi m (state ps payload len current)).1
unfolding writeable
writeable-IsNumbered n wsi m ps none len current h = h
writeable-IsNumbered n wsi m ps (some payload) len current h =
    write_payload-IsNumbered n wsi m payload (state ps (some payload) len current) h

-- Before 2^31 messages have come, the number of the current message is that of the messages for which
-- there was memory, no session has got a later one, and each connection is on the list once.
pub Run-IsNumbered : {n : ℕ} {vhd : Vhd} → Run n vhd → n < 2 ^ 31 → IsNumbered n vhd
unfolding established closed receive
Run-IsNumbered begin few = record { counts = refl; at_most = tt; distinct = tt }
Run-IsNumbered (establishes {n} {vhd} run wsi new) few =
    let h = Run-IsNumbered run few in
    record {
      counts = h.counts;
      at_most = (omega (arith, h.counts), h.at_most);
      distinct = (Apart-new wsi vhd.pss_list new, h.distinct);
    }
Run-IsNumbered (closes {n} {vhd} run wsi) few =
    let h = Run-IsNumbered run few in
    record {
      counts = h.counts;
      at_most = All-fwd_remove (λ (p : Pss). p.last ≤ n) wsi vhd.pss_list h.at_most;
      distinct = Distinct-fwd_remove wsi vhd.pss_list h.distinct;
    }
Run-IsNumbered (writes {n} {vhd} run wsi m) few =
    writeable-IsNumbered n wsi m vhd.pss_list vhd.amsg.payload vhd.amsg.len vhd.current
      (Run-IsNumbered run few)
Run-IsNumbered (receives {n} {vhd} run message) few =
    let h = Run-IsNumbered run (omega (arith, few)) in
    record {
      counts = omega (arith, h.counts, few);
      at_most = AtMost-suc n vhd.pss_list h.at_most;
      distinct = h.distinct;
    }
Run-IsNumbered (drops run message) few =
    let h = Run-IsNumbered run few in
    record { counts = h.counts; at_most = h.at_most; distinct = h.distinct }

-- Whatever came before, if fewer than 2^31 - 1 messages did, and if lws_write takes each message whole: the
-- next message for which there is memory, followed by the callbacks that it asks for, goes out once to
-- each session, in the order of the list; after that no callback writes anything to a session of the list.
pub Run-serve_asked :
    {n : ℕ} {vhd : Vhd}
    → Run n vhd
    → n + 1 < 2 ^ 31
    → (message : Bytes)
    → (serve_asked (receive true message vhd).0.asked (receive true message vhd).1 ≡ (
      map (λ (p : Pss). (p.wsi, some message)) vhd.pss_list,
      pending message (length message) (n + 1) (all_at (n + 1) vhd.pss_list),
    ))
      × ((wsi : ℕ) (m : Option ℕ)
          → IsLive wsi vhd.pss_list
          → (writeable wsi m
              (serve_asked (receive true message vhd).0.asked (receive true message vhd).1).1).0
            ≡ nothing)
Run-serve_asked {n} {vhd} run few message =
    let h = Run-IsNumbered run (omega (arith, few)) in
    let next : next_number vhd.current ≡ n + 1 = omega (arith, h.counts, few) in
    let behind : AllBehind (next_number vhd.current) vhd.pss_list =
      rw next (AtMost-AllBehind n vhd.pss_list h.at_most) in
    let (round, quiet) = serve_asked-receive message vhd h.distinct behind in
    (rw next at round, quiet)
