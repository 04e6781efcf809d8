-- ===== src/VerifyServer/Descriptors.antt =====
-- The sockets of thrVerifyServer of main.cpp: none is lost, however often clients come and go and calls
-- of the system fail.
use da_gis_service.Common.{
  ℕ, zero, suc, ◌≤◌, ◌<◌, ◌≡◌, ◌≢◌, ◌⊎◌, inl, inr, refl, Bool, true, false, Option, none, some,
  List, [], ◌∷◌, arith, length, All, ◌==◌, Bool-cases,
}
use da_gis_service.VerifyServer.{
  SendResult, sent, error, Sockets, no_sockets, Calls, accept_client, accept_connection_verify,
  without, close_positive, reaccept_verify, after_send,
}

-- A descriptor that the program still knows, and can close.
abbrev pub IsKept : Option ℕ → Option ℕ → ℕ → Type 0
IsKept a b fd = (0 < fd) × ((a ≡ some fd) ⊎ (b ≡ some fd))

-- A descriptor given by the system is not one of the standard input.
abbrev pub IsPositive : Option ℕ → Type 0
IsPositive none = Unit
IsPositive (some fd) = 0 < fd

-- The states of the server between its calls; the system gives positive descriptors.
pub data Run : Sockets → Type 0 where
  begin :
      (c : Calls)
      → IsPositive c.socket
      → IsPositive c.accept
      → Run (accept_connection_verify c no_sockets).1
  turn :
      {s : Sockets}
      → Run s
      → (r : SendResult) (c : Calls) → IsPositive c.socket
      → IsPositive c.accept
      → Run (after_send r c s)

-- Each descriptor that is open is in one of the two variables, and there are at most two.
pub record HasAll (s : Sockets) : Type 0 where
  pub kept : All (IsKept s.sct_vrf s.sct_vrf_new) s.opened
  pub few : length s.opened ≤ 2

All-without :
    (P Q : ℕ → Type 0) (fd : ℕ) (opened : List ℕ)
    → ((a : ℕ) → a ≢ fd → P a → Q a)
    → All P opened
    → All Q (without fd opened)
unfolding without
All-without P Q fd [] f h = tt
All-without P Q fd (a ∷ opened) f (x, h) = elim (Bool-cases (a == fd)) [
  | inl e ↦ rw e (All-without P Q fd opened f h)
  | inr e ↦ rw e (f a (ground (arith, e)) x, All-without P Q fd opened f h)
]

-- The descriptors in the first variable alone.
abbrev InFirst : Option ℕ → ℕ → Type 0
InFirst a fd = (0 < fd) × (a ≡ some fd)

kept_elsewhere : (a b : Option ℕ) (fd : ℕ) → (b ≡ some fd → ⊥) → IsKept a b fd → InFirst a fd
kept_elsewhere a b fd other (p, inl e) = (p, e)
kept_elsewhere a b fd other (p, inr e) = absurd (other e)

All-map : (P Q : ℕ → Type 0) (opened : List ℕ) → ((a : ℕ) → P a → Q a) → All P opened → All Q opened
All-map P Q [] f h = tt
All-map P Q (a ∷ opened) f (x, h) = (f a x, All-map P Q opened f h)

close_positive-InFirst :
    (a b : Option ℕ) (opened : List ℕ)
    → All (IsKept a b) opened
    → All (InFirst a) (close_positive b opened)
unfolding close_positive
close_positive-InFirst a none opened h =
    All-map (IsKept a none) (InFirst a) opened (λ fd k. kept_elsewhere a none fd (λ e. cc) k) h
close_positive-InFirst a (some zero) opened h =
    All-map (IsKept a (some zero)) (InFirst a) opened
      (λ fd k.
        kept_elsewhere a (some zero) fd (λ e. let z : 0 ≡ fd = cc in omega (arith, z, k.0)) k)
      h
close_positive-InFirst a (some (suc b)) opened h =
    All-without (IsKept a (some (suc b))) (InFirst a) (suc b) opened
      (λ fd other k. kept_elsewhere a (some (suc b)) fd (λ e. other cc) k) h

close_positive-nil :
    (a : Option ℕ) (opened : List ℕ) → All (InFirst a) opened → close_positive a opened ≡ []
unfolding close_positive without
close_positive-nil none [] h = refl
close_positive-nil none (fd ∷ opened) ((p, e), h) = absurd cc
close_positive-nil (some zero) [] h = refl
close_positive-nil (some zero) (fd ∷ opened) ((p, e), h) =
    let z : 0 ≡ fd = cc in absurd (omega (arith, z, p))
close_positive-nil (some (suc a)) [] h = refl
close_positive-nil (some (suc a)) (fd ∷ opened) ((p, e), h) =
    let same : suc a ≡ fd = cc in
    let found : (fd == suc a) ≡ true = ground (arith, same) in
    rw found (close_positive-nil (some (suc a)) opened h)

accept_client-HasAll :
    (accept : Option ℕ) (fd : ℕ)
    → 0 < fd
    → IsPositive accept
    → HasAll (accept_client accept fd (fd ∷ [])).1
unfolding accept_client
accept_client-HasAll none fd p q = record { kept = ((p, inl refl), tt); few = omega arith }
accept_client-HasAll (some client) fd p q = record {
  kept = ((q, inr refl), ((p, inl refl), tt));
  few = omega arith;
}

abbrev calls : Option ℕ → (binds listens : Bool) → Option ℕ → Calls
calls socket binds listens accept = record {
  socket = socket;
  bind_succeeds = binds;
  listen_succeeds = listens;
  accept = accept;
}

-- With no descriptor open, accept_connectionVerify opens at most two, whichever call fails.
accept_connection_verify-HasAll :
    (socket : Option ℕ) (binds listens : Bool) (accept a b : Option ℕ)
    → IsPositive socket
    → IsPositive accept
    → HasAll
        (accept_connection_verify
          (calls socket binds listens accept)
          (record { sct_vrf = a; sct_vrf_new = b; opened = [] })).1
unfolding accept_connection_verify
accept_connection_verify-HasAll none binds listens accept a b p q = record {
  kept = tt;
  few = omega arith;
}
accept_connection_verify-HasAll (some fd) false listens accept a b p q = record {
  kept = ((p, inl refl), tt);
  few = omega arith;
}
accept_connection_verify-HasAll (some fd) true false accept a b p q = record {
  kept = ((p, inl refl), tt);
  few = omega arith;
}
accept_connection_verify-HasAll (some fd) true true accept a b p q =
    accept_client-HasAll accept fd p q

after_send-HasAll :
    (r : SendResult) (c : Calls) (s : Sockets)
    → IsPositive c.socket
    → IsPositive c.accept
    → HasAll s
    → HasAll (after_send r c s)
unfolding after_send reaccept_verify
after_send-HasAll (sent n) c s p q h = h
after_send-HasAll (error code) c s p q h =
    let all_closed =
      close_positive-nil s.sct_vrf (close_positive s.sct_vrf_new s.opened)
        (close_positive-InFirst s.sct_vrf s.sct_vrf_new s.opened h.kept) in
    rw (all_closed, after_send, reaccept_verify)
      (accept_connection_verify-HasAll c.socket c.bind_succeeds c.listen_succeeds c.accept s.sct_vrf
        s.sct_vrf_new p q)

-- However sends end and whichever calls of the system fail, each socket that the server has opened and not
-- closed has its descriptor in sct_vrf or in sct_vrf_new, and there are at most two of them. The descriptors
-- of the shared memory, which are no sockets, do not count.
pub Run-HasAll : {s : Sockets} → Run s → HasAll s
Run-HasAll (begin c p q) =
    accept_connection_verify-HasAll c.socket c.bind_succeeds c.listen_succeeds c.accept (some 0)
      (some 0) p q
Run-HasAll (turn {s} run r c p q) = after_send-HasAll r c s p q (Run-HasAll run)
