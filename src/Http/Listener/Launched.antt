-- ===== src/Http/Listener/Launched.antt =====
-- Every run of class listener of http_server/httpserver.cpp.
use mathlib.Core.List.{append-nil, append_assoc}
use da_gis_service.Common.{
  ℕ, ◌≡◌, refl, ap, sym, ◌∙◌, true, Option, none, some, List, [], ◌∷◌, ◌++◌, Bytes, bytes,
}
use da_gis_service.Http.Listener.{
  Listener, Setup, AcceptEnd, failed, accepted, listen_step, bind_step, set_option_step, listener,
  do_accept, run, launch, on_accept,
}

-- The states after `run`, with the accepts that have ended.
pub data Run (s : Setup) : List AcceptEnd → Listener → Type 0 where
  begin : Run s [] (run (listener s))
  accepts :
      {ends : List AcceptEnd} {l : Listener}
      → Run s ends l
      → l.is_accepting ≡ true
      → (end : AcceptEnd) → Run s (ends ++ end ∷ []) (on_accept end l)

abbrev pub sockets_of : List AcceptEnd → List ℕ
sockets_of [] = []
sockets_of (accepted socket ∷ ends) = socket ∷ sockets_of ends
sockets_of (failed message ∷ ends) = sockets_of ends

abbrev pub failures_of : List AcceptEnd → List (Bytes × Bytes)
failures_of [] = []
failures_of (accepted socket ∷ ends) = failures_of ends
failures_of (failed message ∷ ends) = (bytes "accept", message) ∷ failures_of ends

-- The first call of the set-up that fails, with its name.
abbrev pub first_failure : List (Bytes × Option Bytes) → List (Bytes × Bytes)
first_failure [] = []
first_failure ((what, some message) ∷ calls) = (what, message) ∷ []
first_failure ((what, none) ∷ calls) = first_failure calls

abbrev pub setup_calls : Setup → List (Bytes × Option Bytes)
setup_calls s =
    (bytes "open", s.open_error)
    ∷ (bytes "set_option", s.set_option_error)
    ∷ (bytes "bind", s.bind_error)
    ∷ (bytes "listen", s.listen_error)
    ∷ []

-- A session for each socket accepted, a report of each failure, and an accept always pending.
pub record IsServing (s : Setup) (ends : List AcceptEnd) (l : Listener) : Type 0 where
  pub accepting : l.is_accepting ≡ true
  pub sessions : l.launched ≡ sockets_of ends
  pub reports : l.errors ≡ first_failure (setup_calls s) ++ failures_of ends

abbrev setup : (a b c d : Option Bytes) → Setup
setup a b c d = record { open_error = a; set_option_error = b; bind_error = c; listen_error = d }

listener-first_failure :
    (a b c d : Option Bytes)
    → ((listener (setup a b c d)).errors ≡ first_failure (setup_calls (setup a b c d)))
      × ((listener (setup a b c d)).launched ≡ [])
unfolding listener set_option_step bind_step listen_step
listener-first_failure (some _) b c d = (refl, refl)
listener-first_failure none (some _) c d = (refl, refl)
listener-first_failure none none (some _) d = (refl, refl)
listener-first_failure none none none (some _) = (refl, refl)
listener-first_failure none none none none = (refl, refl)

pub listener-launched : (s : Setup) → (listener s).launched ≡ []
listener-launched s =
    (listener-first_failure s.open_error s.set_option_error s.bind_error s.listen_error).1

sockets_of-append :
    (ends : List AcceptEnd) (end : AcceptEnd)
    → sockets_of (ends ++ end ∷ []) ≡ sockets_of ends ++ sockets_of (end ∷ [])
sockets_of-append [] end = refl
sockets_of-append (accepted socket ∷ ends) end = ap (λ t. socket ∷ t) (sockets_of-append ends end)
sockets_of-append (failed message ∷ ends) end = sockets_of-append ends end

failures_of-append :
    (ends : List AcceptEnd) (end : AcceptEnd)
    → failures_of (ends ++ end ∷ []) ≡ failures_of ends ++ failures_of (end ∷ [])
failures_of-append [] end = refl
failures_of-append (accepted socket ∷ ends) end = failures_of-append ends end
failures_of-append (failed message ∷ ends) end =
    ap (λ t. (bytes "accept", message) ∷ t) (failures_of-append ends end)

on_accept-appends :
    (end : AcceptEnd) (l : Listener)
    → ((on_accept end l).launched ≡ l.launched ++ sockets_of (end ∷ []))
      × ((on_accept end l).errors ≡ l.errors ++ failures_of (end ∷ []))
unfolding on_accept do_accept launch
on_accept-appends (failed message) l = (sym (append-nil l.launched), refl)
on_accept-appends (accepted socket) l = (refl, sym (append-nil l.errors))

on_accept-pending : (end : AcceptEnd) (l : Listener) → (on_accept end l).is_accepting ≡ true
unfolding on_accept do_accept
on_accept-pending end l = refl

-- Whether the set-up fails or not, an accept is pending after each that ends: the listener launches a
-- session for each accepted socket, in their order, reports the first failure of the set-up and then those
-- of the accepts, and never stops.
pub Run-IsServing :
    {s : Setup} {ends : List AcceptEnd} {l : Listener} → Run s ends l → IsServing s ends l
unfolding run do_accept
Run-IsServing {s} begin =
    let first =
      listener-first_failure s.open_error s.set_option_error s.bind_error s.listen_error in
    record {
      accepting = refl;
      sessions = first.1;
      reports = first.0 ∙ sym (append-nil (first_failure (setup_calls s)));
    }
Run-IsServing {s} (accepts {ends} {l} before pending end) =
    let h = Run-IsServing before in
    let added = on_accept-appends end l in
    record {
      accepting = on_accept-pending end l;
      sessions = rw (added.0, h.sessions) (sym (sockets_of-append ends end));
      reports =
          rw (added.1, h.reports, failures_of-append ends end)
            (append_assoc (first_failure (setup_calls s)) (failures_of ends)
              (failures_of (end ∷ [])));
    }
