-- ===== src/VerifyServer/Sending.antt =====
-- sendVerifyAnswer of main.cpp: which of its results it can have.
use da_gis_service.Common.{ℕ, zero, suc, ◌≡◌, refl, Option, none, some}
use da_gis_service.VerifyServer.{SendResult, sent, error, GetSockOpt, send_end, send_verify_answer}

-- getsockopt stores at most as many bytes as it is told there are: with 0 it leaves the value alone, and
-- it reports no more.
pub record IsLimited (call : GetSockOpt) : Type 0 where
  pub stores_nothing : (err_code : ℕ) → call err_code 0 ≡ (err_code, 0)

-- What send returned, where the result says so: the bytes sent, if any were, and else -1.
abbrev pub result_of : Option ℕ → SendResult
result_of none = error 1
result_of (some zero) = error 1
result_of (some (suc n)) = sent (suc n)

send_end-result_of : (n : Option ℕ) → send_end n ≡ result_of n
unfolding send_end
send_end-result_of none = refl
send_end-result_of (some zero) = refl
send_end-result_of (some (suc n)) = refl

-- The calls of getsockopt never show an error of the socket: sendVerifyAnswer returns what send returned if
-- that is positive, be it less than the message, and else -1, and never -2 or -4.
pub send_verify_answer-result_of :
    (before after : GetSockOpt) (n : Option ℕ)
    → IsLimited before
    → IsLimited after
    → send_verify_answer before after n ≡ result_of n
unfolding send_verify_answer
send_verify_answer-result_of before after n hb ha =
    rw (hb.stores_nothing 0, ha.stores_nothing 0) (send_end-result_of n)
