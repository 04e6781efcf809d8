-- ===== src/Outcome.antt =====
-- How a call ends: it returns, or an exception leaves it. Nothing in the repository catches one on
-- the way from the request handlers to the worker threads' `ioc.run()`.

pub data Exception : Type 0 where
  -- jwt::decode: std::invalid_argument or std::runtime_error
  invalid_token : Exception
  -- boost::json: a value of another kind than asked for
  wrong_kind : Exception
  -- std::out_of_range of `at`
  out_of_range : Exception
  -- std::stoi: std::invalid_argument
  no_number : Exception

pub data Outcome {ℓ} (A : Type ℓ) : Type ℓ where
  ret : A → Outcome A
  raise : Exception → Outcome A

infixl 5 ◌>>=◌
abbrev pub ◌>>=◌ {ℓ κ} : {A : Type ℓ} {B : Type κ} → Outcome A → (A → Outcome B) → Outcome B
ret a >>= f = f a
raise e >>= f = raise e
