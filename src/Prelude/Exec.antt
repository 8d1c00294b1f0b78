-- ===== src/Prelude/Exec.antt =====
-- Go functions that read and write a state and may return an error. What was written before an
-- error stays written, so the state comes back beside the error too.
use mathlib.Core.Bool.{Bool, true, false}
use Prim.Native.Nat.{ℕ}
use Prim.Native.String.{String}

-- What `error` values the library makes. Texts are left out, sentinels and codes are kept:
-- `wrap` is `fmt.Errorf("...: %w", err)`, `auth` an `AuthError` by its code and scheme, and `rpc` is
-- a `*a2a.JSONRPCError` by its code's absolute value.
pub data Error : Type 0 where
  task_not_found : Error
  context_not_found : Error
  push_config_not_found : Error
  file_not_found : Error
  version_mismatch : ℕ → ℕ → Error
  io : Error
  no_such_key : Error
  invalid : Error
  skip_event : Error
  extension_missing : Error
  streaming_unsupported : Error
  tool_not_registered : Error
  end_of_file : Error
  file_closed : Error
  wrong_mode : Error
  queue_closed : Error
  lock_already_acquired : Error
  locker_closed : Error
  context_done : Error
  cancelled_task : Error
  agent_failed : Error
  auth : String → String → Error
  rpc : ℕ → Error
  wrap : Error → Error

pub data Result {ℓ} (A : Type ℓ) : Type ℓ where
  ok : A → Result A
  err : Error → Result A

-- `errors.Is` against a sentinel looks through the wrapping.
unfoldable pub is_task_not_found : Error → Bool
is_task_not_found task_not_found = true
is_task_not_found (wrap e) = is_task_not_found e
is_task_not_found _ = false

unfoldable pub is_push_config_not_found : Error → Bool
is_push_config_not_found push_config_not_found = true
is_push_config_not_found (wrap e) = is_push_config_not_found e
is_push_config_not_found _ = false

abbrev pub Exec {ℓ κ} : Type ℓ → Type κ → Type (ℓ ⊔ κ)
Exec S A = S → Result A × S

-- `if err != nil { return ..., fmt.Errorf("...: %w", err) }`
abbrev pub wrap_result {ℓ} : {A : Type ℓ} → Result A → Result A
wrap_result (ok a) = ok a
wrap_result (err e) = err (wrap e)

module _ {ℓ κ} {S : Type ℓ} {A : Type κ} where
  abbrev pub pure : A → Exec S A
  pure a s = (ok a, s)

  abbrev pub raise : Error → Exec S A
  raise e s = (err e, s)

  abbrev pub wrapping : Exec S A → Exec S A
  wrapping m s = let (r, s') = m s in (wrap_result r, s')

module _ {ℓ κ μ} {S : Type ℓ} {A : Type κ} {B : Type μ} where
  abbrev pub continue : Result A → (A → Exec S B) → Exec S B
  continue (err e) next s = (err e, s)
  continue (ok a) next s = next a s

  infixl 10 ◌>>=◌ ◌>>◌
  abbrev pub ◌>>=◌ : Exec S A → (A → Exec S B) → Exec S B
  ◌>>=◌ m next s = let (r, t) = m s in continue r next t

  abbrev pub ◌>>◌ : Exec S A → Exec S B → Exec S B
  m >> n = m >>= λ _. n
