-- ===== src/Client.antt =====
-- src/client.h and client.cc: a request is tried up to three times. The stub, which gRPC generates,
-- is a parameter: one call on the state `S` of what it talks to.
pub mod Retry
use replicated_block_store.Prelude.{
  ℕ, zero, suc, ◌+◌, ◌*◌, Option, none, some, Bool, true, false, not, ◌&&◌, ltb, if◌then◌else◌,
}
use replicated_block_store.Server.{StatusCode, ok}

abbrev pub is_ok : StatusCode → Bool
is_ok ok = true
is_ok _ = false

-- The end of a loop: the last status, the attempts made and the seconds slept.
pub record Report (S : Type 0) : Type 0 where
  pub status : StatusCode
  pub attempts : ℕ
  pub slept : ℕ
  pub state : S

module _ {S : Type 0} where
  -- The `do … while` of `Read` and `Write`, with `wait n` the seconds that it sleeps in front of
  -- attempt n. `none`: the fuel ran out.
  unfoldable pub attempt_loop : (ℕ → ℕ) → (S → StatusCode × S) → ℕ → ℕ → ℕ → S → Option (Report S)
  attempt_loop wait call zero attempt slept s = none
  attempt_loop wait call (suc fuel) attempt slept s =
      let (status, s') = call s in
      let slept' = slept + wait attempt in
      let again = attempt_loop wait call fuel (attempt + 1) slept' s' in
      if ltb (attempt + 1) 3 && not (is_ok status)
      then again
      else some (record { status = status; attempts = attempt + 1; slept = slept'; state = s' })

  -- Three rounds are enough fuel.
  unfoldable pub read : (S → StatusCode × S) → S → Option (Report S)
  unfolding attempt_loop
  read call s = attempt_loop (λ n. 0) call 3 0 0 s

  unfoldable pub write : (S → StatusCode × S) → S → Option (Report S)
  unfolding attempt_loop
  write call s = attempt_loop (λ n. n * 2) call 3 0 0 s

  unfoldable pub ping : (S → StatusCode × S) → S → StatusCode × S
  ping call s = call s
