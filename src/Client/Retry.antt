-- ===== src/Client/Retry.antt =====
-- What the loops of src/client.cc make of their calls.
use replicated_block_store.Prelude.{
  ℕ, zero, suc, ◌+◌, ◌*◌, ◌≤◌, ◌<◌, ◌≡◌, refl, some, true, false, arith, inl, inr, Bool-cases, ◌-◌,
}
use replicated_block_store.Server.{StatusCode}
use replicated_block_store.Client.{Report, is_ok, attempt_loop, read, write}

-- `n` calls in a row.
unfoldable pub after : {S : Type 0} → (S → StatusCode × S) → ℕ → S → S
after call zero s = s
after call (suc n) s = after call n (call s).1

-- What a report says of the calls: the state and the status are those behind that many calls,
-- every call before the last failed, and fewer than three calls were made only if the last one
-- succeeded.
pub record IsReport {S : Type 0} (call : S → StatusCode × S) (s : S) (r : Report S) : Type 0 where
  pub some_call : 1 ≤ r.attempts
  pub at_most_three : r.attempts ≤ 3
  pub state_after : r.state ≡ after call r.attempts s
  pub last_status : r.status ≡ (call (after call (r.attempts - 1) s)).0
  pub earlier_failed : (n : ℕ) → n + 1 < r.attempts → is_ok (call (after call n s)).0 ≡ false
  pub gave_up : r.attempts < 3 → is_ok r.status ≡ true

module _ {S : Type 0} (wait : ℕ → ℕ) (call : S → StatusCode × S) (s : S) where
  abbrev one : S
  one = (call s).1

  abbrev two : S
  two = (call one).1

  -- The loop in full.
  attempt_loop_lem :
      (r : Report S) × (attempt_loop wait call 3 0 0 s ≡ some r)
      × IsReport call s r
      × (r.slept ≤ wait 0 + wait 1 + wait 2)
  unfolding attempt_loop after
  attempt_loop_lem = elim (Bool-cases (is_ok (call s).0)) [
    | inl e ↦ (
      record { status = (call s).0; attempts = 1; slept = wait 0; state = one },
      ground arith,
      record {
        some_call = omega arith;
        at_most_three = omega arith;
        state_after = refl;
        last_status = refl;
        earlier_failed = λ n h. absurd (omega arith);
        gave_up = λ _. e;
      },
      omega arith,
    )
    | inr e ↦ elim (Bool-cases (is_ok (call one).0)) [
      | inl f ↦ (
        record { status = (call one).0; attempts = 2; slept = wait 0 + wait 1; state = two },
        ground arith,
        record {
          some_call = omega arith;
          at_most_three = omega arith;
          state_after = refl;
          last_status = refl;
          earlier_failed = λ n h. earlier_one n e (omega arith);
          gave_up = λ _. f;
        },
        omega arith,
      )
      | inr f ↦ (
        record {
          status = (call two).0;
          attempts = 3;
          slept = wait 0 + wait 1 + wait 2;
          state = (call two).1;
        },
        ground arith,
        record {
          some_call = omega arith;
          at_most_three = omega arith;
          state_after = refl;
          last_status = refl;
          earlier_failed = λ n h. earlier_two n e f (omega arith);
          gave_up = λ h. absurd (omega arith);
        },
        omega arith,
      )
    ]
  ]
    where
      earlier_one :
          (n : ℕ) → is_ok (call s).0 ≡ false → n < 1 → is_ok (call (after call n s)).0 ≡ false
      earlier_one zero e h = e
      earlier_one (suc n) e h = absurd (omega arith)

      earlier_two :
          (n : ℕ)
          → is_ok (call s).0 ≡ false
          → is_ok (call one).0 ≡ false
          → n < 2
          → is_ok (call (after call n s)).0 ≡ false
      earlier_two zero e f h = e
      earlier_two (suc zero) e f h = f
      earlier_two (suc (suc n)) e f h = absurd (omega arith)

-- A client's read ends, whatever the server answers, behind one to three calls, with the status of
-- the last of them; the calls before it failed, and only a success ends it before the third.
pub read_ends :
    {S : Type 0} (call : S → StatusCode × S) (s : S)
    → (r : Report S) × (read call s ≡ some r) × IsReport call s r
unfolding read
read_ends call s = let (r, e, h, _) = attempt_loop_lem (λ n. 0) call s in (r, e, h)

-- A client's write ends, whatever the server answers, behind one to three calls, with the status of
-- the last of them, and sleeps for six seconds at most; the calls before the last failed, and only
-- a success ends it before the third.
pub write_ends :
    {S : Type 0} (call : S → StatusCode × S) (s : S)
    → (r : Report S) × (write call s ≡ some r) × IsReport call s r × (r.slept ≤ 6)
unfolding write
write_ends call s =
    let (r, e, h, t) = attempt_loop_lem (λ n. n * 2) call s in (r, e, h, omega arith)
