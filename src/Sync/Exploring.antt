-- ===== src/Sync/Exploring.antt =====
-- Every order of the steps of a synchronisation (src/blockstorage_server.cc), by evaluation.
use replicated_block_store.Prelude.{
  ℕ, zero, suc, ◌<◌, ◌≡◌, ◌⊎◌, inl, inr, refl, none, some, Option-cases, Bool, true, false, ◌&&◌,
  List, [], ◌∷◌, ◌==◌, arith, bytes_eq, bytes_eq_iff,
}
use replicated_block_store.Sync.{
  Session, start, handler_step, caller_step, Handler, finished, has_finished, Caller, synced, Step,
  handles, calls, Run, here, next,
}

-- The end of a synchronisation: both processes are through, nothing is on its way, the semaphore is
-- free, and three packets were printed.
pub record IsOver (s : Session) : Type 0 where
  pub handler : s.handler ≡ finished
  pub caller : s.caller ≡ synced
  pub requests : s.requests ≡ []
  pub replies : s.replies ≡ []
  pub lock : s.lock ≡ 1
  pub printed : s.printed ≡ 0 ∷ 1 ∷ 2 ∷ []

is_synced : Caller → Bool
is_synced synced = true
is_synced _ = false

is_nil : {A : Type 0} → List A → Bool
is_nil [] = true
is_nil (x ∷ xs) = false

ends_well : Session → Bool
unfolding is_synced is_nil
ends_well s =
    has_finished s.handler
    && (is_synced s.caller
        && (is_nil s.requests
            && (is_nil s.replies && (s.lock == 1 && bytes_eq s.printed (0 ∷ 1 ∷ 2 ∷ [])))))

has_finished_eq : (h : Handler) → has_finished h ≡ true → h ≡ finished
has_finished_eq finished e = refl
has_finished_eq _ e = absurd (cc)

is_synced_eq : (c : Caller) → is_synced c ≡ true → c ≡ synced
unfolding is_synced
is_synced_eq synced e = refl
is_synced_eq _ e = absurd (cc)

is_nil_eq : {A : Type 0} (xs : List A) → is_nil xs ≡ true → xs ≡ []
unfolding is_nil
is_nil_eq [] e = refl
is_nil_eq (x ∷ xs) e = absurd (cc)

both : (a b : Bool) → (a && b) ≡ true → (a ≡ true) × (b ≡ true)
both true true e = (refl, refl)
both true false e = absurd (cc)
both false b e = absurd (cc)

IsOver-ends_well : (s : Session) → ends_well s ≡ true → IsOver s
unfolding ends_well
IsOver-ends_well s e =
    let (h, e1) = both _ _ e in
    let (c, e2) = both _ _ e1 in
    let (q, e3) = both _ _ e2 in
    let (r, e4) = both _ _ e3 in
    let (l, p) = both _ _ e4 in
    record {
      handler = has_finished_eq s.handler h;
      caller = is_synced_eq s.caller c;
      requests = is_nil_eq s.requests q;
      replies = is_nil_eq s.replies r;
      lock = let one : (s.lock == 1) ≡ true = l in ground arith;
      printed = (bytes_eq_iff s.printed (0 ∷ 1 ∷ 2 ∷ [])).0 p;
    }

-- Every order of steps, up to a number of them, ends well.
explore : ℕ → Session → Bool
explore zero s = false
explore (suc fuel) s = elim (handler_step s.handler s) [
  | none ↦ elim (caller_step s.caller s) [ none ↦ ends_well s | some u ↦ explore fuel u ]
  | some t ↦
      explore fuel t && elim (caller_step s.caller s) [ none ↦ true | some u ↦ explore fuel u ]
]

abbrev pub CanStep : Session → Type 0
CanStep s = (t : Session) × Step s t

-- What `explore` says of where a session stands.
explore-here : (fuel : ℕ) (s : Session) → explore (suc fuel) s ≡ true → CanStep s ⊎ IsOver s
unfolding explore
explore-here fuel s e = elim (Option-cases (handler_step s.handler s)) [
  | inr (t, h) ↦ inl (t, handles h)
  | inl h ↦ elim (Option-cases (caller_step s.caller s)) [
    | inr (u, c) ↦ inl (u, calls c)
    | inl c ↦ inr (IsOver-ends_well s (rw (h, explore, c, explore) at e))
  ]
]

explore-Step :
    (fuel : ℕ) (s t : Session) → explore (suc fuel) s ≡ true → Step s t → explore fuel t ≡ true
unfolding explore
explore-Step fuel s t e (handles h) =
    let tested : (explore fuel t && _) ≡ true = rw (h, explore) at e in (both _ _ tested).0
explore-Step fuel s t e (calls c) = elim (Option-cases (handler_step s.handler s)) [
  | inl h ↦ rw (h, explore, c, explore) at e
  | inr (u, h) ↦
      let tested : (explore fuel u && explore fuel t) ≡ true = rw (h, explore, c, explore) at e in
      (both _ _ tested).1
]

explore_lem :
    (fuel n : ℕ) (s t : Session)
    → explore fuel s ≡ true
    → Run n s t
    → (n < fuel) × (CanStep t ⊎ IsOver t)
explore_lem zero n s t e r = absurd (unfold explore in cc)
explore_lem (suc fuel) zero s t e here = (omega arith, explore-here fuel s e)
explore_lem (suc fuel) (suc n) s t e (next step r) =
    let (small, ends) = explore_lem fuel n _ t (explore-Step fuel s _ e step) r in
    (omega arith, ends)

explored : explore 40 (start 1) ≡ true
unfolding explore handler_step caller_step ends_well bytes_eq
explored = refl

-- A synchronisation that finds the semaphore free ends, in every order of the steps of the primary's
-- handler and of the client: there are fewer than 40 steps, in front of its end there always is a
-- next one, and at its end both are through, three packets were received in their order and
-- acknowledged, nothing is on its way, and the semaphore is free again.
pub synchronises : (n : ℕ) (t : Session) → Run n (start 1) t → (n < 40) × (CanStep t ⊎ IsOver t)
synchronises n t r = explore_lem 40 n (start 1) t explored r
