-- ===== src/Sync/Balance.antt =====
-- The semaphore behind `Sync` of src/blockstorage_server.cc, for a client that sends what it likes.
use replicated_block_store.Prelude.{
  ℕ, zero, suc, ◌+◌, ◌≤◌, ◌<◌, ◌≡◌, refl, some, none, true, false, ltb, List, [], ◌∷◌, arith,
}
use replicated_block_store.Sync.{
  Session, Command, stop_write, writes_status, get_writes, ack_prev, reading, acquiring, sending,
  awaiting, releasing, finished, handler_step, on_command, answer, default_reply, pending_writes,
}

-- Steps of the handler alone.
pub data Serves : Session → Session → Type 0 where
  stays : {s : Session} → Serves s s
  goes : {s t u : Session} → handler_step s.handler s ≡ some t → Serves t u → Serves s u

-- A client that has sent `cs` and nothing else.
abbrev pub serving : List Command → Session → Session
serving cs s = record s { handler = reading; requests = cs; closed = true }

-- How often the loop waits for the semaphore.
abbrev pub stops : List Command → ℕ
stops [] = 0
stops (stop_write ∷ cs) = suc (stops cs)
stops (writes_status ∷ cs) = stops cs
stops (get_writes ∷ cs) = 0
stops (ack_prev ∷ cs) = 0

-- The handler ends with a semaphore of `n`.
abbrev pub Ends : Session → ℕ → Type 0
Ends s n = (t : Session) × Serves s t × (t.handler ≡ finished) × (t.lock ≡ n)

-- The handler waits for the semaphore for ever.
abbrev pub Waits : Session → Type 0
Waits s = (t : Session) × Serves s t × (t.handler ≡ acquiring) × (handler_step t.handler t ≡ none)

step-Ends : {s t : Session} {n : ℕ} → handler_step s.handler s ≡ some t → Ends t n → Ends s n
step-Ends e (u, r, f, l) = (u, goes e r, f, l)

step-Waits : {s t : Session} → handler_step s.handler s ≡ some t → Waits t → Waits s
step-Waits e (u, r, f, l) = (u, goes e r, f, l)

release : (s : Session) → s.handler ≡ releasing → Ends s (s.lock + 1)
unfolding handler_step
release s e = (
  record s { handler = finished; lock = s.lock + 1 },
  goes (rw (e, handler_step) refl) stays,
  refl,
  refl,
)

sends_no_more :
    (i : ℕ) (s : Session)
    → ltb i pending_writes ≡ false
    → handler_step (sending i) s ≡ some (record s { handler = releasing })
unfolding handler_step
sends_no_more i s e = rw (e, handler_step) refl

sends_one :
    (i : ℕ) (s : Session)
    → ltb i pending_writes ≡ true
    → handler_step (sending i) s
      ≡ some (answer (record default_reply { error = i }) (record s { handler = awaiting i }))
unfolding handler_step
sends_one i s e = rw (e, handler_step) refl

abbrev sends : ℕ → List Command → Session → Session
sends i cs s = record s { handler = sending i; requests = cs; closed = true }

-- Three transactions are sent, whether they are acknowledged or not.
send_rest :
    (k i : ℕ) (cs : List Command) (s : Session) → i + k ≡ 3 → Ends (sends i cs s) (s.lock + 1)
unfolding handler_step
send_rest zero i cs s h =
    step-Ends (sends_no_more i (sends i cs s) (ground arith))
      (release (record (sends i cs s) { handler = releasing }) refl)
send_rest (suc k) i [] s h = step-Ends (sends_one i (sends i [] s) (ground arith)) (
    step-Ends refl
      (send_rest k (i + 1) [] (answer (record default_reply { error = i }) s) (omega arith)))
send_rest (suc k) i (c ∷ cs) s h = step-Ends (sends_one i (sends i (c ∷ cs) s) (ground arith)) (
    step-Ends refl
      (send_rest k (i + 1) cs (answer (record default_reply { error = i }) s) (omega arith)))

-- The semaphore is taken as often as the client asks, and released once.
abbrev IsBalanced : List Command → Session → Type 0
IsBalanced cs s =
    (stops cs ≤ s.lock → (n : ℕ) × Ends (serving cs s) n × (n + stops cs ≡ s.lock + 1))
    × (s.lock < stops cs → Waits (serving cs s))

-- A STOP_WRITE in front of requests of which this holds.
serve_stop :
    (cs : List Command) (s : Session) (l : ℕ)
    → s.lock ≡ l
    → ((s' : Session) → IsBalanced cs s')
    → IsBalanced (stop_write ∷ cs) s
unfolding handler_step on_command
serve_stop cs s zero e rest = (
  (λ h. absurd (omega arith)),
  λ h. (
    record (serving cs s) { handler = acquiring },
    goes refl stays,
    refl,
    rw (e, handler_step) refl,
  ),
)
serve_stop cs s (suc l) e rest =
    let s' = answer default_reply (record s { lock = l }) in
    let (ends, waits) = rest s' in
    (
      (λ h.
          let (n, r, m) = ends (omega arith) in
          (n, step-Ends refl (step-Ends (rw (e, handler_step) refl) r), omega arith)),
      λ h. step-Waits refl (step-Waits (rw (e, handler_step) refl) (waits (omega arith))),
    )

serve_balance : (cs : List Command) (s : Session) → IsBalanced cs s
unfolding handler_step on_command
serve_balance [] s = (
  (λ h. (
    s.lock + 1,
    step-Ends refl (release (record (serving [] s) { handler = releasing }) refl),
    omega arith,
  )),
  λ h. absurd (omega arith),
)
serve_balance (stop_write ∷ cs) s = serve_stop cs s s.lock refl (serve_balance cs)
serve_balance (writes_status ∷ cs) s =
    let (ends, waits) = serve_balance cs ((on_command writes_status s)) in
    ((λ h. let (n, r, m) = ends h in (n, step-Ends refl r, m)), λ h. step-Waits refl (waits h))
serve_balance (get_writes ∷ cs) s = (
  (λ h. (s.lock + 1, step-Ends refl (send_rest 3 0 cs s (omega arith)), omega arith)),
  λ h. absurd (omega arith),
)
serve_balance (ack_prev ∷ cs) s = (
  (λ h. (
    s.lock + 1,
    step-Ends refl (release (record (serving cs s) { handler = releasing }) refl),
    omega arith,
  )),
  λ h. absurd (omega arith),
)

-- Whatever a client sends before it closes the stream, the handler ends, where the semaphore is as
-- high as the number of STOP_WRITEs that its loop reads, and the semaphore is then one higher, less
-- that number: a client that sends no STOP_WRITE raises it.
pub serve_releases :
    (cs : List Command) (s : Session)
    → stops cs ≤ s.lock
    → (n : ℕ) × Ends (serving cs s) n × (n + stops cs ≡ s.lock + 1)
serve_releases cs s h = (serve_balance cs s).0 h

-- With more STOP_WRITEs than that, the handler waits for the semaphore for ever.
pub serve-Waits : (cs : List Command) (s : Session) → s.lock < stops cs → Waits (serving cs s)
serve-Waits cs s h = (serve_balance cs s).1 h
