-- ===== src/Sync.antt =====
-- The synchronisation of a backup, src/blockstorage_server.cc: the handler `Sync` of the primary,
-- the client `ServiceCommClient`, the stream between them, and the semaphore `global_write_lock`.
-- A call on the stream or on the semaphore is one step of the process that makes it.
pub mod Exploring
pub mod Balance
use replicated_block_store.Prelude.{
  ℕ, zero, suc, ◌+◌, ◌-◌, ◌%◌, ◌≡◌, Option, none, some, Bool, true, false, List, [], ◌∷◌, ◌++◌, ℤ,
  pos, negsuc, ltb, ◌==◌, if◌then◌else◌,
}

-- `SyncRequest_Commands`
pub data Command : Type 0 where
  stop_write writes_status get_writes ack_prev : Command

pub record SyncReply : Type 0 where
  pub error : ℕ
  pub pending_writes : ℕ
  pub inflight_writes : ℕ

abbrev pub default_reply : SyncReply
default_reply = record { error = 0; pending_writes = 0; inflight_writes = 0 }

-- Where the handler stands: in front of a Read, of `sem_wait`, of sending the i-th transaction, of
-- reading its acknowledgement, of `sem_post`, or behind its end.
pub data Handler : Type 0 where
  reading acquiring releasing finished : Handler
  sending awaiting : ℕ → Handler

-- Where the client stands, with the reply that it has read last: in front of the Write and of the
-- Read of `stop_writes`, of a round of `wait`, and of `commit_txns`, of whose `count` rounds `i` are
-- over; then in front of `WritesDone`, of `Finish`, and behind it.
pub data Caller : Type 0 where
  stopping stopped closing finishing synced : Caller
  asking asked : SyncReply → Caller
  fetching : ℕ → Caller
  receiving acking : ℕ → ℕ → SyncReply → Caller

-- Both processes, the stream with what is on its way, the semaphore, and the numbers of the packets
-- that the client has printed.
pub record Session : Type 0 where
  pub handler : Handler
  pub count_down : ℤ
  pub caller : Caller
  pub requests : List Command
  pub closed : Bool
  pub replies : List SyncReply
  pub lock : ℕ
  pub printed : List ℕ

-- The semaphore stands at `lock` when the call arrives.
abbrev pub start : ℕ → Session
start lock = record {
  handler = reading;
  count_down = pos 3;
  caller = stopping;
  requests = [];
  closed = false;
  replies = [];
  lock = lock;
  printed = [];
}

abbrev pub pending_writes : ℕ
pending_writes = 3

-- `count_down--`
abbrev pub decrement : ℤ → ℤ
decrement (pos zero) = negsuc 0
decrement (pos (suc n)) = pos n
decrement (negsuc n) = negsuc (suc n)

-- An `int` in a `uint32` field.
abbrev pub uint32_of_int : ℤ → ℕ
uint32_of_int (pos n) = n % 4294967296
uint32_of_int (negsuc n) = 4294967295 - n % 4294967296

abbrev pub answer : SyncReply → Session → Session
answer reply s = record s { replies = s.replies ++ reply ∷ [] }

-- A request that is read by the loop.
unfoldable pub on_command : Command → Session → Session
on_command stop_write s = record s { handler = acquiring }
on_command writes_status s =
    answer
      (record {
        error = 0;
        pending_writes = pending_writes;
        inflight_writes = uint32_of_int s.count_down;
      })
      (record s { count_down = decrement s.count_down })
on_command get_writes s = record s { handler = sending 0 }
on_command ack_prev s = record s { handler = releasing }

-- `stream->Read(&request)`: the next request, or the end of the stream; `none` waits.
abbrev read_request :
    List Command → Bool → (Command → List Command → Session) → Session → Option Session
read_request (c ∷ cs) closed next over = some (next c cs)
read_request [] true next over = some over
read_request [] false next over = none

-- One step of the handler; `none` where it waits, or has ended.
unfoldable pub handler_step : Handler → Session → Option Session
unfolding on_command
handler_step reading s =
    read_request s.requests s.closed (λ c cs. on_command c (record s { requests = cs }))
      (record s { handler = releasing })
handler_step acquiring s = elim s.lock [
  | zero ↦ none
  | suc n ↦ some (answer default_reply (record s { handler = reading; lock = n }))
]
handler_step (sending i) s =
    if ltb i pending_writes
    then some (answer (record default_reply { error = i }) (record s { handler = awaiting i }))
    else some (record s { handler = releasing })
handler_step (awaiting i) s =
    let next = record s { handler = sending (i + 1) } in
    read_request s.requests s.closed (λ c cs. record next { requests = cs }) next
handler_step releasing s = some (record s { handler = finished; lock = s.lock + 1 })
handler_step finished s = none

abbrev pub has_finished : Handler → Bool
has_finished finished = true
has_finished _ = false

-- `stream->Read(&reply)`: the next reply, or, where the handler has ended, what was there before.
abbrev read_reply :
    List SyncReply → Handler → SyncReply → (SyncReply → List SyncReply → Session) → Option Session
read_reply (r ∷ rs) h old next = some (next r rs)
read_reply [] h old next = if has_finished h then some (next old []) else none

abbrev send : Command → Caller → Session → Session
send c caller s = record s { caller = caller; requests = s.requests ++ c ∷ [] }

-- `int txn_count`, of which a negative one makes no round.
abbrev rounds_of : ℕ → ℕ
rounds_of n = if ltb n 2147483648 then n else 0

-- One step of `ServiceCommClient::Sync`.
unfoldable pub caller_step : Caller → Session → Option Session
caller_step stopping s = some (send stop_write stopped s)
caller_step stopped s =
    read_reply s.replies s.handler default_reply
      (λ r rs. record s { caller = asking default_reply; replies = rs })
caller_step (asking old) s = some (send writes_status (asked old) s)
caller_step (asked old) s = read_reply s.replies s.handler old (λ r rs. record s {
  caller = if r.inflight_writes == 0 then fetching (rounds_of r.pending_writes) else asking r;
  replies = rs;
})
caller_step (fetching count) s = some (send get_writes (receiving 0 count default_reply) s)
caller_step (receiving i count old) s =
    if ltb i count
    then read_reply s.replies s.handler old (λ r rs. record s {
      caller = acking i count r;
      replies = rs;
      printed = s.printed ++ r.error ∷ [];
    })
    else some (record s { caller = closing })
caller_step (acking i count r) s = some (send ack_prev (receiving (i + 1) count r) s)
caller_step closing s = some (record s { caller = finishing; closed = true })
caller_step finishing s =
    if has_finished s.handler then some (record s { caller = synced }) else none
caller_step synced s = none

-- A step of either process.
pub data Step (s : Session) : Session → Type 0 where
  handles : {t : Session} → handler_step s.handler s ≡ some t → Step s t
  calls : {t : Session} → caller_step s.caller s ≡ some t → Step s t

-- `n` steps, in whatever order.
pub data Run : ℕ → Session → Session → Type 0 where
  here : {s : Session} → Run 0 s s
  next : {n : ℕ} {s t u : Session} → Step s t → Run n t u → Run (suc n) s u
