-- ===== src/Disk.antt =====
-- The calls of the C library on files that src/ makes, as POSIX documents them. A disk gives each
-- path the content of its file. `Faults` is the environment: for each call on each path it may
-- choose an error. Writes are whole, and no other process changes the files during a call.
pub mod Content
pub mod Laws
pub mod Frame
use replicated_block_store.Prelude.{
  ℕ, zero, suc, ◌+◌, ◌-◌, Bool, true, false, Option, none, some, List, [], ◌∷◌, ◌++◌, Bytes,
  bytes_eq, take, drop, length, replicate, leb, ◌==◌, if◌then◌else◌,
}
use replicated_block_store.Io.{Result, done, failed, undefined, Io}

abbrev pub Disk : Type 0
Disk = Bytes → Option Bytes

pub data Call : Type 0 where
  opens_read opens_write creates reads writes pwrites appends renames removes truncates : Call

-- `some e` is a failure with `errno` e + 1, so that it is never 0.
abbrev pub Faults : Type 0
Faults = Call → Bytes → Option ℕ

abbrev pub no_faults : Faults
no_faults c p = none

abbrev pub enoent : ℕ
enoent = 2

-- The disk `d` with the file `p` given the content `c`, or removed.
unfoldable pub update : Bytes → Option Bytes → Disk → Disk
update p c d q = if bytes_eq p q then c else d q

-- A file's bytes after a write of `buf` at `offset`: a gap behind the end is filled with zeros.
unfoldable pub overwrite : Bytes → Bytes → ℕ → Bytes
overwrite content buf offset =
    take offset (content ++ replicate (offset - length content) 0)
    ++ (buf ++ drop (offset + length buf) content)

module _ (os : Faults) where
  -- A call that the environment may refuse.
  abbrev permitted {ℓ} : {A : Type ℓ} → Call → Bytes → A → (ℕ → A) → A
  permitted c p run refuse = elim (os c p) [ none ↦ run | some e ↦ refuse (suc e) ]

  -- `open(p, O_RDONLY)` and `open(p, O_WRONLY)`
  unfoldable pub open_file : Call → Bytes → Io Disk (Unit {0})
  open_file c p d =
      permitted c p (elim (d p) [ none ↦ (failed enoent, d) | some content ↦ (done tt, d) ])
        (λ e. (failed e, d))

  -- `open(p, O_CREAT | O_WRONLY)`: the content of a file that is there is kept.
  unfoldable pub open_create : Bytes → Io Disk (Unit {0})
  open_create p d =
      permitted creates p
        (elim (d p) [ none ↦ (done tt, update p (some []) d) | some content ↦ (done tt, d) ])
        (λ e. (failed e, d))

  -- `read` and `pread` of an open file: fewer bytes where the file ends.
  unfoldable pub read_file : Bytes → ℕ → ℕ → Io Disk Bytes
  read_file p size offset d =
      permitted reads p
        (elim (d p) [
          | none ↦ (failed enoent, d)
          | some content ↦ (done (take size (drop offset content)), d)
        ])
        (λ e. (failed e, d))

  -- `write` at the position of an open file, and `pwrite`.
  unfoldable pub write_file : Call → Bytes → Bytes → ℕ → Io Disk (Unit {0})
  write_file c p buf offset d =
      permitted c p
        (elim (d p) [
          | none ↦ (failed enoent, d)
          | some content ↦ (done tt, update p (some (overwrite content buf offset)) d)
        ])
        (λ e. (failed e, d))

  -- `write` to a file that was opened with O_APPEND.
  unfoldable pub append_file : Bytes → Bytes → Io Disk (Unit {0})
  append_file p buf d =
      permitted appends p
        (elim (d p) [
          | none ↦ (failed enoent, d)
          | some content ↦ (done tt, update p (some (content ++ buf)) d)
        ])
        (λ e. (failed e, d))

  -- `rename(from, to)`: on an error, which the callers never look at, nothing changes.
  unfoldable pub rename : Bytes → Bytes → Disk → Disk
  rename from to d =
      permitted renames from
        (elim (d from) [ none ↦ d | some content ↦ update to (some content) (update from none d) ])
        (λ e. d)

  -- `remove(p)`
  unfoldable pub remove : Bytes → Disk → Disk
  remove p d = permitted removes p (update p none d) (λ e. d)

  -- `truncate(p, 0)`
  unfoldable pub truncate : Bytes → Disk → Disk
  truncate p d =
      permitted truncates p (elim (d p) [ none ↦ d | some content ↦ update p (some []) d ]) (λ e. d)

-- The bytes that `size` bytes from `buffer.c_str() + start` on are: beyond the terminator they
-- belong to nobody.
unfoldable pub bytes_at : Bytes → ℕ → ℕ → Option Bytes
bytes_at buffer start size =
    let text = buffer ++ 0 ∷ [] in
    if leb (start + size) (length text) then some (take size (drop start text)) else none

-- `string(s)` of a C string: the bytes in front of the first zero.
unfoldable pub c_string : Bytes → Bytes
c_string [] = []
c_string (c ∷ s) = let rest = c_string s in if c == 0 then [] else c ∷ rest

-- `string(a)` of an array with no room for a terminator: `none` where it holds no zero.
unfoldable pub c_string_of_array : Bytes → Option Bytes
c_string_of_array [] = none
c_string_of_array (c ∷ s) =
    let rest = c_string_of_array s in
    if c == 0 then some [] else elim rest [ none ↦ none | some t ↦ some (c ∷ t) ]
