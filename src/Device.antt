-- ===== src/Device.antt =====
-- What the servers promise: a device of numbered blocks, in which a range of 4096 bytes at any
-- address can be written and read. A block that has no file is `none`.
pub mod Laws
use replicated_block_store.Prelude.{
  ℕ, ◌+◌, ◌-◌, ◌/◌, ◌%◌, Option, none, some, [], Bytes, ◌++◌, take, drop, ◌==◌, if◌then◌else◌,
}
use replicated_block_store.Disk.{overwrite, c_string}
use replicated_block_store.Address.{block_size}

abbrev pub Device : Type 0
Device = ℕ → Option Bytes

abbrev pub written : Bytes → ℕ → Option Bytes → Option Bytes
written buf offset none = none
written buf offset (some content) = some (overwrite content buf offset)

-- Bytes written into one block.
abbrev pub write_block : ℕ → ℕ → Bytes → Device → Device
write_block b offset buf v j = if b == j then written buf offset (v j) else v j

-- The parts of the buffer that go to the first and to the second block of an address.
abbrev pub first_part : ℕ → Bytes → Bytes
first_part a buffer = take (block_size - a % block_size) buffer

abbrev pub second_part : ℕ → Bytes → Bytes
second_part a buffer = take (a % block_size) (drop (block_size - a % block_size) buffer)

unfoldable pub write_device : ℕ → Bytes → Device → Device
write_device a buffer v =
    let first = write_block (a / block_size) (a % block_size) (first_part a buffer) v in
    if a % block_size == 0
    then first
    else write_block (a / block_size + 1) 0 (second_part a buffer) first

abbrev pub bytes_of : Option Bytes → Bytes
bytes_of none = []
bytes_of (some content) = content

-- The 4096 bytes from an address on.
unfoldable pub read_device : ℕ → Device → Bytes
read_device a v =
    take (block_size - a % block_size) (drop (a % block_size) (bytes_of (v (a / block_size))))
    ++ take (a % block_size) (bytes_of (v (a / block_size + 1)))

-- What a read shows of them: each of the two parts as a C string, up to its first zero byte.
unfoldable pub read_shown : ℕ → Device → Bytes
read_shown a v =
    c_string
      (take (block_size - a % block_size) (drop (a % block_size) (bytes_of (v (a / block_size)))))
    ++ c_string (take (a % block_size) (bytes_of (v (a / block_size + 1))))
