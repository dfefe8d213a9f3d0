-- ===== src/Buffer.antt =====
-- reactor/Buffer.h and reactor/Buffer.cc: the byte buffer of a connection. A `std::vector<char>` is
-- a list of bytes, `size_t` arithmetic wraps at 2 ^ 64, and a failed `assert` or an access outside
-- the vector is the fault `none`. Allocation does not fail.
pub mod Parts
pub mod Space
pub mod Content
pub mod ReadFd
pub mod Growth
mod Examples
use learn_for_cpp.Base.{
  ℕ, ◌+◌, ◌-◌, ◌%◌, ◌^◌, Bool, true, false, Option, none, some, List, [], ◌++◌, length, take, drop,
  replicate, ltb, leb, ◌==◌, if◌then◌else◌, ◌>>=◌, ◌>>◌, assert, read_range, write_range,
}

abbrev pub cheap_prepend : ℕ
cheap_prepend = 8

abbrev pub initial_size : ℕ
initial_size = 1024

abbrev pub size_mod : ℕ
size_mod = 2 ^ 64

-- `size_t` addition and subtraction.
abbrev pub add_size : ℕ → ℕ → ℕ
add_size a b = (a + b) % size_mod

abbrev pub sub_size : ℕ → ℕ → ℕ
sub_size a b = (a + size_mod - b) % size_mod

pub record Buffer : Type 0 where
  pub buffer : List ℕ
  pub reader_index : ℕ
  pub writer_index : ℕ

-- `std::vector::resize`: new bytes are 0.
abbrev pub resize : List ℕ → ℕ → List ℕ
resize xs n = take n xs ++ replicate (n - length xs) 0

unfoldable pub new_buffer : Buffer
new_buffer = record {
  buffer = replicate (cheap_prepend + initial_size) 0;
  reader_index = cheap_prepend;
  writer_index = cheap_prepend;
}

-- Both buffers after `a.swap(b)`.
unfoldable pub swap : Buffer → Buffer → Buffer × Buffer
swap a b = (b, a)

unfoldable pub readable_bytes : Buffer → ℕ
readable_bytes b = sub_size b.writer_index b.reader_index

unfoldable pub writable_bytes : Buffer → ℕ
writable_bytes b = sub_size (length b.buffer) b.writer_index

unfoldable pub prependable_bytes : Buffer → ℕ
prependable_bytes b = b.reader_index

unfoldable pub retrieve : Buffer → ℕ → Option Buffer
retrieve b len = do
  assert (leb len (readable_bytes b))
  some (record b { reader_index = add_size b.reader_index len })

-- A pointer into the buffer is its offset from `begin()`.
unfoldable pub retrieve_until : Buffer → ℕ → Option Buffer
retrieve_until b end = do
  assert (leb b.reader_index end)
  assert (leb end b.writer_index)
  retrieve b (end - b.reader_index)

unfoldable pub retrieve_all : Buffer → Buffer
retrieve_all b = record b { reader_index = cheap_prepend; writer_index = cheap_prepend }

unfoldable pub retrieve_as_string : Buffer → Option (List ℕ × Buffer)
retrieve_as_string b = do
  str ← read_range b.buffer b.reader_index (readable_bytes b)
  some (str, retrieve_all b)

-- Moves the readable bytes back to index 8. Its second assertion compares `readable` with the
-- difference of the two indices just set.
unfoldable pub compact : Buffer → Option Buffer
compact b = do
  assert (ltb cheap_prepend b.reader_index)
  let readable = readable_bytes b
  bytes ← read_range b.buffer b.reader_index readable
  moved ← write_range b.buffer cheap_prepend bytes
  let end = add_size cheap_prepend readable
  let b' : Buffer = record { buffer = moved; reader_index = cheap_prepend; writer_index = end }
  assert (readable == readable_bytes b')
  some b'

unfoldable pub make_space : Buffer → ℕ → Option Buffer
make_space b len =
    if ltb (add_size (writable_bytes b) (prependable_bytes b)) (add_size len cheap_prepend)
    then some (record b { buffer = resize b.buffer (add_size b.writer_index len) })
    else compact b

unfoldable pub ensure_writable_bytes : Buffer → ℕ → Option Buffer
ensure_writable_bytes b len = do
  b' ← (if ltb (writable_bytes b) len then make_space b len else some b)
  assert (leb len (writable_bytes b'))
  some b'

unfoldable pub has_written : Buffer → ℕ → Buffer
has_written b len = record b { writer_index = add_size b.writer_index len }

unfoldable pub append : Buffer → List ℕ → Option Buffer
append b d = do
  b' ← ensure_writable_bytes b (length d)
  bytes ← write_range b'.buffer b'.writer_index d
  some (has_written (record b' { buffer = bytes }) (length d))

pub prepend : Buffer → List ℕ → Option Buffer
prepend b d = do
  assert (leb (length d) (prependable_bytes b))
  let start = sub_size b.reader_index (length d)
  bytes ← write_range b.buffer start d
  some (record b { buffer = bytes; reader_index = start })

-- `buf.swap(buffer_)` replaces the vector; the two indices stay as they were.
pub shrink : Buffer → ℕ → Option Buffer
shrink b reserve = do
  let size = add_size (add_size cheap_prepend (readable_bytes b)) reserve
  bytes ← read_range b.buffer b.reader_index (readable_bytes b)
  buf ← write_range (replicate size 0) cheap_prepend bytes
  some (record b { buffer = buf })

-- What `readv` did: an error number, or the bytes that it took from the socket.
pub data Readv : Type 0 where
  failed : ℕ → Readv
  got : List ℕ → Readv

abbrev pub extrabuf_size : ℕ
extrabuf_size = 65536

-- `readv` fills the writable part first and `extrabuf` with the rest. The result is the buffer with
-- `savedErrno`, which is set on an error only.
unfoldable pub read_fd : Buffer → Readv → Option (Buffer × Option ℕ)
read_fd b (failed errno) = some (b, some errno)
read_fd b (got bytes) = do
  let writable = writable_bytes b
  filled ← write_range b.buffer b.writer_index (take writable bytes)
  let b' : Buffer = record b { buffer = filled }
  if leb (length bytes) writable
      then some (record b' { writer_index = add_size b.writer_index (length bytes) }, none)
      else (do
        b'' ← append (record b' { writer_index = length filled }) (drop writable bytes)
        some (b'', none))
