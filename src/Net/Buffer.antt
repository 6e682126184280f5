-- ===== src/Net/Buffer.antt =====
-- cppboot/net/buffer.h: the bytes of a connection that are not read yet. A failed assertion is
-- none. The indices are size_t, whose sums wrap.
pub mod Slice
pub mod Laws
pub mod Retrive
pub mod Queue
use altas.Prelude.{
  ◌>>=◌, ℕ, ◌+◌, ◌-◌, ◌≡◌, Bool, true, false, List, [], ◌∷◌, ◌++◌, Option, none, some, Bytes,
  length, take, drop, replicate, if◌then◌else◌, ltb, leb,
}
use altas.Words.{add_size, sub_size}

abbrev pub cheap_prepend : ℕ
cheap_prepend = 8

abbrev pub initial_size : ℕ
initial_size = 1024

pub record Buffer : Type 0 where
  pub buffer : Bytes
  pub reader : ℕ
  pub writer : ℕ

unfoldable pub new_buffer : ℕ → Buffer
new_buffer size = record {
  buffer = replicate (add_size cheap_prepend size) 0;
  reader = cheap_prepend;
  writer = cheap_prepend;
}

unfoldable pub prependable_bytes : Buffer → ℕ
prependable_bytes b = b.reader

unfoldable pub readable_bytes : Buffer → ℕ
readable_bytes b = sub_size b.writer b.reader

unfoldable pub writable_bytes : Buffer → ℕ
writable_bytes b = sub_size (length b.buffer) b.writer

-- `Str()` and `ToString()`.
unfoldable pub str : Buffer → Bytes
unfolding readable_bytes
str b = take (readable_bytes b) (drop b.reader b.buffer)

unfoldable pub retrive_all : Buffer → Buffer
retrive_all b = record b { reader = cheap_prepend; writer = cheap_prepend }

unfoldable pub retrive : ℕ → Buffer → Buffer
retrive len b =
    if ltb len (readable_bytes b)
    then record b { reader = add_size b.reader len }
    else retrive_all b

-- The bytes of `source` copied over those from index `i` on.
abbrev pub copy_to : ℕ → Bytes → Bytes → Bytes
copy_to i source bytes = take i bytes ++ (source ++ drop (i + length source) bytes)

-- `vector::resize`
abbrev pub resize : ℕ → Bytes → Bytes
resize n bytes = take n bytes ++ replicate (n - length bytes) 0

-- The readable bytes moved to the front.
unfoldable pub move_front : Buffer → Buffer
move_front b = record {
  buffer = copy_to cheap_prepend (str b) b.buffer;
  reader = cheap_prepend;
  writer = add_size cheap_prepend (readable_bytes b);
}

unfoldable pub make_space : ℕ → Buffer → Option Buffer
make_space len b =
    if ltb (add_size (writable_bytes b) (prependable_bytes b)) (add_size len cheap_prepend)
    then some (record b { buffer = resize (add_size b.writer len) b.buffer })
    else if ltb cheap_prepend b.reader
    then some (move_front b)
    else none

-- The assertion after the space is made.
unfoldable pub check_writable : ℕ → Buffer → Option Buffer
check_writable len b = if leb len (writable_bytes b) then some b else none

unfoldable pub ensure_writable_bytes : ℕ → Buffer → Option Buffer
ensure_writable_bytes len b =
    if ltb (writable_bytes b) len
    then (make_space len b >>= check_writable len)
    else check_writable len b

unfoldable pub has_written : ℕ → Buffer → Option Buffer
has_written len b =
    if leb len (writable_bytes b) then some (record b { writer = add_size b.writer len }) else none

unfoldable pub unwrite : ℕ → Buffer → Option Buffer
unwrite len b =
    if leb len (readable_bytes b) then some (record b { writer = sub_size b.writer len }) else none

unfoldable pub append : Bytes → Buffer → Option Buffer
append source b = do
  ready ← ensure_writable_bytes (length source) b
  has_written (length source) (record ready { buffer = copy_to ready.writer source ready.buffer })

unfoldable swap : Buffer → Buffer → Buffer × Buffer
swap b rhs = (rhs, b)
