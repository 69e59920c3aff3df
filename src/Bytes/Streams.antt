-- ===== src/Bytes/Streams.antt =====
-- xproxy-beta/cache/memory_writer.h and xproxy-beta/cache/memory_reader.h: a position that moves
-- over a block. `none` is a failed X3ME_ENFORCE.
use cache_work.Prelude.{
  ℕ, ◌+◌, ◌-◌, ◌&&◌, ltb, leb, if◌then◌else◌, Option, some, none, List, length, take, drop,
}
use cache_work.Units.{in_range}
use cache_work.Bytes.{Memory, write_bytes, read_bytes}

pub record MemoryWriter : Type 0 where
  pub buf : Memory
  pub buf_offs : ℕ
  pub buf_size : ℕ

unfoldable pub make_memory_writer : Memory → (buf_size init_offset : ℕ) → Option MemoryWriter
make_memory_writer buf buf_size init_offset =
    if ltb init_offset buf_size
    then some (record { buf = buf; buf_offs = init_offset; buf_size = buf_size })
    else none

unfoldable pub set_writer_offset : ℕ → MemoryWriter → Option MemoryWriter
unfolding in_range
set_writer_offset offs w =
    if in_range offs w.buf_offs w.buf_size then some (record w { buf_offs = offs }) else none

unfoldable pub write : List ℕ → MemoryWriter → Option MemoryWriter
write bs w =
    if leb (length bs) w.buf_size && leb w.buf_offs (w.buf_size - length bs)
    then some
        (record w { buf = write_bytes w.buf_offs bs w.buf; buf_offs = w.buf_offs + length bs })
    else none

pub record MemoryReader : Type 0 where
  pub buf : Memory
  pub buf_offs : ℕ
  pub buf_size : ℕ

unfoldable pub make_memory_reader : Memory → (buf_size init_offset : ℕ) → Option MemoryReader
make_memory_reader buf buf_size init_offset =
    if ltb init_offset buf_size
    then some (record { buf = buf; buf_offs = init_offset; buf_size = buf_size })
    else none

unfoldable pub set_reader_offset : ℕ → MemoryReader → Option MemoryReader
unfolding in_range
set_reader_offset offs r =
    if in_range offs r.buf_offs r.buf_size then some (record r { buf_offs = offs }) else none

unfoldable pub read : ℕ → MemoryReader → Option (List ℕ × MemoryReader)
read len r =
    if leb len r.buf_size && leb r.buf_offs (r.buf_size - len)
    then some (read_bytes len r.buf_offs r.buf, record r { buf_offs = r.buf_offs + len })
    else none

-- xproxy-beta/cache/disk_reader.cpp: the bytes from the position on. A short read throws.
abbrev pub DiskReader : Type 0
DiskReader = List ℕ

unfoldable pub read_disk : ℕ → DiskReader → Option (List ℕ × DiskReader)
read_disk len r = if leb len (length r) then some (take len r, drop len r) else none
