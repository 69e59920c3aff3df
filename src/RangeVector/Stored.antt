-- ===== src/RangeVector/Stored.antt =====
-- load and save of xproxy-beta/cache/range_vector.h, with the 16 bytes of `data_`: an element in
-- place, or the magic number, the size and the address of the block. The address of a block is an
-- argument. A read behind the end throws and is `none`, like a failed X3ME_ENFORCE.
use cache_work.Prelude.{
  ℕ, zero, suc, ◌*◌, Bool, true, false, not, ◌&&◌, ltb, leb, ◌==◌, if◌then◌else◌, Option, some,
  ◌>>=◌, List, [], ◌∷◌, ◌++◌, length, take, drop,
}
use cache_work.Units.{u32}
use cache_work.Bytes.{le_bytes, of_le_bytes}
use cache_work.Bytes.Streams.{MemoryWriter, write, DiskReader, read_disk}
use cache_work.RangeElem.{RangeElem, elem_mark}
use cache_work.RangeElem.Stored.{range_elem_bytes, elem_of_bytes}
use cache_work.RangeVector.{RangeVector, single, heap, empty_data, max_ranges}

abbrev pub data_magic : ℕ
data_magic = 4276996862

abbrev pub data_bytes : ℕ
data_bytes = 16

-- The bytes of a block of elements.
unfoldable pub block_bytes : List RangeElem → List ℕ
block_bytes [] = []
block_bytes (x ∷ xs) = range_elem_bytes x ++ block_bytes xs

unfoldable pub elems_of_bytes : ℕ → List ℕ → List RangeElem
elems_of_bytes zero bs = []
elems_of_bytes (suc n) bs = elem_of_bytes (take 16 bs) ∷ elems_of_bytes n (drop 16 bs)

-- container_data
unfoldable pub container_bytes : (size ptr : ℕ) → List ℕ
container_bytes size ptr = le_bytes 4 data_magic ++ (le_bytes 4 size ++ le_bytes 8 ptr)

unfoldable pub save_vec : (ptr : RangeVector → ℕ) → RangeVector → MemoryWriter → Option MemoryWriter
save_vec ptr (single e) w = write (range_elem_bytes e) w
save_vec ptr (heap alloc xs) w =
    write (container_bytes (u32 (length xs)) (ptr (heap alloc xs))) w >>= write (block_bytes xs)

-- The answer, the vector, and what is left to read.
abbrev pub LoadedVec : Type 0
LoadedVec = Option (Bool × RangeVector × DiskReader)

unfoldable pub load_block : ℕ → DiskReader → LoadedVec
load_block size r =
    if not (ltb 1 size && leb size max_ranges)
    then some (false, empty_data, r)
    else read_disk (size * 16) r >>= λ a. some (true, heap size (elems_of_bytes size a.0), a.1)

unfoldable pub load_vec : DiskReader → LoadedVec
load_vec r = read_disk data_bytes r >>= λ a.
    if of_le_bytes (take 4 a.0) == data_magic
    then load_block (of_le_bytes (take 4 (drop 4 a.0))) a.1
    else if not (of_le_bytes (take 1 a.0) == elem_mark)
    then some (false, empty_data, a.1)
    else some (true, single (elem_of_bytes a.0), a.1)
