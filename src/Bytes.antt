-- ===== src/Bytes.antt =====
-- Memory blocks and numbers as bytes: how the model writes memcpy and raw values. A block is the
-- function from an offset to its byte.
pub mod Laws
pub mod Streams
pub mod Writes
use cache_work.Prelude.{
  ℕ, zero, suc, ◌+◌, ◌-◌, ◌*◌, ◌/◌, ◌%◌, ◌^◌, ◌&&◌, ltb, leb, if◌then◌else◌, List, [], ◌∷◌, ◌++◌,
  length, get_or,
}

abbrev pub Memory : Type 0
Memory = ℕ → ℕ

-- `memcpy(p + pos, bs)`
unfoldable pub write_bytes : ℕ → List ℕ → Memory → Memory
write_bytes pos bs m p = if leb pos p && ltb p (pos + length bs) then get_or bs (p - pos) 0 else m p

-- The `n` bytes from `pos` on.
unfoldable pub read_bytes : (n pos : ℕ) → Memory → List ℕ
read_bytes zero pos m = []
read_bytes (suc n) pos m = m pos ∷ read_bytes n (pos + 1) m

-- A number of `n` bytes, the low one first, as x86 stores it.
unfoldable pub le_bytes : (n v : ℕ) → List ℕ
le_bytes zero v = []
le_bytes (suc n) v = v % 256 ∷ le_bytes n (v / 256)

unfoldable pub of_le_bytes : List ℕ → ℕ
of_le_bytes [] = 0
of_le_bytes (b ∷ bs) = b + 256 * of_le_bytes bs

-- A number of `n` bytes, the high one first: memcmp compares such bytes as numbers.
unfoldable pub be_bytes : (n v : ℕ) → List ℕ
be_bytes zero v = []
be_bytes (suc n) v = be_bytes n (v / 256) ++ (v % 256 ∷ [])

unfoldable pub of_be_bytes : ℕ → List ℕ → ℕ
of_be_bytes acc [] = acc
of_be_bytes acc (b ∷ bs) = of_be_bytes (acc * 256 + b) bs
