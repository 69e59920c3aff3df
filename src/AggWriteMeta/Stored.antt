-- ===== src/AggWriteMeta/Stored.antt =====
-- The metadata of a block on the disk: load and save of xproxy-beta/cache/agg_write_meta.cpp.
use cache_work.Prelude.{
  ℕ, zero, suc, ◌*◌, Bool, true, false, ◌&&◌, not, ltb, ◌==◌, if◌then◌else◌, Option, some, ◌>>=◌,
  List, [], ◌∷◌, ◌++◌, length, take, drop,
}
use cache_work.Units.{u32}
use cache_work.Bytes.{le_bytes, of_le_bytes, be_bytes, of_be_bytes}
use cache_work.Bytes.Streams.{MemoryReader, read, MemoryWriter, write}
use cache_work.RangeElem.Stored.{range_elem_bytes, elem_of_bytes}
use cache_work.AggWriteMeta.{AggMetaEntry, AggWriteMeta, meta_entry_bytes, entry_less}

abbrev pub hdr_ftr_magic : ℕ
hdr_ftr_magic = 16045690848455416557

-- The members of agg_meta_entry in their order.
unfoldable pub entry_bytes : AggMetaEntry → List ℕ
entry_bytes e = range_elem_bytes e.rng ++ be_bytes 16 e.key

unfoldable pub entry_of_bytes : List ℕ → AggMetaEntry
entry_of_bytes bs = record {
  rng = elem_of_bytes (take 16 bs);
  key = of_be_bytes 0 (take 16 (drop 16 bs));
}

-- `entries_.data()`
unfoldable pub entries_bytes : List AggMetaEntry → List ℕ
entries_bytes [] = []
entries_bytes (e ∷ xs) = entry_bytes e ++ entries_bytes xs

unfoldable pub entries_of_bytes : ℕ → List ℕ → List AggMetaEntry
entries_of_bytes zero bs = []
entries_of_bytes (suc n) bs =
    entry_of_bytes (take meta_entry_bytes bs) ∷ entries_of_bytes n (drop meta_entry_bytes bs)

-- std::is_sorted
unfoldable pub is_sorted : List AggMetaEntry → Bool
is_sorted [] = true
is_sorted (x ∷ []) = true
is_sorted (x ∷ (y ∷ xs)) = not (entry_less y x) && is_sorted (y ∷ xs)

unfoldable pub save : AggWriteMeta → MemoryWriter → Option MemoryWriter
save m w = do
  hdr ← write (le_bytes 8 hdr_ftr_magic) w
  cnt ← write (le_bytes 4 (u32 (length m.entries))) hdr
  body ← write (entries_bytes m.entries) cnt
  write (le_bytes 8 hdr_ftr_magic) body

-- The answer of load, and what is left of the buffer.
abbrev pub LoadRes : Type 0
LoadRes = Option (Bool × AggWriteMeta)

unfoldable pub load_footer : List AggMetaEntry → AggWriteMeta → MemoryReader → LoadRes
load_footer xs m r = do
  (magic, rest) ← read 8 r
  if of_le_bytes magic == hdr_ftr_magic
      then some (true, record m { entries = xs })
      else some (false, m)

unfoldable pub load_entries : ℕ → AggWriteMeta → MemoryReader → LoadRes
load_entries cnt_entries m r = do
  (bytes, rest) ← read (cnt_entries * meta_entry_bytes) r
  if is_sorted (entries_of_bytes cnt_entries bytes)
      then load_footer (entries_of_bytes cnt_entries bytes) m rest
      else some (false, m)

unfoldable pub load_count : AggWriteMeta → MemoryReader → LoadRes
load_count m r = do
  (bytes, rest) ← read 4 r
  if ltb m.max_cnt_entries (of_le_bytes bytes)
      then some (false, m)
      else load_entries (of_le_bytes bytes) m rest

unfoldable pub load : AggWriteMeta → MemoryReader → LoadRes
load m r = do
  (magic, rest) ← read 8 r
  if of_le_bytes magic == hdr_ftr_magic then load_count m rest else some (false, m)
