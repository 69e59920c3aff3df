-- ===== src/AggWriteMeta.antt =====
-- xproxy-beta/cache/agg_write_meta.cpp, agg_write_meta.h and agg_meta_entry.h: the metadata of one block
-- of the writer, a sorted vector of entries. A key is a number, as in the table.
pub mod Order
pub mod Stored
pub mod RoundTrip
pub mod Members
use cache_work.Prelude.{
  ℕ, zero, suc, ◌+◌, ◌-◌, ◌*◌, ◌/◌, Bool, true, false, ◌&&◌, ◌||◌, not, ltb, leb, ◌==◌,
  if◌then◌else◌, Option, none, some, List, [], ◌∷◌, length, get_or, insert_at, remove_slice,
}
use cache_work.Units.{ranges_overlap, agg_write_meta_size}
use cache_work.RangeElem.{RangeElem, rng_offset, rng_end_offset, make_zero_range_elem, same_elem}

pub record AggMetaEntry : Type 0 where
  pub rng : RangeElem
  pub key : ℕ

-- `operator<` and `operator==` of entries.
unfoldable pub entry_less : AggMetaEntry → AggMetaEntry → Bool
entry_less a b =
    ltb a.key b.key || (not (ltb b.key a.key) && ltb (rng_offset a.rng) (rng_offset b.rng))

unfoldable pub same_entry : AggMetaEntry → AggMetaEntry → Bool
same_entry a b = a.key == b.key && same_elem a.rng b.rng

-- sizeof(agg_meta_entry)
abbrev pub meta_entry_bytes : ℕ
meta_entry_bytes = 32

pub record AggWriteMeta : Type 0 where
  pub entries : List AggMetaEntry
  pub max_cnt_entries : ℕ

-- The constructor; `none` is a failed X3ME_ENFORCE.
unfoldable pub make_agg_write_meta : ℕ → Option AggWriteMeta
make_agg_write_meta meta_buff_size =
    if ltb (2 * meta_entry_bytes) meta_buff_size
    then some (record { entries = []; max_cnt_entries = meta_buff_size / meta_entry_bytes - 1 })
    else none

pub data AddMetaRes : Type 0 where
  ok : AddMetaRes
  overlaps : AddMetaRes
  no_space : AddMetaRes

-- The entry at a position that is in range.
abbrev pub entry_at : List AggMetaEntry → ℕ → AggMetaEntry
entry_at xs i = get_or xs i (record { rng = make_zero_range_elem; key = 0 })

-- std::lower_bound
unfoldable pub entry_bound : AggMetaEntry → List AggMetaEntry → ℕ
entry_bound e [] = 0
entry_bound e (x ∷ xs) = if entry_less x e then suc (entry_bound e xs) else 0

-- The lambda of add_entry.
unfoldable pub overlap : AggMetaEntry → AggMetaEntry → Bool
overlap a b =
    a.key == b.key
    && ltb 0 (
        ranges_overlap (rng_offset a.rng) (rng_end_offset a.rng) (rng_offset b.rng)
          (rng_end_offset b.rng))

unfoldable pub add_meta_at :
    AggMetaEntry → (it : ℕ) → List AggMetaEntry → AddMetaRes × List AggMetaEntry
add_meta_at e it xs =
    if it == 0
    then if length xs == 0 || not (overlap (entry_at xs 0) e)
      then (ok, insert_at 0 e xs)
      else (overlaps, xs)
    else if it == length xs
    then if not (overlap (entry_at xs (it - 1)) e) then (ok, insert_at it e xs) else (overlaps, xs)
    else if not (overlap (entry_at xs (it - 1)) e) && not (overlap (entry_at xs it) e)
    then (ok, insert_at it e xs)
    else (overlaps, xs)

unfoldable pub add_meta_entry : ℕ → RangeElem → AggWriteMeta → AddMetaRes × AggWriteMeta
add_meta_entry key rng m =
    let e : AggMetaEntry = record { rng = rng; key = key } in
    let r = add_meta_at e (entry_bound e m.entries) m.entries in
    if ltb (length m.entries) m.max_cnt_entries
    then (r.0, record m { entries = r.1 })
    else (no_space, m)

-- rem_entry, and the position of what follows.
unfoldable pub rem_meta_entry : ℕ → AggWriteMeta → ℕ × AggWriteMeta
rem_meta_entry it m = (it, record m { entries = remove_slice it (it + 1) m.entries })

unfoldable pub has_meta_entry : ℕ → RangeElem → AggWriteMeta → Bool
has_meta_entry key rng m =
    let e : AggMetaEntry = record { rng = rng; key = key } in
    let it : ℕ = entry_bound e m.entries in
    not (it == length m.entries) && same_entry (entry_at m.entries it) e

unfoldable pub release_entries : AggWriteMeta → List AggMetaEntry × AggWriteMeta
release_entries m = (m.entries, record m { entries = [] })
