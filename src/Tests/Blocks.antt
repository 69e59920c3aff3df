-- ===== src/Tests/Blocks.antt =====
-- The theorem on agg_write_meta, at the test data.
use cache_work.Prelude.{ℕ, zero, suc, ◌<◌, inr, refl, List, [], ◌∷◌, arith}
use cache_work.RangeElem.{rng_offset, rng_end_offset, rng_size}
use cache_work.AggWriteMeta.{AggMetaEntry, AggWriteMeta, entry_at, add_meta_entry}
use cache_work.AggWriteMeta.Order.{Before, IsApart, AddMetaOutcome, add_meta_entry-AddMetaOutcome}
use cache_work.Tests.Data.{elem_of, hole_elem, hole_elem-nonempty}

-- Two fragments of the object with key 7, and space for 127 entries.
abbrev two_entries : List AggMetaEntry
two_entries =
    record { rng = elem_of 0 10000; key = 7 } ∷ record { rng = elem_of 20000 10000; key = 7 } ∷ []

abbrev block_meta : AggWriteMeta
block_meta = record { entries = two_entries; max_cnt_entries = 127 }

nonempty_entries :
    (i : ℕ)
    → i < 2
    → rng_offset (entry_at two_entries i).rng < rng_end_offset (entry_at two_entries i).rng
unfolding rng_offset rng_end_offset rng_size
nonempty_entries zero h = omega arith
nonempty_entries (suc zero) h = omega arith
nonempty_entries (suc (suc i)) h = absurd (omega arith)

ordered_entries :
    (i j : ℕ) → i < j → j < 2 → Before (entry_at two_entries i) (entry_at two_entries j)
unfolding rng_offset rng_end_offset rng_size
ordered_entries zero zero h k = absurd (omega arith)
ordered_entries zero (suc zero) h k = inr (refl, omega arith)
ordered_entries zero (suc (suc j)) h k = absurd (omega arith)
ordered_entries (suc i) zero h k = absurd (omega arith)
ordered_entries (suc i) (suc zero) h k = absurd (omega arith)
ordered_entries (suc i) (suc (suc j)) h k = absurd (omega arith)

two_entries-IsApart : IsApart two_entries
two_entries-IsApart = record { nonempty = nonempty_entries; ordered = ordered_entries }

add_meta_entry-AddMetaOutcome_example :
    AddMetaOutcome 7 hole_elem block_meta
      (add_meta_entry 7 hole_elem block_meta).0
      (add_meta_entry 7 hole_elem block_meta).1
add_meta_entry-AddMetaOutcome_example =
    add_meta_entry-AddMetaOutcome 7 hole_elem block_meta hole_elem-nonempty two_entries-IsApart
