-- ===== src/FsTable/Limits.antt =====
-- The sizes of an fs_table, and its two ways to be empty: make_fs_table and clean_init.
use cache_work.Prelude.{
  ℕ, ◌+◌, ◌*◌, ◌^◌, ◌<◌, ◌≡◌, ◌↔◌, refl, true, suc, zero, some, length, arith, [],
}
use cache_work.FsTable.{
  FsTable, node_bytes, elem_bytes, data_size, max_data_size, is_limit_reached, make_fs_table,
  clean_init,
}
use cache_work.FsTable.Nodes.{total}
use cache_work.FsTable.Counters.{IsCounted}

-- On a table with true counters, the limit is reported exactly where the data fills the allowed
-- size.
pub is_limit_reached_iff :
    (t : FsTable)
    → IsCounted t
    → (is_limit_reached t ≡ true)
      ↔ (length t.fs_nodes * node_bytes + t.cnt_ranges * elem_bytes ≡ t.max_allowed_data_size)
unfolding is_limit_reached data_size
is_limit_reached_iff t c =
    ((λ h. ground (arith, c.within, c.limit)), (λ h. ground (arith, c.within, c.limit)))

-- For a disk of less than 2 ^ 50 bytes and a positive object size, the constructor makes an
-- empty table with true counters.
pub make_fs_table-IsCounted :
    (disk_space min_obj : ℕ)
    → disk_space < 2 ^ 50
    → 0 < min_obj
    → (t : FsTable) × (make_fs_table disk_space min_obj ≡ some t) × IsCounted t × (t.fs_nodes ≡ [])
unfolding make_fs_table max_data_size total
make_fs_table-IsCounted disk_space zero h m = absurd (omega arith)
make_fs_table-IsCounted disk_space (suc n) h m = (
  _,
  refl,
  record {
    kept = tt;
    ranges = refl;
    entries = refl;
    data_bytes = refl;
    within = omega arith;
    limit = omega arith;
  },
  refl,
)

-- A table that counted entries does not have true counters after clean_init.
pub clean_init_stale : (t : FsTable) → 0 < t.cnt_entries → ¬ IsCounted (clean_init t)
unfolding clean_init total
clean_init_stale t h c = omega (arith, c.entries)
