-- ===== src/Tests/Tables.antt =====
-- The theorems on fs_tables, at the test data.
use cache_work.Prelude.{◌≡◌, true, some, Option, arith, ℕ}
use cache_work.FsTable.{FsTable, AddRes, add_entry, rem_entries, clean_init}
use cache_work.FsTable.Counters.{IsCounted}
use cache_work.FsTable.Adding.{AddOutcome, add_entry-AddOutcome}
use cache_work.FsTable.Removing.{RemOutcome, rem_entries-RemOutcome}
use cache_work.FsTable.Limits.{clean_init_stale}
use cache_work.FsMetadata.{rem_exact}
use cache_work.FsMetadata.Table.{rem_exact-IsRemover}
use cache_work.Tests.Data.{
  elem_of, hole_elem, hole_elem-IsSound, hole_elem-fits, one_object, one_object-IsCounted,
}

add_entry-AddOutcome_example :
    (r : AddRes) × (t' : FsTable) × (add_entry 7 hole_elem (λ xs e. true) one_object ≡ some (r, t'))
    × AddOutcome 7 hole_elem one_object r t'
add_entry-AddOutcome_example =
    add_entry-AddOutcome 7 hole_elem hole_elem-IsSound hole_elem-fits one_object
      one_object-IsCounted (λ xs e. true)

rem_entries-RemOutcome_example :
    (r : Option ℕ) × (t' : FsTable) × (rem_entries 7 (rem_exact (elem_of 0 10000)) one_object
      ≡ some (r, t'))
    × RemOutcome 7 (rem_exact (elem_of 0 10000)) one_object r t'
rem_entries-RemOutcome_example =
    rem_entries-RemOutcome 7 (rem_exact (elem_of 0 10000)) (rem_exact-IsRemover (elem_of 0 10000))
      one_object one_object-IsCounted

clean_init_stale_example : ¬ IsCounted (clean_init one_object)
clean_init_stale_example = clean_init_stale one_object (omega arith)
