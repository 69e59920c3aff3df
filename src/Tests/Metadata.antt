-- ===== src/Tests/Metadata.antt =====
-- The theorems on the metadata of a volume, at the test data.
use cache_work.Prelude.{
  ◌+◌, ◌*◌, ◌<◌, ◌≡◌, ◌≢◌, ◌⊎◌, inl, inr, refl, Bool, true, false, ◌==◌, if◌then◌else◌, none, some,
  arith, ℕ,
}
use cache_work.Units.{agg_write_block_size}
use cache_work.FsTable.{find}
use cache_work.FsTable.Counters.{IsCounted}
use cache_work.FsMetadata.{
  FsMetadataHdr, is_current, FsMetadata, Copy, choose_copy, go_to_next_wr_pos, lock_needed,
  rem_table_entry,
}
use cache_work.FsMetadata.WritePos.{IsInside, go_to_next_wr_pos-IsInside, lock_needed-covers}
use cache_work.FsMetadata.Copies.{IsOurs, IsDisk, choose_copy-IsDisk, choose_copy_overflow}
use cache_work.FsMetadata.Removed.{RemAnswer, rem_table_entry-RemAnswer}
use cache_work.FsMetadata.{inc_sync_serial, hdr_inc_sync_serial, md_size_on_disk}
use cache_work.CacheFs.{
  DiskCopy, prepared, idle, Volume, md_copy, put_md_copy, start_sync, write_part, write_footer,
  on_sync_end, footer_offs, chosen, IsNoFooter, started, first_part, last_part, finished, Run, done,
  then_step,
}
use cache_work.CacheFs.Safe.{IsGood, IsSafe, Choice}
use cache_work.CacheFs.Sync.{Run-Choice, write_part-chosen}
use cache_work.Tests.Data.{elem_of, one_object, one_object-IsCounted}

abbrev hdr_of : ℕ → FsMetadataHdr
hdr_of n = record {
  magic = 82173157688003326;
  create_time = 100;
  uuid = 5;
  version_major = 0;
  version_minor = 3;
  sync_serial = n;
}

abbrev whole : ℕ → Copy
whole n = record { hdr = hdr_of n; ftr = hdr_of n }

abbrev md_at : (pos serial : ℕ) → FsMetadata
md_at pos serial = record {
  hdr = hdr_of serial;
  ops = record { write_pos = pos; write_lap = 0 };
  table = one_object;
  ftr = hdr_of serial;
  is_dirty = true;
}

ours : (n : ℕ) → IsOurs 5 (hdr_of n)
unfolding is_current
ours n = (refl, refl)

volume-IsDisk : IsDisk 5 4 (whole 4) (whole 3)
volume-IsDisk = record {
  ours_a = (ours 4, ours 4);
  ours_b = (ours 3, ours 3);
  fresh = inl (refl, (refl, refl), (omega arith, inr (refl, inl (omega arith))));
}

-- No footer, at any place of the copy.
abbrev blank : FsMetadataHdr
blank = record {
  magic = 0;
  create_time = 0;
  uuid = 0;
  version_major = 0;
  version_minor = 0;
  sync_serial = 0;
}

blank-not_current : is_current blank ≡ false
unfolding is_current
blank-not_current = refl

blank-IsNoFooter : (n : ℕ) → IsNoFooter (hdr_of n) blank
unfolding is_current
blank-IsNoFooter n (t, _, _) = cc t

abbrev copy_with : ℕ → DiskCopy
copy_with n = record {
  hdr = hdr_of n;
  ftr_offs = 8192;
  ftr_at = λ p. if p == 8192 then hdr_of n else blank;
}

-- Copy A holds serial number 4, copy B holds 3.
abbrev volume : Volume
volume = record { md = md_at 8192 4; copy_a = copy_with 4; copy_b = copy_with 3; saving = idle }

copy_with-IsGood : (n : ℕ) → IsGood 5 n (copy_with n)
copy_with-IsGood n = record { ours = (ours n, ours n); whole = (refl, refl) }

volume-IsSafe : IsSafe 5 4 volume
unfolding md_copy
volume-IsSafe = record {
  good = copy_with-IsGood 4;
  other = inl (3, copy_with-IsGood 3, inl (omega arith));
  ours = ours 4;
  width = omega arith;
  md_width = omega arith;
  phase = refl;
}

-- A save of serial number 5 to its end.
abbrev saved : Volume
saved = on_sync_end (
    write_footer (hdr_of 5) (footer_offs (md_at 8192 5))
      (write_part (hdr_of 5) (footer_offs (md_at 8192 5)) (λ p. blank) (start_sync volume)))

saved-Run : Run 4 volume (4 + 1) saved
unfolding start_sync inc_sync_serial hdr_inc_sync_serial write_part write_footer put_md_copy
    md_size_on_disk
saved-Run =
    then_step
      (then_step
        (then_step (then_step done (started refl (omega arith)))
          (first_part (λ p. blank) refl (λ p. blank-IsNoFooter 5)))
        (last_part refl))
      (finished refl)

Run-Choice_example : IsGood 5 (4 + 1) (md_copy (4 + 1) saved) × Choice 5 (4 + 1) saved
Run-Choice_example = Run-Choice 5 saved-Run volume-IsSafe

-- The same volume with the buffer of the save in front of its first write.
abbrev saving_volume : Volume
saving_volume = record {
  md = md_at 8192 5;
  copy_a = copy_with 4;
  copy_b = copy_with 3;
  saving = prepared (hdr_of 5) 12288;
}

saving_volume-IsSafe : IsSafe 5 4 saving_volume
unfolding md_copy
saving_volume-IsSafe = record {
  good = copy_with-IsGood 4;
  other = inl (3, copy_with-IsGood 3, inl (omega arith));
  ours = ours 5;
  width = omega arith;
  md_width = omega arith;
  phase = (refl, refl);
}

write_part-chosen_example :
    (chosen (write_part (hdr_of 5) 12288 (λ p. blank) saving_volume) ≡ none)
    × IsGood 5 4 (md_copy 4 (write_part (hdr_of 5) 12288 (λ p. blank) saving_volume))
write_part-chosen_example =
    write_part-chosen 5 (hdr_of 5) 12288 (λ p. blank) saving_volume-IsSafe refl blank-not_current

choose_copy-IsDisk_example : choose_copy (whole 4) (whole 3) ≡ some 0
choose_copy-IsDisk_example = choose_copy-IsDisk 5 4 (whole 4) (whole 3) volume-IsDisk

choose_copy_overflow_example : choose_copy (whole 0) (whole 4294967295) ≡ some 1
choose_copy_overflow_example =
    choose_copy_overflow 5 (whole 0) (whole 4294967295) (ours 0, ours 0)
      (ours 4294967295, ours 4294967295) (refl, refl) (refl, refl)

start-IsInside : IsInside 8192 20000000 8192
start-IsInside = record { behind_start = omega arith; before_end = omega arith }

lock_needed-covers_example : lock_needed 8192 20000000 8192 8200 ≡ true
lock_needed-covers_example =
    lock_needed-covers 8192 20000000 (omega arith) (omega arith) (md_at 8192 4) 8200 (omega arith)
      start-IsInside (inl (omega arith, omega arith))

go_to_next_wr_pos-IsInside_example :
    IsInside 8192 20000000 (go_to_next_wr_pos 8192 20000000 (md_at 8192 4)).ops.write_pos
    × (((go_to_next_wr_pos 8192 20000000 (md_at 8192 4)).ops
          ≡ record { write_pos = 8192 + agg_write_block_size; write_lap = 0 })
        ⊎ (((go_to_next_wr_pos 8192 20000000 (md_at 8192 4)).ops
              ≡ record { write_pos = 8192; write_lap = 0 + 1 })
            × (20000000 < 8192 + 2 * agg_write_block_size)))
go_to_next_wr_pos-IsInside_example =
    go_to_next_wr_pos-IsInside 8192 20000000 (omega arith) (omega arith) (md_at 8192 4)
      start-IsInside (omega arith)

rem_table_entry-RemAnswer_example :
    (b : Bool) × (m' : FsMetadata) × (rem_table_entry 7 (elem_of 0 10000) (md_at 8192 4)
      ≡ some (b, m'))
    × IsCounted m'.table
    × (m'.is_dirty ≡ true)
    × ((k : ℕ) → k ≢ 7 → find k m'.table.fs_nodes ≡ find k one_object.fs_nodes)
    × RemAnswer (elem_of 0 10000) b (find 7 one_object.fs_nodes) (find 7 m'.table.fs_nodes)
rem_table_entry-RemAnswer_example =
    rem_table_entry-RemAnswer 7 (elem_of 0 10000) (md_at 8192 4) one_object-IsCounted
