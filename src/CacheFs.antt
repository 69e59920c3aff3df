-- ===== src/CacheFs.antt =====
-- How xproxy-beta/cache/cache_fs.cpp saves the metadata of a volume (async_sync_metadata and
-- sync_metadata), how task_md_sync.cpp writes it in parts, and what a load finds after a crash. The
-- place of the footer in a copy follows from the size of the table that its header has, so the first
-- part of a save of another size moves the place where a load looks for the footer.
pub mod Safe
pub mod Sync
use cache_work.Prelude.{
  ℕ, ◌+◌, ◌%◌, ◌<◌, ◌^◌, ◌≡◌, Bool, true, false, ◌==◌, if◌then◌else◌, Option, some,
}
use cache_work.Units.{sub64, store_block_size}
use cache_work.FsMetadata.{
  FsMetadataHdr, is_current, FsMetadata, Copy, inc_sync_serial, dec_sync_serial, md_size_on_disk,
  choose_copy,
}

-- A copy on the disk: its header, the offset of the footer that the table size behind the header
-- gives, and what a load would read as a footer at each offset.
pub record DiskCopy : Type 0 where
  pub hdr : FsMetadataHdr
  pub ftr_offs : ℕ
  pub ftr_at : ℕ → FsMetadataHdr

-- What load_check_metadata_hdr_ftr reads of it.
abbrev pub seen : DiskCopy → Copy
seen c = record { hdr = c.hdr; ftr = c.ftr_at c.ftr_offs }

-- A save: what is in its buffer, and how much of it was written.
pub data Saving : Type 0 where
  idle : Saving
  prepared : FsMetadataHdr → (offs : ℕ) → Saving
  part_written : FsMetadataHdr → (offs : ℕ) → Saving
  all_written : Saving

pub record Volume : Type 0 where
  pub md : FsMetadata
  pub copy_a : DiskCopy
  pub copy_b : DiskCopy
  pub saving : Saving

-- The copy with index `sync_serial & 1`.
unfoldable pub md_copy : (sync_serial : ℕ) → Volume → DiskCopy
md_copy n v = if n % 2 == 0 then v.copy_a else v.copy_b

unfoldable pub put_md_copy : (sync_serial : ℕ) → DiskCopy → Volume → Volume
put_md_copy n c v = record v {
  copy_a = if n % 2 == 0 then c else v.copy_a;
  copy_b = if n % 2 == 0 then v.copy_b else c;
}

-- The offset of the footer that save writes.
abbrev pub footer_offs : FsMetadata → ℕ
footer_offs md = sub64 (md_size_on_disk md) store_block_size

-- The start of a save: the serial number goes up, and the metadata is copied into the buffer.
unfoldable pub start_sync : Volume → Volume
start_sync v =
    let md = inc_sync_serial (record v.md { is_dirty = false }) in
    record v { md = md; saving = prepared md.hdr (footer_offs md) }

unfoldable pub async_sync_metadata : Volume → Volume
async_sync_metadata v = if v.md.is_dirty then start_sync v else v

-- A part of the buffer that does not hold the footer; `bytes` is what the copy has now at each offset
-- of a footer.
unfoldable pub write_part :
    FsMetadataHdr → (offs : ℕ) → (bytes : ℕ → FsMetadataHdr) → Volume → Volume
write_part hdr offs bytes v =
    put_md_copy hdr.sync_serial (record { hdr = hdr; ftr_offs = offs; ftr_at = bytes })
      (record v { saving = part_written hdr offs })

-- The part with the footer, which is equal to the header.
unfoldable pub write_footer : FsMetadataHdr → (offs : ℕ) → Volume → Volume
write_footer hdr offs v =
    let c = md_copy hdr.sync_serial v in
    put_md_copy hdr.sync_serial (record c { ftr_at = λ p. if p == offs then hdr else c.ftr_at p })
      (record v { saving = all_written })

-- The callback of the write task, where it succeeded, and where it failed.
unfoldable pub on_sync_end : Volume → Volume
on_sync_end v = record v { saving = idle }

unfoldable pub on_sync_failed : Volume → Volume
on_sync_failed v = record v { md = dec_sync_serial v.md; saving = idle }

-- The load after a crash, with the metadata that load_full_metadata makes of the chosen copy.
unfoldable pub load_volume : FsMetadata → Volume → Volume
load_volume md v = record v { md = md; saving = idle }

-- The choice of a load.
abbrev pub chosen : Volume → Option ℕ
chosen v = choose_copy (seen v.copy_a) (seen v.copy_b)

-- The footer of a save is not there: neither bytes of a table nor a footer of an older save look like
-- it.
abbrev pub IsNoFooter : FsMetadataHdr → FsMetadataHdr → Type 0
IsNoFooter hdr f =
    ¬ ((is_current f ≡ true) × (f.uuid ≡ hdr.uuid) × (f.sync_serial ≡ hdr.sync_serial))

-- The steps of a volume, with the serial number that was last written as a whole, before and after.
pub data Step : ℕ → Volume → ℕ → Volume → Type 0 where
  -- Operations on the table or on the write position leave the header and the footer.
  changed :
      {n : ℕ} {v : Volume} (md : FsMetadata)
      → md.hdr ≡ v.md.hdr
      → md.ftr ≡ v.md.ftr
      → Step n v n (record v { md = md })
  -- A save starts where none is in progress, and below the largest serial number: by
  -- async_sync_metadata, or by sync_metadata, which does not ask whether the metadata is dirty.
  asked :
      {n : ℕ} {v : Volume}
      → v.saving ≡ idle
      → v.md.hdr.sync_serial + 1 < 2 ^ 32
      → Step n v n (async_sync_metadata v)
  started :
      {n : ℕ} {v : Volume}
      → v.saving ≡ idle
      → v.md.hdr.sync_serial + 1 < 2 ^ 32
      → Step n v n (start_sync v)
  first_part :
      {n : ℕ} {v : Volume} {hdr : FsMetadataHdr} {offs : ℕ} (bytes : ℕ → FsMetadataHdr)
      → v.saving ≡ prepared hdr offs
      → ((p : ℕ) → IsNoFooter hdr (bytes p))
      → Step n v n (write_part hdr offs bytes v)
  next_part :
      {n : ℕ} {v : Volume} {hdr : FsMetadataHdr} {offs : ℕ} (bytes : ℕ → FsMetadataHdr)
      → v.saving ≡ part_written hdr offs
      → ((p : ℕ) → IsNoFooter hdr (bytes p))
      → Step n v n (write_part hdr offs bytes v)
  last_part :
      {n : ℕ} {v : Volume} {hdr : FsMetadataHdr} {offs : ℕ}
      → v.saving ≡ part_written hdr offs
      → Step n v (n + 1) (write_footer hdr offs v)
  finished : {n : ℕ} {v : Volume} → v.saving ≡ all_written → Step n v n (on_sync_end v)
  -- A write fails, or the save is stopped, before any part was written, or before the footer was.
  failed_first :
      {n : ℕ} {v : Volume} {hdr : FsMetadataHdr} {offs : ℕ}
      → v.saving ≡ prepared hdr offs
      → Step n v n (on_sync_failed v)
  failed :
      {n : ℕ} {v : Volume} {hdr : FsMetadataHdr} {offs : ℕ}
      → v.saving ≡ part_written hdr offs
      → Step n v n (on_sync_failed v)
  -- A crash at any time, and the next start, where it finds a copy.
  crashed :
      {n : ℕ} {v : Volume} {k : ℕ} (md : FsMetadata)
      → chosen v ≡ some k
      → md.hdr ≡ (md_copy k v).hdr
      → md.ftr ≡ (seen (md_copy k v)).ftr
      → Step n v n (load_volume md v)

pub data Run : ℕ → Volume → ℕ → Volume → Type 0 where
  done : {n : ℕ} {v : Volume} → Run n v n v
  then_step : {n m k : ℕ} {u v w : Volume} → Run n u m v → Step m v k w → Run n u k w
