-- ===== src/FsMetadata/RoundTrip.antt =====
-- save and load of fs_metadata: what was saved is loaded again.
use cache_work.Prelude.{
  ℕ, ◌+◌, ◌-◌, ◌≤◌, ◌<◌, ◌^◌, ◌≡◌, inl, refl, sym, ap, ◌∙◌, true, some, List, ◌++◌, length,
  length-append, drop-append, arith, leb,
}
use mathlib.Core.List.{append_assoc}
use cache_work.Units.{in_range, u64, sub64, store_block_size, round_to_store_block_size}
use cache_work.Units.Rounding.{in_range_iff, round_to_store_block_size_bounds}
use cache_work.Bytes.{Memory, write_bytes, read_bytes, le_bytes, of_le_bytes, be_bytes, of_be_bytes}
use cache_work.Bytes.Laws.{
  read_bytes_disjoint, read_bytes-write_bytes, read_bytes-append, of_le_bytes-le_bytes,
  of_be_bytes-be_bytes, length-read_bytes,
}
use cache_work.Bytes.Writes.{write-eq}
use cache_work.Bytes.Streams.{MemoryWriter, write, set_writer_offset}
use cache_work.RangeVector.{RangeVector}
use cache_work.RangeVector.RoundTrip.{read_disk-append}
use cache_work.FsTable.{FsTable, data_size, full_size, size_on_disk}
use cache_work.FsTable.Counters.{IsCounted}
use cache_work.FsTable.Stored.{save_table}
use cache_work.FsTable.RoundTrip.{
  AreStorable, reset_nodes, length-reset_nodes, table_bytes, length-table_bytes, save_table-write,
  load_table-table_bytes, eight_bytes,
}
use cache_work.FsMetadata.{FsMetadataHdr, FsOpsData, FsMetadata, md_size_on_disk}
use cache_work.FsMetadata.Stored.{
  md_hdr_bytes, md_hdr_of_bytes, ops_bytes, ops_of_bytes, fits_together, save_md, set_next_offset,
  checked_md, load_full_md,
}

-- The members are in the range of their types.
pub record IsWideHdr (h : FsMetadataHdr) : Type 0 where
  pub magic_wide : h.magic < 2 ^ 64
  pub time_wide : h.create_time < 2 ^ 64
  pub uuid_wide : h.uuid < 256 ^ 16
  pub major_wide : h.version_major < 2 ^ 16
  pub minor_wide : h.version_minor < 2 ^ 16
  pub serial_wide : h.sync_serial < 2 ^ 32

md_hdr_fields :
    (h : FsMetadataHdr)
    → md_hdr_of_bytes (md_hdr_bytes h) ≡ record {
      magic = of_le_bytes (le_bytes 8 h.magic);
      create_time = of_le_bytes (le_bytes 8 h.create_time);
      uuid = of_be_bytes 0 (be_bytes 16 h.uuid);
      version_major = of_le_bytes (le_bytes 2 h.version_major);
      version_minor = of_le_bytes (le_bytes 2 h.version_minor);
      sync_serial = of_le_bytes (le_bytes 4 h.sync_serial);
    }
unfolding md_hdr_of_bytes md_hdr_bytes le_bytes be_bytes
md_hdr_fields h = refl

md_hdr_of_bytes-md_hdr_bytes :
    (h : FsMetadataHdr) → IsWideHdr h → md_hdr_of_bytes (md_hdr_bytes h) ≡ h
md_hdr_of_bytes-md_hdr_bytes h w =
    md_hdr_fields h
    ∙ rw
        (
          eight_bytes h.magic w.magic_wide,
          eight_bytes h.create_time w.time_wide,
          of_be_bytes-be_bytes 16 h.uuid w.uuid_wide,
          of_le_bytes-le_bytes 2 h.version_major (omega (arith, w.major_wide)),
          of_le_bytes-le_bytes 2 h.version_minor (omega (arith, w.minor_wide)),
          of_le_bytes-le_bytes 4 h.sync_serial (omega (arith, w.serial_wide)),
        )
        refl

ops_fields :
    (o : FsOpsData)
    → ops_of_bytes (ops_bytes o) ≡ record {
      write_pos = of_le_bytes (le_bytes 8 o.write_pos);
      write_lap = of_le_bytes (le_bytes 8 o.write_lap);
    }
unfolding ops_of_bytes ops_bytes le_bytes
ops_fields o = refl

ops_of_bytes-ops_bytes :
    (o : FsOpsData) → o.write_pos < 2 ^ 64 → o.write_lap < 2 ^ 64 → ops_of_bytes (ops_bytes o) ≡ o
ops_of_bytes-ops_bytes o p l =
    ops_fields o ∙ rw (eight_bytes o.write_pos p, eight_bytes o.write_lap l) refl

length-md_hdr_bytes : (h : FsMetadataHdr) → length (md_hdr_bytes h) ≡ 40
unfolding md_hdr_bytes le_bytes be_bytes
length-md_hdr_bytes h = refl

length-ops_bytes : (o : FsOpsData) → length (ops_bytes o) ≡ 16
unfolding ops_bytes le_bytes
length-ops_bytes o = refl

-- The parts of a copy in the memory: the header, the operations, the table, and the footer.
module _ (hb ob tb fb : List ℕ) (pos : ℕ) (m : Memory) (lh : length hb ≡ 40) (lo : length ob ≡ 16)
    (lf : length fb ≡ 40) (behind : 56 + length tb ≤ pos) where
  copy_memory : Memory
  copy_memory = write_bytes pos fb (write_bytes 56 tb (write_bytes 40 ob (write_bytes 0 hb m)))

  head_there : read_bytes 40 0 copy_memory ≡ hb
  unfolding copy_memory
  head_there =
      read_bytes_disjoint 40 0 pos fb _ (inl (omega arith))
      ∙ read_bytes_disjoint 40 0 56 tb _ (inl (omega arith))
      ∙ read_bytes_disjoint 40 0 40 ob _ (inl (omega arith))
      ∙ ap (λ (n : ℕ). read_bytes n 0 (write_bytes 0 hb m)) (sym lh)
      ∙ read_bytes-write_bytes 0 hb m

  ops_there : read_bytes 16 40 copy_memory ≡ ob
  unfolding copy_memory
  ops_there =
      read_bytes_disjoint 16 40 pos fb _ (inl (omega arith))
      ∙ read_bytes_disjoint 16 40 56 tb _ (inl (omega arith))
      ∙ ap (λ (n : ℕ). read_bytes n 40 (write_bytes 40 ob (write_bytes 0 hb m))) (sym lo)
      ∙ read_bytes-write_bytes 40 ob _

  table_there : read_bytes (length tb) 56 copy_memory ≡ tb
  unfolding copy_memory
  table_there =
      read_bytes_disjoint (length tb) 56 pos fb _ (inl (omega arith))
      ∙ read_bytes-write_bytes 56 tb _

  foot_there : read_bytes 40 pos copy_memory ≡ fb
  unfolding copy_memory
  foot_there =
      let all : Memory = write_bytes 56 tb (write_bytes 40 ob (write_bytes 0 hb m)) in
      ap (λ (n : ℕ). read_bytes n pos (write_bytes pos fb all)) (sym lf)
      ∙ read_bytes-write_bytes pos fb all

  abbrev behind_table : List ℕ
  behind_table = read_bytes (pos + 4096 - (56 + length tb)) (56 + length tb) copy_memory

  copy_front : read_bytes (pos + 4096) 0 copy_memory ≡ hb ++ (ob ++ (tb ++ behind_table))
  copy_front =
      let rem : ℕ = pos + 4096 - (56 + length tb) in
      let n : pos + 4096 ≡ 40 + (16 + (length tb + rem)) = omega arith in
      ap (λ (k : ℕ). read_bytes k 0 copy_memory) n
      ∙ rw
          (
            read_bytes-append 40 (16 + (length tb + rem)) 0 copy_memory,
            read_bytes-append 16 (length tb + rem) 40 copy_memory,
            read_bytes-append (length tb) rem 56 copy_memory,
            head_there,
            ops_there,
            table_there,
          )
          refl

  copy_end :
      read_bytes (pos + 4096) 0 copy_memory
      ≡ read_bytes pos 0 copy_memory ++ (fb ++ read_bytes 4056 (pos + 40) copy_memory)
  copy_end =
      let z : 0 + pos ≡ pos = omega arith in
      rw
        (
          read_bytes-append pos 4096 0 copy_memory,
          z,
          read_bytes-append 40 4056 pos copy_memory,
          foot_there,
        )
        refl

round_footer : round_to_store_block_size 40 ≡ 4096
unfolding round_to_store_block_size
round_footer = refl

set_writer_offset-eq :
    (offs : ℕ) (w : MemoryWriter)
    → w.buf_offs ≤ offs
    → offs < w.buf_size
    → set_writer_offset offs w ≡ some (record w { buf_offs = offs })
unfolding set_writer_offset
set_writer_offset-eq offs w l h =
    let q : in_range offs w.buf_offs w.buf_size ≡ true = (in_range_iff _ _ _).1 (l, h) in rw q refl

seek : (xs ys : List ℕ) (n : ℕ) → length xs ≡ n → set_next_offset n (xs ++ ys) ≡ some ys
unfolding set_next_offset
seek xs ys n h =
    let l = length-append xs ys in
    let inside : leb n (length (xs ++ ys)) ≡ true = ground arith in
    rw (inside, drop-append n xs ys h) refl

-- The position of the footer in a copy.
abbrev footer_pos : FsTable → ℕ
footer_pos t = round_to_store_block_size (u64 (56 + size_on_disk t))

module _ (ptr : RangeVector → ℕ) (md : FsMetadata) (counted : IsCounted md.table) where
  abbrev tb : List ℕ
  tb = table_bytes ptr md.table

  sizes :
      (56 + length tb ≤ footer_pos md.table)
      × (footer_pos md.table < 2 ^ 62)
      × (md_size_on_disk md ≡ footer_pos md.table + 4096)
  unfolding md_size_on_disk size_on_disk full_size data_size
  sizes =
      let l : length tb ≡ size_on_disk md.table = length-table_bytes ptr md.table counted in
      let small : size_on_disk md.table < 2 ^ 61 = omega (arith, counted.within, counted.limit) in
      let q : u64 (56 + size_on_disk md.table) ≡ 56 + size_on_disk md.table = omega arith in
      let b = round_to_store_block_size_bounds (u64 (56 + size_on_disk md.table)) (omega arith) in
      (omega arith, omega arith, rw round_footer (omega arith))

  module _ (together : fits_together md.hdr md.ftr ≡ true) (m : Memory) (buf_size : ℕ)
      (room : md_size_on_disk md < buf_size) where
    abbrev saved : Memory
    saved =
        copy_memory (md_hdr_bytes md.hdr) (ops_bytes md.ops) tb (md_hdr_bytes md.ftr)
          (footer_pos md.table) m (length-md_hdr_bytes md.hdr) (length-ops_bytes md.ops)
          (length-md_hdr_bytes md.ftr) sizes.0

    save_md-saved :
        save_md ptr md (record { buf = m; buf_offs = 0; buf_size = buf_size })
        ≡ some (record { buf = saved; buf_offs = md_size_on_disk md; buf_size = buf_size })
    unfolding save_md copy_memory
    save_md-saved =
        let hb : List ℕ = md_hdr_bytes md.hdr in
        let ob : List ℕ = ops_bytes md.ops in
        let fb : List ℕ = md_hdr_bytes md.ftr in
        let lh : length hb ≡ 40 = length-md_hdr_bytes md.hdr in
        let lo : length ob ≡ 16 = length-ops_bytes md.ops in
        let lf : length fb ≡ 40 = length-md_hdr_bytes md.ftr in
        let (low, small, total) = sizes in
        let w0 : MemoryWriter = record { buf = m; buf_offs = 0; buf_size = buf_size } in
        let w1 : MemoryWriter = record {
          buf = write_bytes 0 hb m;
          buf_offs = 40;
          buf_size = buf_size;
        } in
        let w2 : MemoryWriter = record {
          buf = write_bytes 40 ob w1.buf;
          buf_offs = 56;
          buf_size = buf_size;
        } in
        let w3 : MemoryWriter = record {
          buf = write_bytes 56 tb w2.buf;
          buf_offs = 56 + length tb;
          buf_size = buf_size;
        } in
        let w4 : MemoryWriter = record w3 { buf_offs = footer_pos md.table } in
        let w5 : MemoryWriter = record w4 {
          buf = write_bytes (footer_pos md.table) fb w3.buf;
          buf_offs = footer_pos md.table + 40;
        } in
        let e1 : write hb w0 ≡ some w1 = write-eq hb w0 (omega arith) ∙ rw lh refl in
        let e2 : write ob w1 ≡ some w2 = write-eq ob w1 (omega arith) ∙ rw lo refl in
        let e3 : save_table ptr md.table w2 ≡ some w3 =
          save_table-write ptr md.table w2 counted (omega arith) ∙ write-eq tb w2 (omega arith) in
        let e4 : set_writer_offset (sub64 (md_size_on_disk md) store_block_size) w3 ≡ some w4 =
          let q : sub64 (md_size_on_disk md) store_block_size ≡ footer_pos md.table = omega arith in
          rw q (set_writer_offset-eq (footer_pos md.table) w3 low (omega arith)) in
        let e5 : write fb w4 ≡ some w5 = write-eq fb w4 (omega arith) ∙ rw lf refl in
        let e6 : set_writer_offset (md_size_on_disk md) w5
            ≡ some (record w5 { buf_offs = md_size_on_disk md }) =
          set_writer_offset-eq (md_size_on_disk md) w5 (omega arith) room in
        rw (together, e1, e2, e3, e4, e5, e6) refl

    -- What the load makes of the table: the members of its elements that are not stored are reset.
    abbrev loaded_table : FsTable → FsTable
    loaded_table t0 = record t0 {
      cnt_ranges = md.table.cnt_ranges;
      cnt_entries = md.table.cnt_entries;
      entries_data_size = md.table.entries_data_size;
      fs_nodes = reset_nodes md.table.fs_nodes;
    }

    loaded_table-size : (t0 : FsTable) → size_on_disk (loaded_table t0) ≡ size_on_disk md.table
    unfolding size_on_disk
    loaded_table-size t0 = rw (length-reset_nodes md.table.fs_nodes) refl

    abbrev loaded_md : FsMetadata → FsMetadata
    loaded_md md0 = record md0 {
      hdr = md.hdr;
      ops = md.ops;
      table = loaded_table md0.table;
      ftr = md.ftr;
    }

    checked_md-loaded : (md0 : FsMetadata) → checked_md md0 (loaded_md md0) ≡ (true, loaded_md md0)
    unfolding checked_md
    checked_md-loaded md0 = rw together refl

    load_full_md-saved :
        (pre rest : List ℕ) (md0 : FsMetadata)
        → AreStorable md.table.fs_nodes
        → IsWideHdr md.hdr
        → IsWideHdr md.ftr
        → md.ops.write_pos < 2 ^ 64
        → md.ops.write_lap < 2 ^ 64
        → data_size (length md.table.fs_nodes) md.table.cnt_ranges ≤ md0.table.max_allowed_data_size
        → length pre < 2 ^ 62
        → load_full_md (length pre) md0 (pre ++ (read_bytes (md_size_on_disk md) 0 saved ++ rest))
          ≡ some (true, loaded_md md0)
    unfolding load_full_md
    load_full_md-saved pre rest md0 storable wh wf wp wl allowed near =
        let hb : List ℕ = md_hdr_bytes md.hdr in
        let ob : List ℕ = ops_bytes md.ops in
        let fb : List ℕ = md_hdr_bytes md.ftr in
        let lh : length hb ≡ 40 = length-md_hdr_bytes md.hdr in
        let lo : length ob ≡ 16 = length-ops_bytes md.ops in
        let lf : length fb ≡ 40 = length-md_hdr_bytes md.ftr in
        let (low, small, total) = sizes in
        let pos : ℕ = footer_pos md.table in
        let copy : List ℕ = read_bytes (md_size_on_disk md) 0 saved in
        let area : List ℕ = pre ++ (copy ++ rest) in
        let x : List ℕ = behind_table hb ob tb fb pos m lh lo lf low in
        let p : List ℕ = read_bytes pos 0 saved in
        let y : List ℕ = read_bytes 4056 (pos + 40) saved in
        let front : copy ++ rest ≡ hb ++ (ob ++ (tb ++ (x ++ rest))) =
          ap (λ (n : ℕ). read_bytes n 0 saved ++ rest) total
          ∙ ap (λ c. c ++ rest) (copy_front hb ob tb fb pos m lh lo lf low)
          ∙ append_assoc hb (ob ++ (tb ++ x)) rest
          ∙ ap (λ c. hb ++ c) (append_assoc ob (tb ++ x) rest)
          ∙ ap (λ c. hb ++ (ob ++ c)) (append_assoc tb x rest) in
        let back : area ≡ (pre ++ p) ++ (fb ++ (y ++ rest)) =
          ap (λ (n : ℕ). pre ++ (read_bytes n 0 saved ++ rest)) total
          ∙ ap (λ c. pre ++ (c ++ rest)) (copy_end hb ob tb fb pos m lh lo lf low)
          ∙ ap (λ c. pre ++ c) (append_assoc p (fb ++ y) rest)
          ∙ ap (λ c. pre ++ (p ++ c)) (append_assoc fb y rest)
          ∙ sym (append_assoc pre p (fb ++ (y ++ rest))) in
        let lp : length (pre ++ p) ≡ length pre + pos =
          length-append pre p ∙ ap (λ (n : ℕ). length pre + n) (length-read_bytes pos 0 saved) in
        let s1 : set_next_offset (length pre) area ≡ some (hb ++ (ob ++ (tb ++ (x ++ rest)))) =
          seek pre (copy ++ rest) (length pre) refl ∙ ap some front in
        let r1 = read_disk-append 40 hb (ob ++ (tb ++ (x ++ rest))) lh in
        let r2 = read_disk-append 16 ob (tb ++ (x ++ rest)) lo in
        let t1 =
          load_table-table_bytes ptr md.table md0.table (x ++ rest) counted storable allowed in
        let q : u64 (length pre + footer_pos (loaded_table md0.table)) ≡ length pre + pos =
          ap (λ (n : ℕ). u64 (length pre + round_to_store_block_size (u64 (56 + n))))
            (loaded_table-size md0.table)
          ∙ omega arith in
        let s2 : set_next_offset (u64 (length pre + footer_pos (loaded_table md0.table))) area
            ≡ some (fb ++ (y ++ rest)) =
          ap (λ (n : ℕ). set_next_offset n area) q
          ∙ ap (set_next_offset (length pre + pos)) back
          ∙ seek (pre ++ p) (fb ++ (y ++ rest)) (length pre + pos) lp in
        let r3 = read_disk-append 40 fb (y ++ rest) lf in
        rw
          (
            s1,
            r1,
            r2,
            t1,
            s2,
            r3,
            md_hdr_of_bytes-md_hdr_bytes md.hdr wh,
            md_hdr_of_bytes-md_hdr_bytes md.ftr wf,
            ops_of_bytes-ops_bytes md.ops wp wl,
            checked_md-loaded md0,
          )
          refl

    -- Metadata with true counters, whose header and footer have the current version and one time
    -- of creation, is saved into a block that is larger than its size on the disk, and fills
    -- exactly this size; where the bytes lie anywhere in the area of the copies,
    -- load_full_metadata at their offset returns true with the header, the write position and
    -- lap, the counters, the nodes and the footer that were saved, with the temporary members of
    -- the elements reset. The members must be in the range of their types, the elements on the
    -- disk, and the table that loads must allow as much data.
    pub save_md-load_full_md :
        (pre rest : List ℕ) (md0 : FsMetadata)
        → AreStorable md.table.fs_nodes
        → IsWideHdr md.hdr
        → IsWideHdr md.ftr
        → md.ops.write_pos < 2 ^ 64
        → md.ops.write_lap < 2 ^ 64
        → data_size (length md.table.fs_nodes) md.table.cnt_ranges ≤ md0.table.max_allowed_data_size
        → length pre < 2 ^ 62
        → (w' : MemoryWriter) × (save_md ptr md
              (record { buf = m; buf_offs = 0; buf_size = buf_size })
            ≡ some w')
          × (w'.buf_offs ≡ md_size_on_disk md)
          × (load_full_md
                (length pre)
                md0
                (pre ++ (read_bytes (md_size_on_disk md) 0 w'.buf ++ rest))
              ≡ some (
                true,
                record md0 {
                  hdr = md.hdr;
                  ops = md.ops;
                  table = record md0.table {
                    cnt_ranges = md.table.cnt_ranges;
                    cnt_entries = md.table.cnt_entries;
                    entries_data_size = md.table.entries_data_size;
                    fs_nodes = reset_nodes md.table.fs_nodes;
                  };
                  ftr = md.ftr;
                },
              ))
    save_md-load_full_md pre rest md0 storable wh wf wp wl allowed near = (
      record { buf = saved; buf_offs = md_size_on_disk md; buf_size = buf_size },
      save_md-saved,
      refl,
      load_full_md-saved pre rest md0 storable wh wf wp wl allowed near,
    )
