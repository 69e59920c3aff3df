-- ===== src/FsOperations/FinalFlush.antt =====
-- fsmd_fin_flush_commit: the last write of a volume that is closed, on every branch.
use cache_work.Prelude.{
  Bool, ◌⊎◌, ℕ, ◌+◌, ◌*◌, ◌≤◌, ◌<◌, ◌^◌, ◌≡◌, inl, inr, refl, sym, subst, ap, true, false, leb, ltb,
  ◌&&◌, Bool-cases, Option, some, none, >>=-eq-some, List, [], length, arith,
}
use cache_work.Units.{
  u64, to_bytes, volume_block_size, agg_write_block_size, agg_write_meta_size, max_volume_size,
  round_to_store_block_size,
}
use cache_work.Bytes.{read_bytes}
use cache_work.Bytes.Laws.{length-read_bytes}
use cache_work.Bytes.Streams.{make_memory_writer}
use cache_work.FsTable.{find}
use cache_work.FsTable.Nodes.{IsKept}
use cache_work.FsMetadata.{FsMetadata, go_to_next_wr_pos}
use cache_work.AggWriteMeta.{meta_entry_bytes}
use cache_work.AggWriteMeta.Stored.{save}
use cache_work.AggWriteMeta.RoundTrip.{AreWide}
use cache_work.AggWriteBlock.{AggWriteBlock, max_blocks, meta_blocks, bytes_avail, begin_disk_write}
use cache_work.AggWriteBlock.Placed.{IsPlaced}
use cache_work.AggWriteBlock.Writing.{begin_disk_write-load}
use cache_work.FsOperations.Commit.{fin_written, fsmd_fin_flush_commit}
use cache_work.FsOperations.Marked.{IsSettled, fsmd_commit_disk_write-IsSettled}

-- begin_disk_write keeps the entries, and hands out at most a block.
begin_disk_write-keeps :
    (b b' : AggWriteBlock) (bytes : List ℕ)
    → begin_disk_write b ≡ some (bytes, b')
    → (b'.block_meta ≡ b.block_meta) × (length bytes ≤ agg_write_block_size)
unfolding begin_disk_write
begin_disk_write-keeps b b' bytes e =
    let sz : ℕ = round_to_store_block_size (to_bytes volume_block_size b.buff_pos) in
    let (w, q, e1) = >>=-eq-some (make_memory_writer b.block_data agg_write_meta_size 0) _ e in
    let (saved, p, e2) = >>=-eq-some (save b.block_meta w) _ e1 in
    elim (Bool-cases (leb sz agg_write_block_size)) [
      | inl t ↦
          let out : some (
            read_bytes sz 0 saved.buf,
            record b { block_data = saved.buf; pending_disk_write = true },
          )
              ≡ some (bytes, b') =
            rw t at e2 in
          let same : bytes ≡ read_bytes sz 0 saved.buf = cc (out) in
          let kept : record b { block_data = saved.buf; pending_disk_write = true } ≡ b' =
            cc (out) in
          (
            ap (λ z. z.block_meta) (sym kept),
            ground (arith, ap length same, length-read_bytes sz 0 saved.buf),
          )
      | inr f ↦ absurd (cc (rw f at e2))
    ]

module _ (data_offs end_data_offs disk_offset : ℕ) (md : FsMetadata) (awb : AggWriteBlock)
    (kept : IsKept md.table.fs_nodes)
    (here : to_bytes volume_block_size disk_offset ≡ md.ops.write_pos)
    (room : md.ops.write_pos + agg_write_block_size ≤ end_data_offs)
    (small : end_data_offs < 2 ^ 64) (placed : IsPlaced disk_offset awb)
    (inside : (disk_offset + max_blocks) * volume_block_size ≤ max_volume_size)
    (wide : AreWide awb.block_meta.entries)
    (few : 20 + length awb.block_meta.entries * meta_entry_bytes ≤ agg_write_meta_size)
    (limit : length awb.block_meta.entries ≤ awb.block_meta.max_cnt_entries) where
  -- The metadata and the block after a write that succeeded.
  abbrev pub Committed : FsMetadata → AggWriteBlock → Type 0
  Committed md' awb' =
      (md'.ops ≡ (go_to_next_wr_pos data_offs end_data_offs md).ops)
      × (awb'.block_meta.entries ≡ [])
      × (awb'.buff_pos ≡ meta_blocks)
      × (awb'.pending_disk_write ≡ false)
      × ((key : ℕ)
          → IsSettled key awb.block_meta.entries (find key md.table.fs_nodes)
              (find key md'.table.fs_nodes))

  abbrev flush : Bool → Option (Option (ℕ × List ℕ) × FsMetadata × AggWriteBlock)
  flush write_ok = fsmd_fin_flush_commit data_offs end_data_offs write_ok disk_offset md awb

  fits_volume :
      (bytes : List ℕ)
      → length bytes ≤ agg_write_block_size
      → (leb (u64 (md.ops.write_pos + agg_write_block_size)) end_data_offs
          && leb (length bytes) agg_write_block_size)
        ≡ true
  fits_volume bytes h =
      let q : u64 (md.ops.write_pos + agg_write_block_size)
          ≡ md.ops.write_pos + agg_write_block_size =
        omega arith in
      rw q (ground arith)

  -- With a block that is placed at the write position, whose entries are in the range of their
  -- types and fit into the space of the metadata, with valid vectors in the table and room on
  -- the volume, fsmd_fin_flush_commit does not abort: where the block has no bytes nothing is
  -- written or changed; otherwise the bytes that begin_disk_write gives go to the write
  -- position, and where this write succeeds the entries of the block are committed, and where it
  -- fails the metadata is as before and the block still holds its entries.
  pub fsmd_fin_flush_commit-Committed :
      ((bytes_avail awb ≡ 0)
        × (flush true ≡ some (none, md, awb))
        × (flush false ≡ some (none, md, awb)))
      ⊎ ((0 < bytes_avail awb)
          × (bytes : List ℕ) × (b' : AggWriteBlock) × (md' : FsMetadata) × (awb' : AggWriteBlock)
          × (begin_disk_write awb ≡ some (bytes, b'))
          × (b'.block_meta ≡ awb.block_meta)
          × (flush true ≡ some (some (md.ops.write_pos, bytes), md', awb'))
          × (flush false ≡ some (some (md.ops.write_pos, bytes), md, b'))
          × Committed md' awb')
  unfolding fsmd_fin_flush_commit fin_written
  fsmd_fin_flush_commit-Committed = elim (Bool-cases (ltb 0 (bytes_avail awb))) [
    | inr f ↦ inl (ground arith, rw f refl, rw f refl)
    | inl t ↦
        let (bytes, b', q, busy, back, reads) =
          begin_disk_write-load disk_offset awb awb.block_meta placed inside wide few limit in
        let (same, le) = begin_disk_write-keeps awb b' bytes q in
        let (md', awb', c, ops, empty, start, ready, settled) =
          fsmd_commit_disk_write-IsSettled data_offs end_data_offs disk_offset md b' kept here in
        inr (
          ground arith,
          bytes,
          b',
          md',
          awb',
          q,
          same,
          rw (t, q, fits_volume bytes le, c) refl,
          rw (t, q, fits_volume bytes le) refl,
          (
            ops,
            empty,
            start,
            ready,
            λ key.
                subst
                  (λ m.
                    IsSettled key m.entries (find key md.table.fs_nodes)
                      (find key md'.table.fs_nodes))
                  same (settled key),
          ),
        )
  ]
