-- ===== src/AggWriter/VolumeOps.antt =====
-- The operations of xproxy-beta/cache/cache_fs_operations.cpp as the writer calls them: the state is
-- the metadata of the volume and the block in memory.
use cache_work.Prelude.{
  ℕ, ◌+◌, ◌*◌, ◌%◌, ◌≡◌, inl, inr, sym, subst, ap, ◌∙◌, Bool, true, not, ◌||◌, leb, ◌==◌,
  Bool-cases, Option, none, some, ◌>>=◌, >>=-eq-some, List, [], length, ==_iff, arith,
}
use cache_work.Units.{u64, to_bytes, volume_block_size, agg_write_block_size}
use cache_work.Range.{Range}
use cache_work.FsTable.{FsTable}
use cache_work.AggWriteMeta.{AggMetaEntry}
use cache_work.AggWriteBlock.{AggWriteBlock, begin_disk_write}
use cache_work.Transactions.{Transaction}
use cache_work.FsMetadata.{
  FsMetadata, go_to_next_wr_pos, inc_write_pos, wrap_write_pos, ops_inc_write_pos,
  ops_wrap_write_pos,
}
use cache_work.FsOperations.Writes.{
  fsmd_rem_non_evac_frags, evac_loop, fsmd_add_evac_fragment, fsmd_add_new_fragment,
}
use cache_work.FsOperations.Commit.{commit_loop, fsmd_commit_disk_write, fsmd_fin_flush_commit}
use cache_work.AggWriter.{FsOps, is_empty_list}
use cache_work.AggWriter.Ready.{AreEvacuable, IsFsOps}
use cache_work.AggWriter.Filtered.{area_offs, area_size, keep_in_area-AreEvacuable}

pub record VolumeState : Type 0 where
  pub md : FsMetadata
  pub awb : AggWriteBlock

abbrev pub state_of : FsMetadata × AggWriteBlock → VolumeState
state_of r = record { md = r.0; awb = r.1 }

module _ (adler32 : ℕ → List ℕ → ℕ) (adler32_init : ℕ) (data_offs end_data_offs : ℕ)
    (write_ok : Bool) where
  -- rem_table_entries makes the metadata dirty.
  unfoldable pub volume_rem_non_evac :
      List AggMetaEntry
      → (disk_offs area_size : ℕ) → VolumeState
      → Option (List AggMetaEntry × VolumeState)
  volume_rem_non_evac es disk_offs area_size s =
      fsmd_rem_non_evac_frags es disk_offs area_size s.md.table >>= λ r. some (
        r.0,
        record s {
          md = record s.md { table = r.1; is_dirty = not (is_empty_list es) || s.md.is_dirty };
        },
      )

  unfoldable pub volume_add_evac :
      (key : ℕ) → Range → List ℕ → (write_pos : ℕ) → VolumeState → Option VolumeState
  volume_add_evac key rng frag write_pos s =
      fsmd_add_evac_fragment adler32 adler32_init key rng frag write_pos s.md s.awb >>= λ r.
      some (state_of (r.1, r.2))

  unfoldable pub volume_add_new :
      (key : ℕ) → Range → List ℕ → (write_pos : ℕ) → VolumeState → Option (Bool × VolumeState)
  volume_add_new key rng frag write_pos s =
      fsmd_add_new_fragment adler32 adler32_init key rng frag write_pos s.md s.awb >>= λ r.
      some (r.0, state_of (r.1, r.2))

  unfoldable pub volume_begin_disk : VolumeState → Option (ℕ × VolumeState)
  volume_begin_disk s = begin_disk_write s.awb >>= λ b. some (length b.0, record s { awb = b.1 })

  unfoldable pub volume_commit :
      (write_pos : ℕ) → List Transaction → VolumeState → Option ((ℕ × ℕ) × VolumeState)
  volume_commit write_pos wtrans s =
      fsmd_commit_disk_write data_offs end_data_offs write_pos s.md s.awb >>= λ r.
      some ((r.0.ops.write_pos, r.0.ops.write_lap), state_of r)

  unfoldable pub volume_fin_flush :
      (write_pos : ℕ) → List Transaction → VolumeState → Option VolumeState
  volume_fin_flush write_pos wtrans s =
      fsmd_fin_flush_commit data_offs end_data_offs write_ok write_pos s.md s.awb >>= λ r.
      some (state_of (r.1, r.2))

  abbrev pub volume_ops : FsOps VolumeState
  volume_ops = record {
    rem_non_evac = volume_rem_non_evac;
    add_evac = volume_add_evac;
    add_new = volume_add_new;
    begin_disk = volume_begin_disk;
    commit = volume_commit;
    fin_flush = volume_fin_flush;
  }

  next_wr_pos_blocks :
      (md : FsMetadata)
      → data_offs % volume_block_size ≡ 0
      → md.ops.write_pos % volume_block_size ≡ 0
      → (go_to_next_wr_pos data_offs end_data_offs md).ops.write_pos % volume_block_size ≡ 0
  unfolding go_to_next_wr_pos inc_write_pos wrap_write_pos ops_inc_write_pos ops_wrap_write_pos
  next_wr_pos_blocks md d h =
      elim (Bool-cases (leb (u64 (md.ops.write_pos + 2 * agg_write_block_size)) end_data_offs)) [
        | inl t ↦ rw t (omega arith)
        | inr f ↦ rw f d
      ]

  -- A commit that returns was at the write position of the metadata, and moved it on.
  commit-next :
      (p : ℕ) (md : FsMetadata) (awb : AggWriteBlock) (c : FsMetadata × AggWriteBlock)
      → fsmd_commit_disk_write data_offs end_data_offs p md awb ≡ some c
      → (m : FsMetadata) × (to_bytes volume_block_size p ≡ m.ops.write_pos)
        × (go_to_next_wr_pos data_offs end_data_offs m ≡ c.0)
  unfolding fsmd_commit_disk_write
  commit-next p md awb c q =
      let (m, _, e) = >>=-eq-some (commit_loop _ _ md) _ q in
      elim (Bool-cases (to_bytes volume_block_size p == m.ops.write_pos)) [
        | inl t ↦ (m, (==_iff _ _).0 t, cc (rw t at e))
        | inr f ↦ absurd (cc (rw f at e))
      ]

  volume_commit-blocks :
      data_offs % volume_block_size ≡ 0
      → (p : ℕ) (ts : List Transaction) (s : VolumeState) (r : (ℕ × ℕ) × VolumeState)
      → volume_commit p ts s ≡ some r
      → (r.0.0 % volume_block_size == 0) ≡ true
  unfolding volume_commit to_bytes
  volume_commit-blocks d p ts s r e =
      let (c, q, e1) =
        >>=-eq-some (fsmd_commit_disk_write data_offs end_data_offs p s.md s.awb) _ e in
      let (m, here, next) = commit-next p s.md s.awb c q in
      let whole : m.ops.write_pos % volume_block_size ≡ 0 = omega (arith, here) in
      let moved : c.0.ops.write_pos % volume_block_size ≡ 0 =
        ap (λ z. z.ops.write_pos % volume_block_size) (sym next) ∙ next_wr_pos_blocks m d whole in
      let answer : c.0.ops.write_pos ≡ r.0.0 = ap (λ o. answer_pos o) e1 in
      (==_iff _ _).1 (ap (λ (n : ℕ). n % volume_block_size) (sym answer) ∙ moved)
    where
      answer_pos : Option ((ℕ × ℕ) × VolumeState) → ℕ
      answer_pos none = 0
      answer_pos (some x) = x.0.0

  volume_rem_non_evac-AreEvacuable :
      (p : ℕ) (es : List AggMetaEntry) (s : VolumeState) (r : List AggMetaEntry × VolumeState)
      → volume_rem_non_evac es (area_offs p) area_size s ≡ some r
      → AreEvacuable p r.0
  unfolding volume_rem_non_evac fsmd_rem_non_evac_frags
  volume_rem_non_evac-AreEvacuable p es s r e =
      let (x, q, e1) =
        >>=-eq-some (fsmd_rem_non_evac_frags es (area_offs p) area_size s.md.table) _ e in
      let (y, _, e2) = >>=-eq-some (evac_loop _ es s.md.table) _ q in
      let kept : x.0 ≡ r.0 = ap (λ o. answer_list o) e1 in
      subst (AreEvacuable p) (ap (λ o. found_list o) e2 ∙ kept) (keep_in_area-AreEvacuable p y.0)
    where
      answer_list : Option (List AggMetaEntry × VolumeState) → List AggMetaEntry
      answer_list none = []
      answer_list (some x) = x.0

      found_list : Option (List AggMetaEntry × FsTable) → List AggMetaEntry
      found_list none = []
      found_list (some x) = x.0

  -- What the writer relies on holds of these operations, on any volume whose data starts at a block.
  pub volume_ops-IsFsOps : data_offs % volume_block_size ≡ 0 → IsFsOps volume_ops
  volume_ops-IsFsOps d = record {
    blocks = volume_commit-blocks d;
    filtered = volume_rem_non_evac-AreEvacuable;
  }
