-- ===== src/FsMetadata/WritePos.antt =====
-- The write position: it stays inside the data area with room for a block, and the readers lock
-- whatever the writer may write next.
use cache_work.Prelude.{
  ℕ, ◌+◌, ◌*◌, ◌%◌, ◌-◌, ◌^◌, ◌≤◌, ◌<◌, ◌≡◌, ◌⊎◌, inl, inr, refl, ◌∙◌, true, leb, Bool-cases, arith,
}
use native.Mathlib.Nat.{le_refl}
use native.Mathlib.Nat.{mod-eq-sub-mod, mod-eq_of_lt}
use cache_work.Units.{u64, in_range, agg_write_block_size}
use cache_work.FsMetadata.{
  FsMetadata, ops_inc_write_pos, ops_wrap_write_pos, inc_write_pos, wrap_write_pos,
  go_to_next_wr_pos, lock_needed,
}

-- A whole write block fits between the position and the end of the data area.
pub record IsInside (data_offs end_data_offs pos : ℕ) : Type 0 where
  pub behind_start : data_offs ≤ pos
  pub before_end : pos + agg_write_block_size ≤ end_data_offs

module _ (data_offs end_data_offs : ℕ) (room : data_offs + agg_write_block_size ≤ end_data_offs)
    (small : end_data_offs < 2 ^ 60) where
  -- From a position with room for a block, the next position has room for one too, and it is the
  -- next block, or the start of the area with a new lap, and then no further block fitted.
  pub go_to_next_wr_pos-IsInside :
      (md : FsMetadata)
      → IsInside data_offs end_data_offs md.ops.write_pos
      → md.ops.write_lap + 1 < 2 ^ 64
      → IsInside data_offs end_data_offs
          (go_to_next_wr_pos data_offs end_data_offs md).ops.write_pos
        × (((go_to_next_wr_pos data_offs end_data_offs md).ops ≡ record {
          write_pos = md.ops.write_pos + agg_write_block_size;
          write_lap = md.ops.write_lap;
        })
            ⊎ (((go_to_next_wr_pos data_offs end_data_offs md).ops
                  ≡ record { write_pos = data_offs; write_lap = md.ops.write_lap + 1 })
                × (end_data_offs < md.ops.write_pos + 2 * agg_write_block_size)))
  unfolding go_to_next_wr_pos inc_write_pos wrap_write_pos ops_inc_write_pos ops_wrap_write_pos
  go_to_next_wr_pos-IsInside md h lap =
      elim (Bool-cases (leb (u64 (md.ops.write_pos + 2 * agg_write_block_size)) end_data_offs)) [
        | inl t ↦
            let p : u64 (md.ops.write_pos + agg_write_block_size)
                ≡ md.ops.write_pos + agg_write_block_size =
              omega (arith, h.before_end) in
            rw (t, p)
              (
                record {
                  behind_start = omega (arith, h.behind_start);
                  before_end = ground (arith, h.before_end);
                },
                inl refl,
              )
        | inr n ↦
            let l : u64 (md.ops.write_lap + 1) ≡ md.ops.write_lap + 1 = omega arith in
            rw (n, l)
              (
                record { behind_start = le_refl _; before_end = room },
                inr (refl, ground (arith, h.before_end)),
              )
      ]

  -- Where the two blocks lie.
  two_blocks :
      (md : FsMetadata) (offset : ℕ)
      → IsInside data_offs end_data_offs md.ops.write_pos
      → ((go_to_next_wr_pos data_offs end_data_offs md).ops.write_pos ≤ offset)
        × (offset
            < (go_to_next_wr_pos data_offs end_data_offs md).ops.write_pos + agg_write_block_size)
      → ((md.ops.write_pos + 2 * agg_write_block_size ≤ end_data_offs)
          × (md.ops.write_pos + agg_write_block_size ≤ offset)
          × (offset < md.ops.write_pos + 2 * agg_write_block_size))
        ⊎ ((end_data_offs < md.ops.write_pos + 2 * agg_write_block_size)
            × (data_offs ≤ offset)
            × (offset < data_offs + agg_write_block_size))
  unfolding go_to_next_wr_pos inc_write_pos wrap_write_pos ops_inc_write_pos ops_wrap_write_pos
  two_blocks md offset h b =
      elim (Bool-cases (leb (u64 (md.ops.write_pos + 2 * agg_write_block_size)) end_data_offs)) [
        | inl t ↦
            let p : u64 (md.ops.write_pos + agg_write_block_size)
                ≡ md.ops.write_pos + agg_write_block_size =
              omega (arith, h.before_end) in
            let c = rw (t, p) at b in inl (ground (arith, h.before_end), c.0, omega (arith, c.1))
        | inr n ↦ let c = rw n at b in inr (ground (arith, h.before_end), c.0, c.1)
      ]

  lock_of :
      (wpos offset : ℕ)
      → data_offs + 3 * agg_write_block_size ≤ end_data_offs
      → IsInside data_offs end_data_offs wpos
      → ((wpos ≤ offset) × (offset < wpos + agg_write_block_size))
        ⊎ ((wpos + 2 * agg_write_block_size ≤ end_data_offs)
            × (wpos + agg_write_block_size ≤ offset)
            × (offset < wpos + 2 * agg_write_block_size))
        ⊎ ((end_data_offs < wpos + 2 * agg_write_block_size)
            × (data_offs ≤ offset)
            × (offset < data_offs + agg_write_block_size))
      → lock_needed data_offs end_data_offs wpos offset ≡ true
  unfolding lock_needed in_range
  lock_of wpos offset large h at_block =
      let vpos : ℕ = wpos + 3 * agg_write_block_size in
      let exact : u64 vpos ≡ vpos = omega (arith, h.before_end) in
      elim (Bool-cases (leb vpos end_data_offs)) [
        | inl t ↦ rw (exact, t) (ground arith)
        | inr n ↦
            let q : vpos % end_data_offs ≡ vpos - end_data_offs =
              mod-eq-sub-mod (ground arith) ∙ mod-eq_of_lt (omega (arith, h.before_end)) in
            rw (exact, n, q) (ground (arith, h.before_end, h.behind_start))
      ]

  -- In a data area of at least three write blocks, below 2 ^ 60, the shared lock is taken for
  -- every offset of the block being written and of the block written next.
  pub lock_needed-covers :
      (md : FsMetadata) (offset : ℕ)
      → data_offs + 3 * agg_write_block_size ≤ end_data_offs
      → IsInside data_offs end_data_offs md.ops.write_pos
      → ((md.ops.write_pos ≤ offset) × (offset < md.ops.write_pos + agg_write_block_size))
        ⊎ (((go_to_next_wr_pos data_offs end_data_offs md).ops.write_pos ≤ offset)
            × (offset
                < (go_to_next_wr_pos data_offs end_data_offs md).ops.write_pos
                  + agg_write_block_size))
      → lock_needed data_offs end_data_offs md.ops.write_pos offset ≡ true
  lock_needed-covers md offset large h at_block =
      lock_of md.ops.write_pos offset large h
        (elim at_block [ inl now ↦ inl now | inr next ↦ inr (two_blocks md offset h next) ])
