-- ===== src/AggWriter/Ready.antt =====
-- The order of the writer's states and of its tasks: what holds between two calls.
use cache_work.Prelude.{
  refl, inl, inr, Option-cases, ℕ, ◌+◌, ◌/◌, ◌%◌, ◌≡◌, ◌⊎◌, Bool, true, false, leb, ◌==◌, ==_iff,
  Option, none, some, List, [], ◌∷◌, length,
}
use cache_work.Units.{
  u64, to_bytes, volume_block_size, agg_write_meta_size, agg_write_data_size, object_frag_size,
  object_frag_max_data_size, range_in_range,
}
use cache_work.Range.{Range, frag_range}
use cache_work.RangeElem.{rng_offset, rng_size, disk_offset}
use cache_work.AggWriteMeta.{AggMetaEntry}
use cache_work.Transactions.{Transaction, curr_offset, remaining_bytes, inc_done}
use cache_work.AggWriter.{
  SmState, async_md_read1, async_md_read2, async_evac1, async_evac2, async_flush1, async_flush2,
  wait_write, FsOps, Writer, wr_pos, is_empty_list, call_commit, call_rem_non_evac, split_abort,
}

pub ==-eq : {a b : ℕ} → a ≡ b → (a == b) ≡ true
==-eq {a} {b} q = (==_iff a b).1 q

-- A buffer that its transaction has room for, in one fragment.
pub record IsWritable (t : Transaction) (buf : List ℕ) : Type 0 where
  pub enough : leb (length buf) (remaining_bytes t) ≡ true
  pub rng : Range
  pub is_rng : frag_range (curr_offset t) (length buf) ≡ some rng
  pub moved : Transaction
  pub is_moved : inc_done rng.len t ≡ some moved

abbrev pub PendOk : Option (Transaction × List ℕ) → Type 0
PendOk none = true ≡ true
PendOk (some (t, buf)) = IsWritable t buf

-- An entry that begin_evac and on_evac_done accept at a write position.
pub record IsEvacuable (write_pos : ℕ) (e : AggMetaEntry) : Type 0 where
  pub small :
      leb (object_frag_size (rng_size e.rng)) (object_frag_size object_frag_max_data_size) ≡ true
  pub in_area :
      range_in_range
        (to_bytes volume_block_size (disk_offset e.rng))
        (u64 (to_bytes volume_block_size (disk_offset e.rng) + object_frag_size (rng_size e.rng)))
        (u64 (to_bytes volume_block_size write_pos + agg_write_meta_size))
        (u64
          (u64 (to_bytes volume_block_size write_pos + agg_write_meta_size) + agg_write_data_size))
      ≡ true
  pub rng : Range
  pub is_rng : frag_range (rng_offset e.rng) (rng_size e.rng) ≡ some rng

abbrev pub AreEvacuable : ℕ → List AggMetaEntry → Type 0
AreEvacuable p [] = true ≡ true
AreEvacuable p (e ∷ es) = IsEvacuable p e × AreEvacuable p es

abbrev pub AtHead : ℕ → ℕ → List AggMetaEntry → Type 0
AtHead offs size [] = ⊥
AtHead offs size (e ∷ es) =
    (offs ≡ to_bytes volume_block_size (disk_offset e.rng))
    × (size ≡ object_frag_size (rng_size e.rng))

-- Where do_next goes with these entries left to evacuate.
abbrev pub NextState : List AggMetaEntry → SmState → Type 0
NextState [] s = (s ≡ wait_write) ⊎ (s ≡ async_flush1)
NextState (e ∷ es) s = s ≡ async_evac1

module _ {S : Type 0} where
  -- Between two calls the machine is in one of these states; the Boolean says that the I/O of its
  -- task is under way.
  abbrev pub Stage : Bool → SmState → Writer S → Type 0
  Stage false wait_write w = (w.queued ≡ false) × (w.evac_meta ≡ []) × (w.pend_data ≡ none)
  Stage false async_flush1 w = (w.queued ≡ true) × (w.evac_meta ≡ [])
  Stage true async_flush2 w = (w.queued ≡ false) × (w.evac_meta ≡ []) × (w.aio_offs ≡ wr_pos w)
  Stage false async_md_read1 w = (w.queued ≡ true) × (w.evac_meta ≡ [])
  Stage true async_md_read2 w =
      (w.queued ≡ false)
      × (w.evac_meta ≡ [])
      × (w.aio_size ≡ agg_write_meta_size)
      × (w.aio_offs ≡ wr_pos w)
  Stage false async_evac1 w =
      (w.queued ≡ true) × (is_empty_list w.evac_meta ≡ false) × AreEvacuable w.write_pos w.evac_meta
  Stage true async_evac2 w =
      (w.queued ≡ false)
      × AtHead w.aio_offs w.aio_size w.evac_meta
      × AreEvacuable w.write_pos w.evac_meta
  Stage r s w = ⊥

  pub record Ready (running : Bool) (w : Writer S) : Type 0 where
    pub no_defr : w.defr ≡ false
    pub pend_ok : PendOk w.pend_data
    pub stage : Stage running w.sm w

  abbrev pub Gives : Bool → Option (Writer S) → Type 0
  Gives r o = (w' : Writer S) × (o ≡ some w') × Ready r w'

  abbrev pub GivesNext : List AggMetaEntry → Option (Writer S) → Type 0
  GivesNext es o =
      (w' : Writer S) × (o ≡ some w') × Ready false w' × (w'.evac_meta ≡ es) × NextState es w'.sm

  -- What the writer relies on, where the operations return: a new write position in whole blocks,
  -- and only entries of the write area to evacuate.
  pub record IsFsOps (ops : FsOps S) : Type 0 where
    pub blocks :
        (p : ℕ) (ts : List Transaction) (fs : S) (r : (ℕ × ℕ) × S)
        → ops.commit p ts fs ≡ some r
        → (r.0.0 % volume_block_size == 0) ≡ true
    pub filtered :
        (p : ℕ) (es : List AggMetaEntry) (fs : S) (r : List AggMetaEntry × S)
        → ops.rem_non_evac es
            (u64 (p + agg_write_meta_size / volume_block_size))
            (agg_write_data_size / volume_block_size)
            fs
          ≡ some r
        → AreEvacuable p r.0

  -- The same of the calls, also on the state of an aborted process.
  pub call_commit-blocks :
      (ops : FsOps S)
      → IsFsOps ops
      → (p : ℕ) (ts : List Transaction) (fs : Option S)
      → ((call_commit ops p ts fs).0.0 % volume_block_size == 0) ≡ true
  unfolding call_commit split_abort
  call_commit-blocks ops is_ops p ts none = refl
  call_commit-blocks ops is_ops p ts (some s) = elim (Option-cases (ops.commit p ts s)) [
    | inl n ↦ rw n refl
    | inr (r, q) ↦ rw q (is_ops.blocks p ts s r q)
  ]

  pub call_rem_non_evac-AreEvacuable :
      (ops : FsOps S)
      → IsFsOps ops
      → (p : ℕ) (es : List AggMetaEntry) (fs : Option S)
      → AreEvacuable p
          (call_rem_non_evac ops es
            (u64 (p + agg_write_meta_size / volume_block_size))
            (agg_write_data_size / volume_block_size)
            fs).0
  unfolding call_rem_non_evac split_abort
  call_rem_non_evac-AreEvacuable ops is_ops p es none = refl
  call_rem_non_evac-AreEvacuable ops is_ops p es (some s) =
      elim (Option-cases (
        ops.rem_non_evac es (u64 (p + agg_write_meta_size / volume_block_size))
          (agg_write_data_size / volume_block_size) s)) [
            | inl n ↦ rw n refl
            | inr (r, q) ↦ rw q (is_ops.filtered p es s r q)
          ]
