-- ===== src/AggWriter.antt =====
-- xproxy-beta/cache/agg_writer.cpp: the state machine of the writer of a volume. What it calls of
-- cache_fs_ops is an interface; the disk and the order of the calls are the environment's. `none` is
-- an abort of the writer: no transition, a failed X3ME_ENFORCE or assertion. Where an operation of the
-- interface aborts, the state that the writer holds is `none`.
pub mod Ready
pub mod NextState
pub mod IoSteps
pub mod WriteSteps
pub mod Runs
pub mod Evacuating
pub mod Filtered
pub mod VolumeOps
use cache_work.Prelude.{
  ℕ, zero, suc, ◌+◌, ◌*◌, ◌/◌, ◌%◌, ◌≤◌, ◌≡◌, Bool, true, false, not, ◌&&◌, ◌||◌, ltb, leb, ◌==◌,
  if◌then◌else◌, Option, none, some, ◌>>=◌, List, [], ◌∷◌, ◌++◌, length, take, drop,
}
use cache_work.Units.{
  u64, to_bytes, volume_block_size, agg_write_meta_size, agg_write_data_size, object_frag_size,
  object_frag_hdr_size, object_frag_max_data_size, object_frag_min_data_size, range_in_range,
}
use cache_work.Range.{Range, frag_range}
use cache_work.RangeElem.{RangeElem, rng_offset, rng_size, disk_offset}
use cache_work.Bytes.{Memory, read_bytes, of_le_bytes}
use cache_work.Bytes.Streams.{MemoryReader}
use cache_work.AggWriteMeta.{AggMetaEntry, AggWriteMeta, entry_less, make_agg_write_meta}
use cache_work.AggWriteMeta.Stored.{load}
use cache_work.AggWriteBlock.{create_hdr}
use cache_work.Transactions.{Transaction, curr_offset, remaining_bytes, inc_done}

pub data SmState : Type 0 where
  begin_s : SmState
  async_md_read1 : SmState
  async_md_read2 : SmState
  async_evac1 : SmState
  async_evac2 : SmState
  async_flush1 : SmState
  async_flush2 : SmState
  wait_write : SmState
  wait_next : SmState

-- aio_op
pub data AioOp : Type 0 where
  read_op : AioOp
  write_op : AioOp

-- What the writer calls of cache_fs_ops, with the block in memory. The state is the metadata of the
-- volume and the block; `none` is an operation that aborts.
pub record FsOps (S : Type 0) : Type 0 where
  pub rem_non_evac :
      List AggMetaEntry → (disk_offs area_size : ℕ) → S → Option (List AggMetaEntry × S)
  pub add_evac : (key : ℕ) → Range → List ℕ → (write_pos : ℕ) → S → Option S
  pub add_new : (key : ℕ) → Range → List ℕ → (write_pos : ℕ) → S → Option (Bool × S)
  -- The size of what goes to the disk.
  pub begin_disk : S → Option (ℕ × S)
  -- The new write position in bytes, and the lap.
  pub commit : (write_pos : ℕ) → List Transaction → S → Option ((ℕ × ℕ) × S)
  pub fin_flush : (write_pos : ℕ) → List Transaction → S → Option S

-- The calls on the state that a writer holds. It is `none` from the operation on that aborts the
-- process; the value next to it has no meaning then.
unfoldable pub split_abort : {A S : Type 0} → A → Option (A × S) → A × Option S
split_abort unused none = (unused, none)
split_abort unused (some (a, s)) = (a, some s)

module _ {S : Type 0} (ops : FsOps S) where
  unfoldable pub call_rem_non_evac :
      List AggMetaEntry → (disk_offs area_size : ℕ) → Option S → List AggMetaEntry × Option S
  call_rem_non_evac es disk_offs area_size fs =
      split_abort [] (fs >>= ops.rem_non_evac es disk_offs area_size)

  unfoldable pub call_add_evac : (key : ℕ) → Range → List ℕ → (write_pos : ℕ) → Option S → Option S
  call_add_evac key rng frag write_pos fs = fs >>= ops.add_evac key rng frag write_pos

  unfoldable pub call_add_new :
      (key : ℕ) → Range → List ℕ → (write_pos : ℕ) → Option S → Bool × Option S
  call_add_new key rng frag write_pos fs =
      split_abort false (fs >>= ops.add_new key rng frag write_pos)

  unfoldable pub call_begin_disk : Option S → ℕ × Option S
  call_begin_disk fs = split_abort 0 (fs >>= ops.begin_disk)

  unfoldable pub call_commit : (write_pos : ℕ) → List Transaction → Option S → (ℕ × ℕ) × Option S
  call_commit write_pos wtrans fs = split_abort (0, 0) (fs >>= ops.commit write_pos wtrans)

  unfoldable pub call_fin_flush : (write_pos : ℕ) → List Transaction → Option S → Option S
  call_fin_flush write_pos wtrans fs = fs >>= ops.fin_flush write_pos wtrans

-- `defr` is the deferred ev_do_async_flush; `queued` says that the task stands in the write queue.
pub record Writer (S : Type 0) : Type 0 where
  pub sm : SmState
  pub defr : Bool
  pub queued : Bool
  pub evac_meta : List AggMetaEntry
  pub pend_data : Option (Transaction × List ℕ)
  pub write_pos : ℕ
  pub is_first_lap : Bool
  pub finished_trans : List Transaction
  pub op : AioOp
  pub aio_size : ℕ
  pub aio_offs : ℕ
  pub last_flush_done : Bool
  pub fs : Option S

unfoldable pub insert_entry : AggMetaEntry → List AggMetaEntry → List AggMetaEntry
insert_entry e [] = e ∷ []
insert_entry e (x ∷ xs) = if entry_less x e then x ∷ insert_entry e xs else e ∷ (x ∷ xs)

-- std::sort
unfoldable pub sort_entries : List AggMetaEntry → List AggMetaEntry
sort_entries [] = []
sort_entries (x ∷ xs) = insert_entry x (sort_entries xs)

abbrev pub wr_pos : {S : Type 0} → Writer S → ℕ
wr_pos w = to_bytes volume_block_size w.write_pos

unfoldable pub is_empty_list : {A : Type 0} → List A → Bool
is_empty_list [] = true
is_empty_list (x ∷ xs) = false

module _ {S : Type 0} (ops : FsOps S) (adler32 : ℕ → List ℕ → ℕ) (adler32_init : ℕ) where
  -- enqueue_read_aio_op and enqueue_write_aio_op
  unfoldable pub enqueue_aio_op : AioOp → SmState → Writer S → Writer S
  enqueue_aio_op o next w = record w { op = o; queued = true; sm = next }

  unfoldable pub enqueue_defr_event : Writer S → Option (Writer S)
  enqueue_defr_event w = if w.defr then none else some (record w { defr = true })

  -- do_write_impl after the fragment was offered.
  unfoldable pub offered :
      Range → Transaction → Writer S → Bool × Option S → Option (Bool × Transaction × Writer S)
  offered rng wtrans w (true, fs) =
      inc_done rng.len wtrans >>= λ t. some (true, t, record w { fs = fs })
  offered rng wtrans w (false, fs) = some (false, wtrans, record w { fs = fs })

  unfoldable pub do_write_impl :
      Transaction → List ℕ → Writer S → Option (Bool × Transaction × Writer S)
  do_write_impl wtrans wbuf w =
      if not (leb (length wbuf) (remaining_bytes wtrans))
      then none
      else frag_range (curr_offset wtrans) (length wbuf) >>= λ rng.
          offered rng wtrans w (call_add_new ops wtrans.fs_node_key rng wbuf w.write_pos w.fs)

  unfoldable pub pend_done : Bool × Transaction × Writer S → Option (Writer S)
  pend_done (true, t, w) =
      some (record w { finished_trans = w.finished_trans ++ (t ∷ []); pend_data = none })
  pend_done (false, t, w) = enqueue_defr_event w

  unfoldable pub write_pend_data : Option (Transaction × List ℕ) → Writer S → Option (Writer S)
  write_pend_data none w = some w
  write_pend_data (some (t, buf)) w = do_write_impl t buf w >>= pend_done

  -- The answer of write, and the caller's transaction.
  unfoldable pub write_done : Bool × Transaction × Writer S → Option (Bool × Transaction × Writer S)
  write_done (true, t, w) = some (true, t, w)
  write_done (false, t, w) = enqueue_defr_event w >>= λ w'. some (false, t, w')

  -- The pending data is set only where there is none.
  unfoldable pub set_pend :
      Transaction → List ℕ → Option (Transaction × List ℕ) → Writer S → Option (Writer S)
  set_pend t wbuf none w = enqueue_defr_event (record w { pend_data = some (t, wbuf) })
  set_pend t wbuf (some p) w = none

  unfoldable pub fin_write_done : List ℕ → Bool × Transaction × Writer S → Option (Writer S)
  fin_write_done wbuf (true, t, w) =
      some (record w { finished_trans = w.finished_trans ++ (t ∷ []) })
  fin_write_done wbuf (false, t, w) = set_pend t wbuf w.pend_data w

  unfoldable pub do_fin_write : Transaction → List ℕ → Writer S → Option (Writer S)
  do_fin_write wtrans wbuf w =
      if ltb (length wbuf) object_frag_min_data_size
      then some (record w { finished_trans = w.finished_trans ++ (wtrans ∷ []) })
      else do_write_impl wtrans wbuf w >>= fin_write_done wbuf

  unfoldable pub begin_md_read : Writer S → Option (Writer S)
  begin_md_read w =
      some (record w { aio_size = agg_write_meta_size; aio_offs = wr_pos w; op = read_op })

  -- What on_md_read finds in the buffer.
  unfoldable pub md_loaded : Bool × AggWriteMeta → Writer S → Writer S
  md_loaded (false, tmp) w = w
  md_loaded (true, tmp) w =
      if is_empty_list tmp.entries
      then w
      else let r =
          call_rem_non_evac ops tmp.entries
            (u64 (w.write_pos + agg_write_meta_size / volume_block_size))
            (agg_write_data_size / volume_block_size) w.fs in
        record w { fs = r.1; evac_meta = sort_entries r.0 }

  unfoldable pub on_md_read : (err : Bool) → Memory → Writer S → Option (Writer S)
  on_md_read err buf w =
      if not
        (is_empty_list w.evac_meta && w.aio_size == agg_write_meta_size && w.aio_offs == wr_pos w)
      then none
      else if err
      then some w
      else make_agg_write_meta agg_write_meta_size >>= λ m.
          load m (record { buf = buf; buf_offs = 0; buf_size = w.aio_size }) >>= λ a.
          some (md_loaded a w)

  unfoldable pub begin_evac_of : List AggMetaEntry → Writer S → Option (Writer S)
  begin_evac_of [] w = none
  begin_evac_of (e ∷ es) w =
      let sz : ℕ = object_frag_size (rng_size e.rng) in
      let offs : ℕ = to_bytes volume_block_size (disk_offset e.rng) in
      let rpos : ℕ = u64 (wr_pos w + agg_write_meta_size) in
      if leb sz (object_frag_size object_frag_max_data_size)
        && range_in_range offs (u64 (offs + sz)) rpos (u64 (rpos + agg_write_data_size))
      then some (record w { aio_size = sz; aio_offs = offs })
      else none

  -- The evacuated fragment, where its header is the expected one.
  unfoldable pub evacuated : AggMetaEntry → Memory → Writer S → Option (Writer S)
  evacuated e buf w =
      if not (
        of_le_bytes (read_bytes object_frag_hdr_size 0 buf)
        == create_hdr adler32 adler32_init e.key e.rng)
      then some w
      else frag_range (rng_offset e.rng) (rng_size e.rng) >>= λ rng. some (record w {
        fs =
            call_add_evac ops e.key rng (read_bytes rng.len object_frag_hdr_size buf) w.write_pos
              w.fs;
      })

  unfoldable pub on_evac_of :
      List AggMetaEntry → (err : Bool) → Memory → Writer S → Option (Writer S)
  on_evac_of [] err buf w = none
  on_evac_of (e ∷ es) err buf w =
      if not (
        w.aio_offs == to_bytes volume_block_size (disk_offset e.rng)
        && w.aio_size == object_frag_size (rng_size e.rng))
      then none
      else (if err then some w else evacuated e buf w) >>= λ w'. some (record w' { evac_meta = es })

  unfoldable pub begin_flush : Writer S → Option (Writer S)
  begin_flush w =
      let r = call_begin_disk ops w.fs in
      some (record w { fs = r.1; aio_size = r.0; aio_offs = wr_pos w })

  unfoldable pub on_flush_done : Writer S → Option (Writer S)
  on_flush_done w =
      let r = call_commit ops w.write_pos w.finished_trans w.fs in
      if w.aio_offs == wr_pos w && r.0.0 % volume_block_size == 0
      then some (record w {
        fs = r.1;
        finished_trans = [];
        write_pos = r.0.0 / volume_block_size;
        is_first_lap = r.0.1 == 0;
      })
      else none

  -- process_event: the transition table.
  unfoldable pub ev_do_next : SmState → Writer S → Option (Writer S)
  ev_do_next begin_s w =
      if not w.is_first_lap
      then some (enqueue_aio_op read_op async_md_read1 w)
      else write_pend_data w.pend_data w >>= λ w'. some (record w' { sm = wait_write })
  ev_do_next wait_next w =
      if not (is_empty_list w.evac_meta)
      then some (enqueue_aio_op read_op async_evac1 w)
      else write_pend_data w.pend_data w >>= λ w'. some (record w' { sm = wait_write })
  ev_do_next s w = none

  unfoldable pub ev_io_begin : SmState → Writer S → Option (Writer S)
  ev_io_begin async_md_read1 w =
      begin_md_read w >>= λ w'. some (record w' { sm = async_md_read2; queued = false })
  ev_io_begin async_evac1 w =
      begin_evac_of w.evac_meta w >>= λ w'. some (record w' { sm = async_evac2; queued = false })
  ev_io_begin async_flush1 w =
      begin_flush w >>= λ w'. some (record w' { sm = async_flush2; queued = false })
  ev_io_begin s w = none

  unfoldable pub ev_io_done : SmState → (err : Bool) → Memory → Writer S → Option (Writer S)
  ev_io_done async_md_read2 err buf w =
      on_md_read err buf w >>= λ w'. some (record w' { sm = wait_next })
  ev_io_done async_evac2 err buf w =
      on_evac_of w.evac_meta err buf w >>= λ w'. some (record w' { sm = wait_next })
  ev_io_done async_flush2 err buf w = on_flush_done w >>= λ w'. some (record w' { sm = begin_s })
  ev_io_done s err buf w = none

  unfoldable pub ev_do_async_flush : SmState → Writer S → Option (Writer S)
  ev_do_async_flush wait_write w = some (enqueue_aio_op write_op async_flush1 w)
  ev_do_async_flush s w = none

  unfoldable pub process_defr_event : Writer S → Option (Writer S)
  process_defr_event w =
      if not w.defr
      then some w
      else ev_do_async_flush w.sm w >>= λ w'. some (record w' { defr = false })

  -- The public operations: start, write, final_write, on_begin_io_op, on_end_io_op.
  unfoldable pub start : Writer S → Option (Writer S)
  start w = ev_do_next w.sm w

  -- stop_flush: the second region of the table, with its one transition.
  unfoldable pub stop_flush : Writer S → Option (Writer S)
  stop_flush w =
      if w.last_flush_done
      then none
      else some (record w {
        fs = call_fin_flush ops w.write_pos w.finished_trans w.fs;
        last_flush_done = true;
      })

  abbrev pub at_wait_write : {A : Type 0} → SmState → Option A → Option A
  at_wait_write wait_write r = r
  at_wait_write s r = none

  unfoldable pub writer_write :
      Transaction → List ℕ → Writer S → Option (Bool × Transaction × Writer S)
  writer_write wtrans wbuf w =
      at_wait_write w.sm (do_write_impl wtrans wbuf w >>= write_done) >>= λ r.
      process_defr_event r.2 >>= λ w'. some (r.0, r.1, w')

  unfoldable pub final_write : Transaction → List ℕ → Writer S → Option (Writer S)
  final_write wtrans wbuf w = at_wait_write w.sm (do_fin_write wtrans wbuf w) >>= process_defr_event

  unfoldable pub on_begin_io_op : Writer S → Option (Writer S)
  on_begin_io_op w = ev_io_begin w.sm w

  unfoldable pub on_end_io_op : (err : Bool) → Memory → Writer S → Option (Writer S)
  on_end_io_op err buf w = ev_io_done w.sm err buf w >>= λ a.
      process_defr_event a >>= λ b. ev_do_next b.sm b >>= process_defr_event
