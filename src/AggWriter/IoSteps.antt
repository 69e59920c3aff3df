-- ===== src/AggWriter/IoSteps.antt =====
-- on_begin_io_op and on_end_io_op: a writer that stands in the queue, or whose I/O is under way, takes them.
use cache_work.Prelude.{
  ℕ, ◌+◌, ◌-◌, ◌/◌, ◌≡◌, inl, inr, refl, ap, Bool, true, false, not, ◌==◌, Bool-cases,
  if◌then◌else◌, Option, some, ◌>>=◌, List, [], ◌∷◌, arith,
}
use cache_work.Units.{
  u64, to_bytes, volume_block_size, agg_write_meta_size, agg_write_data_size, object_frag_size,
  object_frag_hdr_size,
}
use cache_work.RangeElem.{rng_size, disk_offset}
use cache_work.Bytes.{Memory, read_bytes, of_le_bytes}
use cache_work.AggWriteBlock.{create_hdr}
use cache_work.AggWriteMeta.{
  AggMetaEntry, AggWriteMeta, entry_less, make_agg_write_meta, meta_entry_bytes,
}
use cache_work.AggWriteMeta.RoundTrip.{load_total}
use cache_work.AggWriter.{
  call_rem_non_evac, call_add_evac, call_begin_disk, call_commit, SmState, begin_s, async_md_read1,
  async_md_read2, async_evac1, async_evac2, async_flush1, async_flush2, wait_write, wait_next,
  read_op, FsOps, Writer, wr_pos, is_empty_list, ev_do_next, process_defr_event, ev_io_begin,
  begin_md_read, begin_flush, begin_evac_of, ev_io_done, on_md_read, on_evac_of, evacuated,
  on_flush_done, md_loaded, sort_entries, insert_entry, on_begin_io_op, on_end_io_op,
}
use cache_work.AggWriter.Ready.{
  ==-eq, PendOk, IsEvacuable, AreEvacuable, AtHead, Stage, Ready, Gives, GivesNext, IsFsOps,
  call_commit-blocks, call_rem_non_evac-AreEvacuable,
}
use cache_work.AggWriter.NextState.{ev_do_next-Gives, ev_do_next_evac-Gives}

module _ {S : Type 0} (ops : FsOps S) (adler32 : ℕ → List ℕ → ℕ) (adler32_init : ℕ)
    (is_ops : IsFsOps ops) where
  pub begin_evac-Gives :
      (w : Writer S)
      → w.defr ≡ false
      → PendOk w.pend_data
      → (es : List AggMetaEntry) → w.evac_meta ≡ es
      → is_empty_list es ≡ false
      → AreEvacuable w.write_pos es
      → (w' : Writer S) × ((begin_evac_of ops adler32 adler32_init es w >>= λ w'.
            some (record w' { sm = async_evac2; queued = false }))
          ≡ some w')
        × Ready true w'
        × (w'.evac_meta ≡ es)
        × (w'.sm ≡ async_evac2)
  unfolding begin_evac_of is_empty_list
  begin_evac-Gives w d ok [] eq ne a = absurd (cc (ne))
  begin_evac-Gives w d ok (e ∷ es) eq ne a = (
    record w {
      aio_size = object_frag_size (rng_size e.rng);
      aio_offs = to_bytes volume_block_size (disk_offset e.rng);
      sm = async_evac2;
      queued = false;
    },
    simp (a.0.small, a.0.in_area),
    record { no_defr = d; pend_ok = ok; stage = (refl, rw eq (refl, refl), rw eq a) },
    eq,
    refl,
  )

  pub begin_of :
      (w : Writer S)
      → w.defr ≡ false
      → PendOk w.pend_data
      → w.queued ≡ true
      → (s : SmState) → Stage false s w
      → Gives true (ev_io_begin ops adler32 adler32_init s w)
  unfolding ev_io_begin begin_md_read begin_flush
  begin_of w d ok q begin_s st = elim st [ ]
  begin_of w d ok q async_md_read1 st = (
    record w {
      aio_size = agg_write_meta_size;
      aio_offs = wr_pos w;
      op = read_op;
      sm = async_md_read2;
      queued = false;
    },
    refl,
    record { no_defr = d; pend_ok = ok; stage = (refl, st.1, refl, refl) },
  )
  begin_of w d ok q async_flush1 st = (
    record w {
      fs = (call_begin_disk ops w.fs).1;
      aio_size = (call_begin_disk ops w.fs).0;
      aio_offs = wr_pos w;
      sm = async_flush2;
      queued = false;
    },
    refl,
    record { no_defr = d; pend_ok = ok; stage = (refl, st.1, refl) },
  )
  begin_of w d ok q async_evac1 st =
      let (w', s, k, _, _) = begin_evac-Gives w d ok w.evac_meta refl st.1 st.2 in (w', s, k)
  begin_of w d ok q wait_write st = absurd (cc (q, st.0))
  begin_of w d ok q async_md_read2 st = elim st [ ]
  begin_of w d ok q async_evac2 st = elim st [ ]
  begin_of w d ok q async_flush2 st = elim st [ ]
  begin_of w d ok q wait_next st = elim st [ ]

  pub process_defr_event-none :
      (w : Writer S) → w.defr ≡ false → process_defr_event ops adler32 adler32_init w ≡ some w
  unfolding process_defr_event
  process_defr_event-none w d = simp (d)

  -- From the end of the I/O on: the deferred event and do_next.
  abbrev pub GoesOn : Option (Writer S) → Type 0
  GoesOn o = Gives false (
      o >>= λ a. process_defr_event ops adler32 adler32_init a >>= λ b.
      ev_do_next ops adler32 adler32_init b.sm b >>= process_defr_event ops adler32 adler32_init)

  abbrev pub GoesOnNext : List AggMetaEntry → Option (Writer S) → Type 0
  GoesOnNext es o = GivesNext es (
      o >>= λ a. process_defr_event ops adler32 adler32_init a >>= λ b.
      ev_do_next ops adler32 adler32_init b.sm b >>= process_defr_event ops adler32 adler32_init)

  pub on_flush_done-Gives :
      (w : Writer S)
      → w.defr ≡ false
      → PendOk w.pend_data
      → Stage true async_flush2 w
      → (err : Bool) (buf : Memory)
      → GoesOn (ev_io_done ops adler32 adler32_init async_flush2 err buf w)
  unfolding ev_io_done on_flush_done
  on_flush_done-Gives w d ok st err buf =
      let c = call_commit ops w.write_pos w.finished_trans w.fs in
      let w1 : Writer S = record w {
        fs = c.1;
        finished_trans = [];
        write_pos = c.0.0 / volume_block_size;
        is_first_lap = c.0.1 == 0;
        sm = begin_s;
      } in
      let (w', r, k) = ev_do_next-Gives ops adler32 adler32_init w1 d st.0 ok st.1 in
      (
        w',
        simp (
          ==-eq st.2,
          call_commit-blocks ops is_ops w.write_pos w.finished_trans w.fs,
          process_defr_event-none w1 d,
          r,
        ),
        k,
      )

  pub evacuated-eq :
      (w : Writer S) (e : AggMetaEntry) (i : IsEvacuable w.write_pos e) (err : Bool) (buf : Memory)
      → (fs : Option S) × ((if err then some w else evacuated ops adler32 adler32_init e buf w)
          ≡ some (record w { fs = fs }))
  unfolding evacuated
  evacuated-eq w e i true buf = (w.fs, refl)
  evacuated-eq w e i false buf =
      elim (Bool-cases (
        not (
          of_le_bytes (read_bytes object_frag_hdr_size 0 buf)
          == create_hdr adler32 adler32_init e.key e.rng))) [
            | inl h ↦ (w.fs, simp (h))
            | inr h ↦ (
              call_add_evac ops e.key i.rng (read_bytes i.rng.len object_frag_hdr_size buf)
                  w.write_pos w.fs,
              simp (h, i.is_rng),
            )
          ]

  pub on_evac_done-Gives :
      (w : Writer S)
      → w.defr ≡ false
      → PendOk w.pend_data
      → w.queued ≡ false
      → (err : Bool) (buf : Memory) → (e : AggMetaEntry) (es : List AggMetaEntry)
      → w.evac_meta ≡ e ∷ es
      → AtHead w.aio_offs w.aio_size (e ∷ es)
      → AreEvacuable w.write_pos (e ∷ es)
      → GoesOnNext es (ev_io_done ops adler32 adler32_init async_evac2 err buf w)
  unfolding ev_io_done on_evac_of
  on_evac_done-Gives w d ok q err buf e es eq h a =
      let (fs, r) = evacuated-eq w e a.0 err buf in
      let w1 : Writer S = record w { fs = fs; evac_meta = es; sm = wait_next } in
      let (w', s, k, m, n) = ev_do_next_evac-Gives ops adler32 adler32_init w1 d q ok es refl a.1 in
      (w', simp (eq, ==-eq h.0, ==-eq h.1, r, process_defr_event-none w1 d, s), k, m, n)

  pub insert_entry-AreEvacuable :
      (p : ℕ) (e : AggMetaEntry) (es : List AggMetaEntry)
      → IsEvacuable p e
      → AreEvacuable p es
      → AreEvacuable p (insert_entry e es)
  unfolding insert_entry
  insert_entry-AreEvacuable p e [] i a = (i, a)
  insert_entry-AreEvacuable p e (x ∷ es) i a = elim (Bool-cases (entry_less x e)) [
    | inl l ↦ rw l (a.0, insert_entry-AreEvacuable p e es i a.1)
    | inr l ↦ rw l (i, a)
  ]

  pub sort_entries-AreEvacuable :
      (p : ℕ) (es : List AggMetaEntry) → AreEvacuable p es → AreEvacuable p (sort_entries es)
  unfolding sort_entries
  sort_entries-AreEvacuable p [] a = a
  sort_entries-AreEvacuable p (x ∷ es) a =
      insert_entry-AreEvacuable p x _ a.0 (sort_entries-AreEvacuable p es a.1)

  pub nothing_read-Gives :
      (w : Writer S)
      → w.defr ≡ false
      → PendOk w.pend_data
      → w.queued ≡ false
      → w.evac_meta ≡ []
      → GoesOn (some (record w { sm = wait_next }))
  nothing_read-Gives w d ok q e =
      let w1 : Writer S = record w { sm = wait_next } in
      let (w', s, k, _, _) = ev_do_next_evac-Gives ops adler32 adler32_init w1 d q ok [] e refl in
      (w', simp (process_defr_event-none w1 d, s), k)

  -- The writer behind a read of the metadata.
  pub md_loaded-Gives :
      (w : Writer S)
      → w.defr ≡ false
      → PendOk w.pend_data
      → w.queued ≡ false
      → w.evac_meta ≡ []
      → (a : Bool × AggWriteMeta)
      → GoesOn (some (record (md_loaded ops adler32 adler32_init a w) { sm = wait_next }))
  unfolding md_loaded
  md_loaded-Gives w d ok q e (false, m) = nothing_read-Gives w d ok q e
  md_loaded-Gives w d ok q e (true, m) = elim (Bool-cases (is_empty_list m.entries)) [
    | inl n ↦ let r = nothing_read-Gives w d ok q e in (r.0, simp (n, r.1), r.2)
    | inr n ↦
        let r =
          call_rem_non_evac ops m.entries
            (u64 (w.write_pos + agg_write_meta_size / volume_block_size))
            (agg_write_data_size / volume_block_size) w.fs in
        let w1 : Writer S = record w { fs = r.1; evac_meta = sort_entries r.0; sm = wait_next } in
        let (w', s, k, _, _) =
          ev_do_next_evac-Gives ops adler32 adler32_init w1 d q ok (sort_entries r.0) refl (
            sort_entries-AreEvacuable w.write_pos r.0
              (call_rem_non_evac-AreEvacuable ops is_ops w.write_pos m.entries w.fs)) in
        (w', simp (n, process_defr_event-none w1 d, s), k)
  ]

  pub on_md_read_done-Gives :
      (w : Writer S)
      → w.defr ≡ false
      → PendOk w.pend_data
      → Stage true async_md_read2 w
      → (err : Bool) (buf : Memory)
      → GoesOn (ev_io_done ops adler32 adler32_init async_md_read2 err buf w)
  unfolding ev_io_done on_md_read is_empty_list make_agg_write_meta
  on_md_read_done-Gives w d ok st true buf =
      let (w', s, k) = nothing_read-Gives w d ok st.0 st.1 in
      (w', simp (ap is_empty_list st.1, ==-eq st.2, ==-eq st.3, s), k)
  on_md_read_done-Gives w d ok st false buf =
      let m : AggWriteMeta = record {
        entries = [];
        max_cnt_entries = agg_write_meta_size / meta_entry_bytes - 1;
      } in
      let (a, q, _) =
        load_total m (record { buf = buf; buf_offs = 0; buf_size = w.aio_size })
          (omega (arith, st.2)) in
      let (w', s, k) = md_loaded-Gives w d ok st.0 st.1 a in
      (w', simp (ap is_empty_list st.1, ==-eq st.2, ==-eq st.3, q, s), k)

  pub end_steps :
      (w : Writer S)
      → w.defr ≡ false
      → PendOk w.pend_data
      → (err : Bool) (buf : Memory) → (s : SmState) → Stage true s w
      → GoesOn (ev_io_done ops adler32 adler32_init s err buf w)
  end_steps w d ok err buf async_md_read2 st = on_md_read_done-Gives w d ok st err buf
  end_steps w d ok err buf async_flush2 st = on_flush_done-Gives w d ok st err buf
  end_steps w d ok err buf async_evac2 st = evac_end w.evac_meta refl st
    where
      evac_end :
          (es : List AggMetaEntry)
          → w.evac_meta ≡ es
          → (w.queued ≡ false) × AtHead w.aio_offs w.aio_size es × AreEvacuable w.write_pos es
          → GoesOn (ev_io_done ops adler32 adler32_init async_evac2 err buf w)
      evac_end [] eq st = elim st.1 [ ]
      evac_end (e ∷ es) eq st =
          let (w', s, k, _, _) = on_evac_done-Gives w d ok st.0 err buf e es eq st.1 st.2 in
          (w', s, k)
  end_steps w d ok err buf begin_s st = elim st [ ]
  end_steps w d ok err buf async_md_read1 st = elim st [ ]
  end_steps w d ok err buf async_evac1 st = elim st [ ]
  end_steps w d ok err buf async_flush1 st = elim st [ ]
  end_steps w d ok err buf wait_write st = elim st [ ]
  end_steps w d ok err buf wait_next st = elim st [ ]

  pub on_begin_io_op-Ready :
      (w : Writer S)
      → Ready false w
      → w.queued ≡ true
      → Gives true (on_begin_io_op ops adler32 adler32_init w)
  unfolding on_begin_io_op
  on_begin_io_op-Ready w r q = begin_of w r.no_defr r.pend_ok q w.sm r.stage

  pub on_end_io_op-Ready :
      (w : Writer S)
      → Ready true w
      → (err : Bool) (buf : Memory) → Gives false (on_end_io_op ops adler32 adler32_init err buf w)
  unfolding on_end_io_op
  on_end_io_op-Ready w r err buf = end_steps w r.no_defr r.pend_ok err buf w.sm r.stage
