-- ===== src/AggWriter/WriteSteps.antt =====
-- write and final_write: a writer that waits for writes takes them, or queues the flush that makes room.
use cache_work.Prelude.{
  ℕ, ◌≡◌, ◌⊎◌, inl, inr, refl, sym, subst, Bool, true, false, ltb, Bool-cases, Option, some, List,
  [], ◌∷◌, ◌++◌, length,
}
use cache_work.Units.{object_frag_min_data_size}
use cache_work.Transactions.{Transaction}
use cache_work.AggWriter.{
  SmState, async_flush1, wait_write, write_op, FsOps, Writer, write_done, set_pend, fin_write_done,
  do_fin_write, enqueue_aio_op, enqueue_defr_event, ev_do_async_flush, process_defr_event,
}
use cache_work.AggWriter.Ready.{IsWritable, PendOk, Stage, Ready, Gives}
use cache_work.AggWriter.NextState.{do_write_impl-eq}
use cache_work.AggWriter.{writer_write, final_write}

-- What final_write takes: a buffer that is too small to be stored, or one that has its place.
abbrev pub IsFinal : Transaction → List ℕ → Type 0
IsFinal t buf = (ltb (length buf) object_frag_min_data_size ≡ true) ⊎ IsWritable t buf

module _ {S : Type 0} (ops : FsOps S) (adler32 : ℕ → List ℕ → ℕ) (adler32_init : ℕ) where
  waiting : (w : Writer S) → Ready false w → w.sm ≡ wait_write → Stage false wait_write w
  waiting w r q = subst (λ s. Stage false s w) q r.stage

  -- Behind a write: the writer waits, or its flush is queued.
  abbrev pub Wrote : SmState → Writer S → Type 0
  Wrote s w = Ready false w × (s ≡ w.sm)

  written-Ready :
      (w : Writer S)
      → Ready false w
      → w.sm ≡ wait_write
      → (fs : Option S) (ts : List Transaction)
      → Ready false (record w { fs = fs; finished_trans = ts })
  written-Ready w r q fs ts =
      let st = waiting w r q in
      record {
        no_defr = r.no_defr;
        pend_ok = r.pend_ok;
        stage = subst (λ s. Stage false s (record w { fs = fs; finished_trans = ts })) (sym q) st;
      }

  flush_queued :
      (w : Writer S)
      → Stage false wait_write w
      → (p : Option (Transaction × List ℕ)) → PendOk p
      → (fs : Option S)
      → Ready false (record w {
        fs = fs;
        pend_data = p;
        op = write_op;
        queued = true;
        sm = async_flush1;
        defr = false;
      })
  flush_queued w st p ok fs = record { no_defr = refl; pend_ok = ok; stage = (refl, st.1) }

  pub writer_write-Ready :
      (w : Writer S)
      → Ready false w
      → w.sm ≡ wait_write
      → (t : Transaction) (buf : List ℕ) → IsWritable t buf
      → (a : Bool × Transaction × Writer S) × (writer_write ops adler32 adler32_init t buf w
          ≡ some a)
        × Ready false a.2
  unfolding writer_write write_done enqueue_defr_event process_defr_event ev_do_async_flush
      enqueue_aio_op
  writer_write-Ready w r q t buf ok = elim (do_write_impl-eq ops adler32 adler32_init t buf w ok) [
    | inl (fs, e) ↦ (
      (true, ok.moved, record w { fs = fs }),
      simp (q, e, r.no_defr),
      written-Ready w r q fs w.finished_trans,
    )
    | inr (fs, e) ↦ (
      (
        false,
        t,
        record w { fs = fs; op = write_op; queued = true; sm = async_flush1; defr = false },
      ),
      simp (q, e, r.no_defr),
      flush_queued w (waiting w r q) w.pend_data r.pend_ok fs,
    )
  ]

  pub final_write-Ready :
      (w : Writer S)
      → Ready false w
      → w.sm ≡ wait_write
      → (t : Transaction) (buf : List ℕ) → IsFinal t buf
      → Gives false (final_write ops adler32 adler32_init t buf w)
  unfolding final_write do_fin_write fin_write_done set_pend enqueue_defr_event process_defr_event
      ev_do_async_flush enqueue_aio_op
  final_write-Ready w r q t buf (inl small) = (
    record w { finished_trans = w.finished_trans ++ (t ∷ []) },
    simp (q, small, r.no_defr),
    written-Ready w r q w.fs _,
  )
  final_write-Ready w r q t buf (inr ok) =
      elim (Bool-cases (ltb (length buf) object_frag_min_data_size)) [
        | inl small ↦ (
          record w { finished_trans = w.finished_trans ++ (t ∷ []) },
          simp (q, small, r.no_defr),
          written-Ready w r q w.fs _,
        )
        | inr large ↦ elim (do_write_impl-eq ops adler32 adler32_init t buf w ok) [
          | inl (fs, e) ↦ (
            record w { fs = fs; finished_trans = w.finished_trans ++ (ok.moved ∷ []) },
            simp (q, large, e, r.no_defr),
            written-Ready w r q fs _,
          )
          | inr (fs, e) ↦ (
            record w {
              fs = fs;
              pend_data = some (t, buf);
              op = write_op;
              queued = true;
              sm = async_flush1;
              defr = false;
            },
            simp (q, large, e, (waiting w r q).2, r.no_defr),
            flush_queued w (waiting w r q) (some (t, buf)) ok fs,
          )
        ]
      ]
