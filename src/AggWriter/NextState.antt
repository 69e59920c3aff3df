-- ===== src/AggWriter/NextState.antt =====
-- write_pend_data, ev_do_next: where the writer goes when no I/O of its task is under way.
use cache_work.Prelude.{
  ℕ, ◌≡◌, ◌⊎◌, inl, inr, refl, Bool, true, false, Bool-cases, Option, none, some, ◌>>=◌, List, [],
  ◌∷◌, ◌++◌,
}
use cache_work.AggWriteMeta.{AggMetaEntry}
use cache_work.Transactions.{Transaction}
use cache_work.AggWriter.{
  begin_s, async_md_read1, async_evac1, async_flush1, wait_write, wait_next, read_op, write_op,
  FsOps, Writer, offered, do_write_impl, pend_done, write_pend_data, enqueue_aio_op,
  enqueue_defr_event, is_empty_list, ev_do_next, ev_do_async_flush, process_defr_event,
}
use cache_work.AggWriter.Ready.{IsWritable, PendOk, AreEvacuable, Gives, GivesNext}

module _ {S : Type 0} (ops : FsOps S) (adler32 : ℕ → List ℕ → ℕ) (adler32_init : ℕ) where
  pub offered-eq :
      (t : Transaction) (buf : List ℕ) (w : Writer S) (i : IsWritable t buf) (b : Bool × Option S)
      → ((fs : Option S) × (offered ops adler32 adler32_init i.rng t w b
            ≡ some (true, i.moved, record w { fs = fs })))
        ⊎ ((fs : Option S) × (offered ops adler32 adler32_init i.rng t w b
              ≡ some (false, t, record w { fs = fs })))
  unfolding offered
  offered-eq t buf w i (true, fs) = inl (fs, rw i.is_moved refl)
  offered-eq t buf w i (false, fs) = inr (fs, refl)

  pub do_write_impl-eq :
      (t : Transaction) (buf : List ℕ) (w : Writer S) (i : IsWritable t buf)
      → ((fs : Option S) × (do_write_impl ops adler32 adler32_init t buf w
            ≡ some (true, i.moved, record w { fs = fs })))
        ⊎ ((fs : Option S) × (do_write_impl ops adler32 adler32_init t buf w
              ≡ some (false, t, record w { fs = fs })))
  unfolding do_write_impl
  do_write_impl-eq t buf w i = rw (i.enough, i.is_rng) (offered-eq t buf w i _)

  -- The pending data is written, or the flush that makes room for it is queued.
  pub write_pend_data-Gives :
      (w : Writer S)
      → w.defr ≡ false
      → w.queued ≡ false
      → w.evac_meta ≡ []
      → (p : Option (Transaction × List ℕ)) → w.pend_data ≡ p
      → PendOk p
      → GivesNext [] (
          (write_pend_data ops adler32 adler32_init p w >>= λ w'.
          some (record w' { sm = wait_write }))
          >>= process_defr_event ops adler32 adler32_init)
  unfolding write_pend_data pend_done process_defr_event enqueue_defr_event ev_do_async_flush
      enqueue_aio_op
  write_pend_data-Gives w d q e none pq ok = (
    record w { sm = wait_write },
    simp (d),
    record { no_defr = d; pend_ok = rw pq refl; stage = (q, e, pq) },
    e,
    inl refl,
  )
  write_pend_data-Gives w d q e (some (t, buf)) pq ok = elim (do_write_impl-eq t buf w ok) [
    | inl (fs, r) ↦ (
      record w {
        finished_trans = w.finished_trans ++ (ok.moved ∷ []);
        pend_data = none;
        fs = fs;
        sm = wait_write;
      },
      rw r simp (d),
      record { no_defr = d; pend_ok = refl; stage = (q, e, refl) },
      e,
      inl refl,
    )
    | inr (fs, r) ↦ (
      record w { fs = fs; op = write_op; queued = true; sm = async_flush1; defr = false },
      rw r simp (d),
      record { no_defr = refl; pend_ok = rw pq ok; stage = (refl, e) },
      e,
      inr refl,
    )
  ]

  -- do_next from either state.
  pub ev_do_next-Gives :
      (w : Writer S)
      → w.defr ≡ false
      → w.queued ≡ false
      → PendOk w.pend_data
      → (w.evac_meta ≡ [])
      → Gives false (
          ev_do_next ops adler32 adler32_init begin_s w
          >>= process_defr_event ops adler32 adler32_init)
  unfolding ev_do_next enqueue_aio_op process_defr_event
  ev_do_next-Gives w d q ok e = elim (Bool-cases w.is_first_lap) [
    | inl l ↦
        let (w', r, k, _, _) = write_pend_data-Gives w d q e w.pend_data refl ok in
        (w', simp (l, r), k)
    | inr l ↦ (
      record w { op = read_op; queued = true; sm = async_md_read1 },
      simp (l, d),
      record { no_defr = d; pend_ok = ok; stage = (refl, e) },
    )
  ]

  pub ev_do_next_evac-Gives :
      (w : Writer S)
      → w.defr ≡ false
      → w.queued ≡ false
      → PendOk w.pend_data
      → (es : List AggMetaEntry) → w.evac_meta ≡ es
      → AreEvacuable w.write_pos es
      → GivesNext es (
          ev_do_next ops adler32 adler32_init wait_next w
          >>= process_defr_event ops adler32 adler32_init)
  unfolding ev_do_next enqueue_aio_op process_defr_event is_empty_list
  ev_do_next_evac-Gives w d q ok [] eq a =
      let (w', r, k, l, n) = write_pend_data-Gives w d q eq w.pend_data refl ok in
      (w', simp (eq, r), k, l, n)
  ev_do_next_evac-Gives w d q ok (e ∷ es) eq a = (
    record w { op = read_op; queued = true; sm = async_evac1 },
    simp (eq, d),
    record { no_defr = d; pend_ok = ok; stage = (refl, rw eq refl, rw eq a) },
    eq,
    refl,
  )
