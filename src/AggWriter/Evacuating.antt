-- ===== src/AggWriter/Evacuating.antt =====
-- The loop of the transition table over the fragments that are to be evacuated.
use cache_work.Prelude.{
  inl, inr, ℕ, ◌≡◌, ◌⊎◌, refl, ap, ◌∙◌, subst, Bool, true, false, some, List, [], ◌∷◌, length,
  arith,
}
use cache_work.Bytes.{Memory}
use cache_work.AggWriteMeta.{AggMetaEntry}
use cache_work.AggWriter.{
  async_evac1, async_flush1, wait_write, FsOps, Writer, is_empty_list, ev_io_begin, on_begin_io_op,
  on_end_io_op,
}
use cache_work.AggWriter.Ready.{AreEvacuable, AtHead, NextState, Stage, Ready, GivesNext, IsFsOps}
use cache_work.AggWriter.IoSteps.{begin_evac-Gives, on_evac_done-Gives}
use cache_work.AggWriter.Runs.{
  Outcome, returned, operation_aborted, aborted, outcome, some-outcome, begins, ends, call, Run,
  called, IsFresh, Run-Ready,
}

unfoldable pub and_then : {S : Type 0} → Outcome S → (Writer S → Outcome S) → Outcome S
and_then (returned w) f = f w
and_then operation_aborted f = operation_aborted
and_then aborted f = aborted

module _ {S : Type 0} (ops : FsOps S) (adler32 : ℕ → List ℕ → ℕ) (adler32_init : ℕ) where
  -- The I/O of the writer's task begins and ends, once for each answer of the disk.
  unfoldable pub io_rounds : List (Bool × Memory) → Writer S → Outcome S
  io_rounds [] w = returned w
  io_rounds ((err, buf) ∷ ios) w =
      and_then (outcome ops adler32 adler32_init begins w)
        (λ w1. and_then (outcome ops adler32 adler32_init (ends err buf) w1) (io_rounds ios))

module _ {S : Type 0} (ops : FsOps S) (adler32 : ℕ → List ℕ → ℕ) (adler32_init : ℕ)
    (is_ops : IsFsOps ops) where
  -- One fragment.
  round-Gives :
      (w : Writer S)
      → Ready false w
      → (e : AggMetaEntry) (es : List AggMetaEntry) → w.evac_meta ≡ e ∷ es
      → Stage false async_evac1 w
      → w.sm ≡ async_evac1
      → (err : Bool) (buf : Memory)
      → (w1 : Writer S) × (on_begin_io_op ops adler32 adler32_init w ≡ some w1)
        × GivesNext es (on_end_io_op ops adler32 adler32_init err buf w1)
  unfolding on_begin_io_op on_end_io_op ev_io_begin
  round-Gives w r e es eq st q err buf =
      let (w1, b, k, l, m) =
        begin_evac-Gives ops adler32 adler32_init is_ops w r.no_defr r.pend_ok w.evac_meta refl st.1
          st.2 in
      let st1 = subst (λ s. Stage true s w1) m k.stage in
      let eq1 = l ∙ eq in
      let at_head = subst (AtHead w1.aio_offs w1.aio_size) eq1 st1.1 in
      let in_area = subst (AreEvacuable w1.write_pos) eq1 st1.2 in
      let (w2, s, k2, l2, n) =
        on_evac_done-Gives ops adler32 adler32_init is_ops w1 k.no_defr k.pend_ok st1.0 err buf e es
          eq1 at_head in_area in
      (w1, simp (q, b), (w2, simp (m, s), k2, l2, n))

  -- Every entry is gone, and the writer waits for writes or its flush is queued.
  abbrev pub EvacDone : Writer S → Outcome S → Type 0
  EvacDone w0 o =
      (w' : Writer S) × (o ≡ returned w')
      × Run ops adler32 adler32_init w0 false w'
      × (w'.evac_meta ≡ [])
      × ((w'.sm ≡ wait_write) ⊎ (w'.sm ≡ async_flush1))

  rounds-Gives :
      {w0 : Writer S}
      → IsFresh w0
      → (es : List AggMetaEntry) (w : Writer S) → Run ops adler32 adler32_init w0 false w
      → w.evac_meta ≡ es
      → NextState es w.sm
      → (ios : List (Bool × Memory)) → length ios ≡ length es
      → (io_rounds ops adler32 adler32_init ios w ≡ operation_aborted)
        ⊎ EvacDone w0 (io_rounds ops adler32 adler32_init ios w)
  unfolding io_rounds and_then call
  rounds-Gives f [] w run eq n [] h = inr (w, refl, run, eq, n)
  rounds-Gives f (e ∷ es) w run eq q ((err, buf) ∷ ios) h =
      let r = Run-Ready ops adler32 adler32_init is_ops f run in
      let st = subst (λ s. Stage false s w) q r.stage in
      let (w1, b, (w2, s, k2, l2, n2)) = round-Gives w r e es eq st q err buf in
      elim (some-outcome w1 b) [
        | inl a ↦ inl (rw a refl)
        | inr o1 ↦ elim (some-outcome w2 s) [
          | inl a ↦ inl (rw (o1, a) refl)
          | inr o2 ↦
              let run1 = called false w w1 begins run (refl, st.0) o1 in
              let run2 = called true w1 w2 (ends err buf) run1 refl o2 in
              rw (o1, o2) (rounds-Gives f es w2 run2 l2 n2 ios (omega (arith, h)))
        ]
      ]
  rounds-Gives f [] w run eq n (io ∷ ios) h = absurd (omega arith)
  rounds-Gives f (e ∷ es) w run eq q [] h = absurd (omega arith)

  -- From a writer that was started and is about to evacuate, one round of I/O for each entry,
  -- whatever the disk answers, ends in an abort of an operation of the file system, or brings it
  -- to a reachable state without entries, where it waits for writes or its flush is queued. It
  -- relies on IsFsOps of the operations it calls.
  pub evacuation_ends :
      {w0 w : Writer S}
      → IsFresh w0
      → Run ops adler32 adler32_init w0 false w
      → w.sm ≡ async_evac1
      → (ios : List (Bool × Memory)) → length ios ≡ length w.evac_meta
      → (io_rounds ops adler32 adler32_init ios w ≡ operation_aborted)
        ⊎ EvacDone w0 (io_rounds ops adler32 adler32_init ios w)
  unfolding is_empty_list
  evacuation_ends {w0 = w0} {w = w} f run q ios h =
      by_entries w.evac_meta refl h
        (subst (λ s. Stage false s w) q (Run-Ready ops adler32 adler32_init is_ops f run).stage)
    where
      by_entries :
          (es : List AggMetaEntry)
          → w.evac_meta ≡ es
          → length ios ≡ length es
          → Stage false async_evac1 w
          → (io_rounds ops adler32 adler32_init ios w ≡ operation_aborted)
            ⊎ EvacDone w0 (io_rounds ops adler32 adler32_init ios w)
      by_entries [] eq h st = absurd (cc (ap is_empty_list eq, st.1))
      by_entries (e ∷ es) eq h st = rounds-Gives f (e ∷ es) w run eq q ios h
