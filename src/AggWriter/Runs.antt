-- ===== src/AggWriter/Runs.antt =====
-- The calls that the environment makes to the writer: its task is popped from the queue of writes,
-- its I/O ends, and the other tasks write while it waits for them.
use cache_work.Prelude.{
  ℕ, ◌≡◌, ◌⊎◌, inl, inr, refl, sym, subst, Bool, true, false, Bool-cases, Option, Option-cases,
  none, some, ◌>>=◌, List, [],
}
use cache_work.Bytes.{Memory}
use cache_work.Transactions.{Transaction}
use cache_work.AggWriter.{
  SmState, begin_s, async_md_read1, async_md_read2, async_evac1, async_evac2, async_flush1,
  async_flush2, wait_write, wait_next, read_op, FsOps, Writer, write_pend_data, enqueue_aio_op,
  ev_do_next, on_begin_io_op, on_end_io_op,
}
use cache_work.AggWriter.Ready.{IsWritable, PendOk, Stage, Ready, Gives, IsFsOps}
use cache_work.AggWriter.IoSteps.{on_begin_io_op-Ready, on_end_io_op-Ready}
use cache_work.AggWriter.WriteSteps.{IsFinal, writer_write-Ready, final_write-Ready}
use cache_work.AggWriter.{start, writer_write, final_write}

pub data Call : Type 0 where
  begins : Call
  ends : (err : Bool) → Memory → Call
  writes : Transaction → List ℕ → Call
  final_writes : Transaction → List ℕ → Call

-- Whether the I/O of the writer's task is under way.
abbrev pub is_running : Call → Bool → Bool
is_running begins r = true
is_running (ends err buf) r = false
is_running (writes t buf) r = r
is_running (final_writes t buf) r = r

-- A new writer.
pub record IsFresh {S : Type 0} (w : Writer S) : Type 0 where
  pub at_begin : w.sm ≡ begin_s
  pub no_defr : w.defr ≡ false
  pub no_task : w.queued ≡ false
  pub no_evac : w.evac_meta ≡ []
  pub no_pend : w.pend_data ≡ none

pub data Outcome (S : Type 0) : Type 0 where
  returned : Writer S → Outcome S
  operation_aborted : Outcome S
  aborted : Outcome S

unfoldable pub alive_or : {S : Type 0} → Option S → Writer S → Outcome S
alive_or none w = operation_aborted
alive_or (some s) w = returned w

unfoldable pub outcome_of : {S : Type 0} → Option (Writer S) → Outcome S
outcome_of none = aborted
outcome_of (some w) = alive_or w.fs w

pub some-outcome :
    {S : Type 0} {o : Option (Writer S)} (w : Writer S)
    → o ≡ some w
    → (outcome_of o ≡ operation_aborted) ⊎ (outcome_of o ≡ returned w)
unfolding outcome_of alive_or
some-outcome w q = elim (Option-cases w.fs) [
  | inl n ↦ inl (simp (q, n))
  | inr (s, f) ↦ inr (simp (q, f))
]

-- The calls that the environment may make. It ends an I/O with what it likes.
abbrev pub IsAllowed : {S : Type 0} → Bool → Writer S → Call → Type 0
IsAllowed r w begins = (r ≡ false) × (w.queued ≡ true)
IsAllowed r w (ends err buf) = r ≡ true
IsAllowed r w (writes t buf) = (r ≡ false) × (w.sm ≡ wait_write) × IsWritable t buf
IsAllowed r w (final_writes t buf) = (r ≡ false) × (w.sm ≡ wait_write) × IsFinal t buf

module _ {S : Type 0} (ops : FsOps S) (adler32 : ℕ → List ℕ → ℕ) (adler32_init : ℕ) where
  unfoldable pub call : Call → Writer S → Option (Writer S)
  call begins w = on_begin_io_op ops adler32 adler32_init w
  call (ends err buf) w = on_end_io_op ops adler32 adler32_init err buf w
  call (writes t buf) w = writer_write ops adler32 adler32_init t buf w >>= λ a. some a.2
  call (final_writes t buf) w = final_write ops adler32 adler32_init t buf w

  -- What a call comes to: it returns, an operation of the file system that it calls aborts, or it
  -- aborts by itself.
  abbrev pub outcome : Call → Writer S → Outcome S
  outcome c w = outcome_of (call c w)

  -- What a new writer comes to by calls that return.
  pub data Run (w0 : Writer S) : Bool → Writer S → Type 0 where
    started :
        (w : Writer S)
        → outcome_of (start ops adler32 adler32_init w0) ≡ returned w
        → Run w0 false w
    called :
        (r : Bool) (w w' : Writer S) (c : Call)
        → Run w0 r w
        → IsAllowed r w c
        → outcome c w ≡ returned w'
        → Run w0 (is_running c r) w'

module _ {S : Type 0} (ops : FsOps S) (adler32 : ℕ → List ℕ → ℕ) (adler32_init : ℕ)
    (is_ops : IsFsOps ops) where
  call-Gives :
      (r : Bool) (w : Writer S) (c : Call)
      → Ready r w
      → IsAllowed r w c
      → Gives (is_running c r) (call ops adler32 adler32_init c w)
  unfolding call
  call-Gives r w begins ok a =
      on_begin_io_op-Ready ops adler32 adler32_init is_ops w (subst (λ b. Ready b w) a.0 ok) a.1
  call-Gives r w (ends err buf) ok a =
      on_end_io_op-Ready ops adler32 adler32_init is_ops w (subst (λ b. Ready b w) a ok) err buf
  call-Gives r w (writes t buf) ok a =
      let (x, q, k) =
        writer_write-Ready ops adler32 adler32_init w (subst (λ b. Ready b w) a.0 ok) a.1 t buf
          a.2 in
      (x.2, simp (q), subst (λ b. Ready b x.2) (sym a.0) k)
  call-Gives r w (final_writes t buf) ok a =
      let (w', q, k) =
        final_write-Ready ops adler32 adler32_init w (subst (λ b. Ready b w) a.0 ok) a.1 t buf
          a.2 in
      (w', q, subst (λ b. Ready b w') (sym a.0) k)

  -- What is given is returned, or an operation has aborted.
  pub Gives-outcome :
      {r : Bool} {o : Option (Writer S)}
      → Gives r o
      → (outcome_of o ≡ operation_aborted)
        ⊎ ((w : Writer S) × (outcome_of o ≡ returned w) × (o ≡ some w) × Ready r w)
  Gives-outcome (w, q, k) = elim (some-outcome w q) [ inl a ↦ inl a | inr e ↦ inr (w, e, q, k) ]

  Gives-Ready :
      {r : Bool} {o : Option (Writer S)} (w : Writer S)
      → Gives r o
      → outcome_of o ≡ returned w
      → Ready r w
  Gives-Ready {r} w g q = elim (Gives-outcome g) [
    | inl a ↦ absurd (cc (a, q))
    | inr (u, e, _, k) ↦ let p : u ≡ w = cc (e, q) in subst (Ready r) p k
  ]

  start-Gives : (w : Writer S) → IsFresh w → Gives false (start ops adler32 adler32_init w)
  unfolding start ev_do_next write_pend_data enqueue_aio_op
  start-Gives w f = elim (Bool-cases w.is_first_lap) [
    | inl l ↦ (
      record w { sm = wait_write },
      simp (f.at_begin, l, f.no_pend),
      record {
        no_defr = f.no_defr;
        pend_ok = subst PendOk (sym f.no_pend) refl;
        stage = (f.no_task, f.no_evac, f.no_pend);
      },
    )
    | inr l ↦ (
      record w { op = read_op; queued = true; sm = async_md_read1 },
      simp (f.at_begin, l),
      record {
        no_defr = f.no_defr;
        pend_ok = subst PendOk (sym f.no_pend) refl;
        stage = (refl, f.no_evac);
      },
    )
  ]

  pub Run-Ready :
      {w0 : Writer S} {r : Bool} {w : Writer S}
      → IsFresh w0
      → Run ops adler32 adler32_init w0 r w
      → Ready r w
  Run-Ready {w0} f (started w q) = Gives-Ready w (start-Gives w0 f) q
  Run-Ready f (called r w w' c run a q) = Gives-Ready w' (call-Gives r w c (Run-Ready f run) a) q

  Ready-alive :
      (r : Bool) (w : Writer S) (s : SmState)
      → Stage r s w
      → (r ≡ true) ⊎ (w.queued ≡ true) ⊎ (s ≡ wait_write)
  Ready-alive true w s st = inl refl
  Ready-alive false w wait_write st = inr (inr refl)
  Ready-alive false w async_flush1 st = inr (inl st.0)
  Ready-alive false w async_md_read1 st = inr (inl st.0)
  Ready-alive false w async_evac1 st = inr (inl st.0)
  Ready-alive false w begin_s st = elim st [ ]
  Ready-alive false w wait_next st = elim st [ ]
  Ready-alive false w async_md_read2 st = elim st [ ]
  Ready-alive false w async_evac2 st = elim st [ ]
  Ready-alive false w async_flush2 st = elim st [ ]

  -- Whatever calls a new writer of a volume has seen and returned from (its task begins its I/O
  -- where it was queued, the I/O ends with any answer of the disk, others write where it waits
  -- for them, with buffers that their transactions have room for), no further such call aborts
  -- by itself: it returns, and the run goes on, or an operation of the file system that it calls
  -- aborts. And its I/O is under way, or its task is in the queue, or it waits for writes. It
  -- relies on IsFsOps of the operations: where they return, write positions are in whole blocks,
  -- and only entries of the write area are to be evacuated.
  pub Run-goes_on :
      {w0 : Writer S} {r : Bool} {w : Writer S}
      → IsFresh w0
      → Run ops adler32 adler32_init w0 r w
      → ((c : Call)
          → IsAllowed r w c
          → (outcome ops adler32 adler32_init c w ≡ operation_aborted)
            ⊎ ((w' : Writer S) × (outcome ops adler32 adler32_init c w ≡ returned w')
                × Run ops adler32 adler32_init w0 (is_running c r) w'))
        × ((r ≡ true) ⊎ (w.queued ≡ true) ⊎ (w.sm ≡ wait_write))
  Run-goes_on {r = r} {w = w} f run =
      let ok = Run-Ready f run in
      (
        λ c a. elim (Gives-outcome (call-Gives r w c ok a)) [
          | inl o ↦ inl o
          | inr (w', o, _, _) ↦ inr (w', o, called r w w' c run a o)
        ],
        Ready-alive r w w.sm ok.stage,
      )
