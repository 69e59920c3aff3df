-- ===== src/FsOperations/Readers.antt =====
-- The readers of one object over time: every interleaving of fsmd_begin_read and fsmd_end_read.
use cache_work.Prelude.{◌≡◌, ◌≢◌, refl, ap, ◌∙◌, sym, Bool, true, false, some, List, [], ◌∷◌}
use cache_work.Range.{Range}
use cache_work.RangeElem.{RangeElem}
use cache_work.RangeVector.{is_none, find_full_range}
use cache_work.FsOperations.{BeginRes, set, cnt_of, begin_read_elems, end_read_elems}
use cache_work.FsOperations.Marks.{raise}
use cache_work.FsOperations.Reading.{
  dec_loop-raise, BeginAnswer, absent, full, marked, begin_read_elems-BeginAnswer, raises,
  find_full_range-raises, Pick, here, there, raises-Pick,
}

-- The readers that are between their begin and their end, and the elements.
pub record Readers : Type 0 where
  pub rngs : List Range
  pub elems : List RangeElem

pub data ReadStep : Readers → Readers → Type 0 where
  begun :
      {rngs : List Range} {xs ys : List RangeElem} (rng : Range)
      → begin_read_elems rng xs ≡ some (set, ys)
      → ReadStep (record { rngs = rngs; elems = xs }) (record { rngs = rng ∷ rngs; elems = ys })
  refused :
      {rngs : List Range} {xs ys : List RangeElem} (rng : Range) (b : BeginRes)
      → b ≢ set
      → begin_read_elems rng xs ≡ some (b, ys)
      → ReadStep (record { rngs = rngs; elems = xs }) (record { rngs = rngs; elems = ys })
  ended :
      {rngs rest : List Range} {xs ys : List RangeElem} (rng : Range) (b : Bool)
      → Pick rng rngs rest
      → end_read_elems rng xs ≡ some (b, ys)
      → ReadStep (record { rngs = rngs; elems = xs }) (record { rngs = rest; elems = ys })

pub data ReadRun (start : Readers) : Readers → Type 0 where
  at_start : ReadRun start start
  next : {s s' : Readers} → ReadRun start s → ReadStep s s' → ReadRun start s'

-- What holds between two steps: every reader's range is there, and the elements are those of the
-- start with the readers' marks.
pub record IsMarked (xs : List RangeElem) (s : Readers) : Type 0 where
  pub present :
      (rng : Range) (rest : List Range)
      → Pick rng s.rngs rest
      → is_none (find_full_range xs rng) ≡ false
  pub marks : s.elems ≡ raises s.rngs xs

Pick-cons :
    (P : Range → Type 0) (other : Range) (rngs : List Range)
    → P other
    → ((rng : Range) (rest : List Range) → Pick rng rngs rest → P rng)
    → (rng : Range) (rest : List Range) → Pick rng (other ∷ rngs) rest
    → P rng
Pick-cons P other rngs h k rng rest here = h
Pick-cons P other rngs h k rng _ (there p) = k rng _ p

-- Who is left was there before.
Pick-rest :
    {rng : Range} {rngs rest : List Range}
    → Pick rng rngs rest
    → (r : Range) (l : List Range) → Pick r rest l
    → (l' : List Range) × Pick r rngs l'
Pick-rest here r l p = (_, there p)
Pick-rest (there p) r l here = (_, here)
Pick-rest (there p) r _ (there q) = let (l', q') = Pick-rest p r _ q in (_, there q')

-- What the end of a reader does.
pub end_read_elems-raises :
    {rng : Range} {rngs rest : List Range} (xs : List RangeElem)
    → is_none (find_full_range xs rng) ≡ false
    → Pick rng rngs rest
    → end_read_elems rng (raises rngs xs) ≡ some (true, raises rest xs)
unfolding end_read_elems
end_read_elems-raises {rng} {rngs} {rest} xs h p =
    rw
      (
        find_full_range-raises rngs xs rng,
        h,
        raises-Pick xs p,
        dec_loop-raise (find_full_range xs rng).first (cnt_of (find_full_range xs rng))
            (raises rest xs),
      )
      refl

answer_of :
    (rng : Range) (xs : List RangeElem) (b : BeginRes) (ys : List RangeElem)
    → begin_read_elems rng xs ≡ some (b, ys)
    → BeginAnswer rng xs b ys
answer_of rng xs b ys h =
    let (c, zs, q, a) = begin_read_elems-BeginAnswer rng xs in
    let e : c ≡ b = cc in let f : zs ≡ ys = cc in rw (sym e, sym f) a

answer_set :
    (rng : Range) (xs : List RangeElem) (b : BeginRes) (ys : List RangeElem)
    → BeginAnswer rng xs b ys
    → b ≡ set
    → (is_none (find_full_range xs rng) ≡ false)
      × (ys ≡ raise (find_full_range xs rng).first (cnt_of (find_full_range xs rng)) xs)
answer_set rng xs _ _ (absent t) q = absurd cc
answer_set rng xs _ _ full q = absurd cc
answer_set rng xs _ _ (marked f) q = (f, refl)

answer_not_set :
    (rng : Range) (xs : List RangeElem) (b : BeginRes) (ys : List RangeElem)
    → BeginAnswer rng xs b ys
    → b ≢ set
    → ys ≡ xs
answer_not_set rng xs _ _ (absent t) n = refl
answer_not_set rng xs _ _ full n = refl
answer_not_set rng xs _ _ (marked f) n = absurd (n refl)

module _ (xs : List RangeElem) where
  begun-IsMarked :
      (rngs : List Range) (zs ys : List RangeElem) (rng : Range)
      → IsMarked xs (record { rngs = rngs; elems = zs })
      → begin_read_elems rng zs ≡ some (set, ys)
      → IsMarked xs (record { rngs = rng ∷ rngs; elems = ys })
  begun-IsMarked rngs zs ys rng w h =
      let (f, q) = answer_set rng zs set ys (answer_of rng zs set ys h) refl in
      let same : find_full_range zs rng ≡ find_full_range xs rng =
        ap (λ l. find_full_range l rng) w.marks ∙ find_full_range-raises rngs xs rng in
      let f' : is_none (find_full_range xs rng) ≡ false = rw same at f in
      let q' : ys ≡ raise (find_full_range xs rng).first (cnt_of (find_full_range xs rng)) zs =
        rw same at q in
      record {
        present = Pick-cons (λ r. is_none (find_full_range xs r) ≡ false) rng rngs f' w.present;
        marks =
            q'
            ∙ ap (raise (find_full_range xs rng).first (cnt_of (find_full_range xs rng))) w.marks;
      }

  ended-IsMarked :
      (rngs rest : List Range) (zs ys : List RangeElem) (rng : Range) (b : Bool)
      → Pick rng rngs rest
      → IsMarked xs (record { rngs = rngs; elems = zs })
      → end_read_elems rng zs ≡ some (b, ys)
      → IsMarked xs (record { rngs = rest; elems = ys })
  ended-IsMarked rngs rest zs ys rng b p w h =
      let e = end_read_elems-raises xs (w.present rng rest p) p in
      let h' : end_read_elems rng (raises rngs xs) ≡ some (b, ys) =
        ap (end_read_elems rng) (sym w.marks) ∙ h in
      let q : ys ≡ raises rest xs = cc in
      record { present = λ r l k. let (l', k') = Pick-rest p r l k in w.present r l' k'; marks = q }

  step-IsMarked : {s s' : Readers} → IsMarked xs s → ReadStep s s' → IsMarked xs s'
  step-IsMarked w (begun rng h) = begun-IsMarked _ _ _ rng w h
  step-IsMarked w (refused rng b n h) =
      let q = answer_not_set rng _ b _ (answer_of rng _ b _ h) n in
      record { present = w.present; marks = q ∙ w.marks }
  step-IsMarked w (ended rng b p h) = ended-IsMarked _ _ _ _ rng b p w h

  run-IsMarked : {s : Readers} → ReadRun (record { rngs = []; elems = xs }) s → IsMarked xs s
  run-IsMarked at_start = record { present = λ rng rest p. elim p [ ]; marks = refl }
  run-IsMarked (next r s) = step-IsMarked (run-IsMarked r) s

-- After any interleaving of begins and ends of reads of one object that starts without readers,
-- the elements are those of the start with the marks of the readers that are left: these decide
-- alone, not the order of the steps, and without readers the elements are as at the start. The
-- end of each reader that is left finds its range and does not abort.
pub ReadRun-raises :
    (xs : List RangeElem) (s : Readers)
    → ReadRun (record { rngs = []; elems = xs }) s
    → (s.elems ≡ raises s.rngs xs)
      × ((rng : Range) (rest : List Range)
          → Pick rng s.rngs rest
          → end_read_elems rng s.elems ≡ some (true, raises rest xs))
ReadRun-raises xs s r =
    let w = run-IsMarked xs r in
    (
      w.marks,
      λ rng rest p.
          ap (end_read_elems rng) w.marks ∙ end_read_elems-raises xs (w.present rng rest p) p,
    )
