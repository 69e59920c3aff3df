-- ===== src/RangeElem/Readers.antt =====
-- The readers' counter of a range_elem.
use cache_work.Prelude.{false, ◌<◌, ◌≡◌, true, false, some, none, arith}
use cache_work.RangeElem.{RangeElem, inc_readers, dec_readers, has_readers, max_cnt_readers}

-- Below the limit of readers, counting one succeeds, and uncounting it gives the element back.
pub dec_readers-inc_readers :
    (e : RangeElem)
    → e.cnt_readers < max_cnt_readers
    → ((inc_readers e).0 ≡ true)
      × (has_readers (inc_readers e).1 ≡ true)
      × (dec_readers (inc_readers e).1 ≡ some e)
unfolding inc_readers dec_readers has_readers
dec_readers-inc_readers e h = ground arith

pub inc_readers_limit :
    (e : RangeElem) → e.cnt_readers ≡ max_cnt_readers → inc_readers e ≡ (false, e)
unfolding inc_readers
inc_readers_limit e h = ground arith

pub dec_readers-none : (e : RangeElem) → e.cnt_readers ≡ 0 → dec_readers e ≡ none
unfolding dec_readers
dec_readers-none e h = ground arith
