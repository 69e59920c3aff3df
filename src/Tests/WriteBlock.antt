-- ===== src/Tests/WriteBlock.antt =====
-- The theorems on the block of the writer, at a block with one fragment.
use cache_work.Prelude.{
  ℕ, zero, suc, ◌+◌, ◌%◌, ◌≤◌, ◌<◌, ◌≡◌, ◌⊎◌, ◌↔◌, inr, refl, Bool, true, false, some, List, [],
  ◌∷◌, take, arith,
}
use cache_work.Units.{
  object_frag_size, object_frag_hdr_size, set_from_bytes, ranges_overlap, in_range,
}
use cache_work.Range.{Range}
use cache_work.RangeElem.{
  RangeElem, rng_offset, rng_size, rng_end_offset, disk_offset, make_range_elem, set_rng_offset,
  set_rng_size, set_disk_offset, reset_meta,
}
use cache_work.RangeElem.Fields.{IsSound}
use cache_work.Bytes.{read_bytes}
use cache_work.Bytes.Streams.{MemoryReader, MemoryWriter}
use cache_work.AggWriteMeta.{
  AggMetaEntry, AggWriteMeta, entry_at, has_meta_entry, same_entry, entry_bound, entry_less,
  overlap, add_meta_entry, add_meta_at,
}
use cache_work.AggWriteMeta.Order.{IsApart}
use cache_work.AggWriteMeta.Members.{IsMember, has_meta_entry_iff}
use cache_work.AggWriteMeta.Stored.{is_sorted, save, load}
use cache_work.AggWriteMeta.RoundTrip.{
  AreWide, no_entries, entry, save-load, LoadAnswer, load_total,
}
use cache_work.AggWriteBlock.{
  AggWriteBlock, FailRes, add_fragment, try_read_fragment, frag_bytes, create_hdr, add_blocks,
  put_fragment, begin_disk_write,
}
use cache_work.AggWriteBlock.Placed.{IsPlaced, ArePlaced, frag_blocks, first_block, end_block}
use cache_work.AggWriteBlock.Adding.{CanAdd, FragAnswer, with_fragment, add_fragment-IsPlaced}
use cache_work.AggWriteBlock.Reading.{add_fragment-try_read_fragment, add_fragment_keeps}
use cache_work.AggWriteBlock.Writing.{meta_reader, begin_disk_write-load}

-- A checksum.
abbrev pub sum_bytes : ℕ → List ℕ → ℕ
sum_bytes s [] = s
sum_bytes s (b ∷ bs) = sum_bytes (s + b) bs

-- The block is to be written at volume block 4096; its fragment lies behind the metadata.
abbrev pub first_elem : RangeElem
first_elem = record {
  mark = 0;
  cnt_readers = 0;
  rng_size_lo = 1000;
  rng_offset_lo = 10000;
  disk_offset_lo = 4104;
  rng_size_hi = 0;
  rng_offset_hi = 0;
  disk_offset_hi = 0;
  in_memory = false;
}

abbrev pub one_entry : List AggMetaEntry
one_entry = record { rng = first_elem; key = 7 } ∷ []

abbrev pub one_meta : AggWriteMeta
one_meta = record { entries = one_entry; max_cnt_entries = 127 }

abbrev pub one_block : AggWriteBlock
one_block = record {
  block_meta = one_meta;
  block_data = λ p. 0;
  buff_pos = 10;
  pending_disk_write = false;
}

abbrev pub new_range : Range
new_range = record { beg = 0; len = 3 }

abbrev pub new_frag : List ℕ
new_frag = 1 ∷ 2 ∷ 3 ∷ []

first_elem-IsSound : IsSound first_elem
unfolding rng_offset rng_size
first_elem-IsSound = record {
  size_lo = omega arith;
  size_hi = omega arith;
  offset_lo = omega arith;
  offset_hi = omega arith;
  disk_lo = omega arith;
  disk_hi = omega arith;
  nonempty = omega arith;
  fits = omega arith;
  starts = omega arith;
}

at_one :
    (P : AggMetaEntry → Type 0)
    → P (record { rng = first_elem; key = 7 })
    → (i : ℕ) → i < 1
    → P (entry_at one_entry i)
at_one P h zero b = h
at_one P h (suc i) b = absurd (omega arith)

first_elem-nonempty : rng_offset first_elem < rng_end_offset first_elem
unfolding rng_offset rng_end_offset rng_size
first_elem-nonempty = omega arith

one_entry-IsApart : IsApart one_entry
one_entry-IsApart = record {
  nonempty = λ i b. at_one (λ e. rng_offset e.rng < rng_end_offset e.rng) first_elem-nonempty i b;
  ordered = λ i j l b. absurd (omega arith);
}

first_elem_inside :
    (4096 + 8 ≤ disk_offset first_elem)
    × (disk_offset first_elem + frag_blocks (rng_size first_elem) ≤ 4096 + 10)
unfolding disk_offset rng_size object_frag_size
first_elem_inside = (omega arith, omega arith)

one_entry-ArePlaced : ArePlaced 4096 10 one_entry
one_entry-ArePlaced = record {
  sound = λ i b. at_one (λ e. IsSound e.rng) first_elem-IsSound i b;
  inside = λ i b.
      at_one (λ e. (4096 + 8 ≤ first_block e) × (end_block e ≤ 4096 + 10)) first_elem_inside i b;
  disjoint = λ i j l b. absurd (omega arith);
}

pub one_block-IsPlaced : IsPlaced 4096 one_block
one_block-IsPlaced = record {
  apart = one_entry-IsApart;
  behind_meta = omega arith;
  fits = omega arith;
  placed = one_entry-ArePlaced;
}

pub new_frag-CanAdd : CanAdd 4096 new_range new_frag one_block
new_frag-CanAdd = record {
  idle = refl;
  same_len = refl;
  some_data = omega arith;
  not_too_big = omega arith;
  in_object = omega arith;
  behind_skip = omega arith;
  in_volume = omega arith;
}

pub one_entry-AreWide : AreWide one_entry
one_entry-AreWide =
    entry
      (record {
        mark_wide = omega arith;
        readers_wide = omega arith;
        size_lo_wide = omega arith;
        offset_lo_wide = omega arith;
        disk_lo_wide = omega arith;
        size_hi_wide = omega arith;
        offset_hi_wide = omega arith;
        disk_hi_wide = omega arith;
      })
      (omega arith) no_entries

first_entry_found : has_meta_entry 7 first_elem one_meta ≡ true
unfolding has_meta_entry entry_bound entry_less same_entry
first_entry_found = (has_meta_entry_iff 7 first_elem one_meta one_entry-IsApart).1 (
  0,
  omega arith,
  record { same_key = refl; same_offset = refl; same_size = refl; same_disk = refl },
)

has_meta_entry_iff_example :
    (has_meta_entry 7 first_elem one_meta ≡ true) ↔ IsMember 7 first_elem one_entry
has_meta_entry_iff_example = has_meta_entry_iff 7 first_elem one_meta one_entry-IsApart

add_fragment-IsPlaced_example :
    (r : FailRes ⊎ RangeElem) × (b' : AggWriteBlock) × (add_fragment sum_bytes 1 7 new_range 4096
        new_frag one_block
      ≡ some (r, b'))
    × FragAnswer sum_bytes 1 4096 7 new_range new_frag one_block r b'
    × IsPlaced 4096 b'
add_fragment-IsPlaced_example =
    add_fragment-IsPlaced sum_bytes 1 4096 7 new_range new_frag one_block new_frag-CanAdd
      one_block-IsPlaced

abbrev new_elem : RangeElem
new_elem = record first_elem { rng_size_lo = 3; rng_offset_lo = 0; disk_offset_lo = 4106 }

abbrev two_block : AggWriteBlock
two_block = with_fragment sum_bytes 1 7 new_elem new_frag 0 one_block

new_frag_added :
    add_fragment sum_bytes 1 7 new_range 4096 new_frag one_block ≡ some (inr new_elem, two_block)
unfolding add_fragment add_blocks put_fragment frag_bytes create_hdr add_meta_entry add_meta_at
    entry_bound entry_less overlap make_range_elem set_rng_offset set_rng_size set_disk_offset
    reset_meta set_from_bytes object_frag_size rng_offset rng_end_offset rng_size ranges_overlap
    in_range
new_frag_added = refl

add_fragment-try_read_fragment_example :
    (bs : List ℕ) × (try_read_fragment 7 new_elem 4096 (object_frag_size 3) two_block
      ≡ some (some bs))
    × (take (object_frag_hdr_size + 3) bs ≡ frag_bytes sum_bytes 1 7 new_elem new_frag)
add_fragment-try_read_fragment_example =
    add_fragment-try_read_fragment sum_bytes 1 4096 7 new_range new_frag one_block new_frag-CanAdd
      one_block-IsPlaced new_elem two_block new_frag_added

add_fragment_keeps_example :
    try_read_fragment 7 first_elem 4096 (object_frag_size (rng_size first_elem)) two_block
    ≡ try_read_fragment 7 first_elem 4096 (object_frag_size (rng_size first_elem)) one_block
add_fragment_keeps_example =
    add_fragment_keeps sum_bytes 1 4096 7 new_range new_frag one_block new_frag-CanAdd
      one_block-IsPlaced (inr new_elem) two_block new_frag_added 7 first_elem first_entry_found

begin_disk_write-load_example :
    (bytes : List ℕ) × (b' : AggWriteBlock) × (begin_disk_write one_block ≡ some (bytes, b'))
    × (b'.pending_disk_write ≡ true)
    × (load one_meta (meta_reader b') ≡ some (true, one_meta))
    × ((key : ℕ) (rng : RangeElem)
        → has_meta_entry key rng one_meta ≡ true
        → try_read_fragment key rng 4096 (object_frag_size (rng_size rng)) b'
          ≡ try_read_fragment key rng 4096 (object_frag_size (rng_size rng)) one_block)
begin_disk_write-load_example =
    begin_disk_write-load 4096 one_block one_meta one_block-IsPlaced (omega arith) one_entry-AreWide
      (omega arith) (omega arith)

abbrev page_writer : MemoryWriter
page_writer = record { buf = λ p. 0; buf_offs = 100; buf_size = 4096 }

save-load_example :
    (w' : MemoryWriter) × (save one_meta page_writer ≡ some w')
    × (w'.buf_offs ≡ 152)
    × (load one_meta (record { buf = w'.buf; buf_offs = 100; buf_size = 4096 })
        ≡ some (true, one_meta))
    × ((n at : ℕ) → w'.buf_offs ≤ at → read_bytes n at w'.buf ≡ read_bytes n at (λ p. 0))
save-load_example =
    save-load one_meta one_meta page_writer (omega arith) (omega arith) one_entry-AreWide sorted
      (omega arith)
  where
    sorted : is_sorted one_entry ≡ true
    sorted = unfold is_sorted in refl

abbrev page_reader : MemoryReader
page_reader = record { buf = λ p. p % 256; buf_offs = 12; buf_size = 4096 }

load_total_example :
    (a : Bool × AggWriteMeta) × (load one_meta page_reader ≡ some a) × LoadAnswer one_meta a
load_total_example = load_total one_meta page_reader (omega arith)
