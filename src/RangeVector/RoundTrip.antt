-- ===== src/RangeVector/RoundTrip.antt =====
-- A vector that is saved and loaded again.
use cache_work.Prelude.{
  ℕ, zero, suc, ◌+◌, ◌-◌, ◌*◌, ◌^◌, ◌≤◌, ◌<◌, ◌≡◌, refl, ap, sym, ◌∙◌, inl, inr, true, false, ◌&&◌,
  ltb, leb, ◌==◌, Bool-cases, if◌then◌else◌, some, ◌>>=◌, List, [], ◌∷◌, ◌++◌, length,
  length-append, take, drop, take-append, drop-append, get_or-append_after, get_or, arith,
}
use mathlib.Core.Path.{fun_ext}
use mathlib.Core.List.{append_assoc}
use native.Mathlib.Nat.{add_assoc}
use cache_work.Units.{u32}
use cache_work.Bytes.{Memory, write_bytes, le_bytes, of_le_bytes}
use cache_work.Bytes.Writes.{write-eq}
use cache_work.Bytes.Streams.{MemoryWriter, write, read_disk}
use cache_work.RangeElem.{RangeElem, elem_mark}
use cache_work.RangeElem.Stored.{
  range_elem_bytes, IsWide, length-range_elem_bytes, elem_of_bytes-range_elem_bytes,
}
use cache_work.RangeVector.{RangeVector, single, heap, elems, size, max_ranges}
use cache_work.RangeVector.Sorted.{IsValid}
use cache_work.RangeVector.Stored.{
  data_magic, block_bytes, elems_of_bytes, container_bytes, save_vec, load_block, load_vec,
}

get_or-append_first :
    (xs ys : List ℕ) (k : ℕ) → k < length xs → get_or (xs ++ ys) k 0 ≡ get_or xs k 0
get_or-append_first [] ys k h = absurd (omega arith)
get_or-append_first (x ∷ xs) ys zero h = refl
get_or-append_first (x ∷ xs) ys (suc k) h = get_or-append_first xs ys k (omega arith)

write_bytes-append :
    (pos : ℕ) (a b : List ℕ) (m : Memory)
    → write_bytes (pos + length a) b (write_bytes pos a m) ≡ write_bytes pos (a ++ b) m
unfolding write_bytes
write_bytes-append pos a b m = fun_ext λ p. elim (Bool-cases (leb pos p)) [
  | inl below ↦ elim (Bool-cases (ltb p (pos + length a))) [
    | inl first ↦
        let t : leb (pos + length a) p ≡ false = ground arith in
        let u : ltb p (pos + length (a ++ b)) ≡ true = ground (arith, length-append a b) in
        rw (below, first, t, u) (sym (get_or-append_first a b (p - pos) (ground arith)))
    | inr behind ↦
        let t : leb (pos + length a) p ≡ true = ground arith in
        let u : ltb p (pos + length (a ++ b)) ≡ ltb p (pos + length a + length b) =
          ap (ltb p) (omega (arith, length-append a b)) in
        let q : p - pos ≡ length a + (p - (pos + length a)) = ground arith in
        rw (below, behind, t, u)
          (ap (λ (x : ℕ). if ltb p (pos + length a + length b) then x else m p)
            (sym (
              ap (λ (k : ℕ). get_or (a ++ b) k 0) q
              ∙ get_or-append_after a b (p - (pos + length a)) 0)))
  ]
  | inr before ↦ let t : leb (pos + length a) p ≡ false = ground arith in rw (before, t) refl
]

-- Two writes one after the other are one.
pub write-append :
    (a b : List ℕ) (w : MemoryWriter)
    → w.buf_offs + length a + length b ≤ w.buf_size
    → (write a w >>= write b) ≡ write (a ++ b) w
write-append a b w h =
    let w1 : MemoryWriter = record w {
      buf = write_bytes w.buf_offs a w.buf;
      buf_offs = w.buf_offs + length a;
    } in
    let first : write a w ≡ some w1 = write-eq a w (omega arith) in
    let second = write-eq b w1 (omega arith) in
    let both = write-eq (a ++ b) w (omega (arith, length-append a b)) in
    rw (first, second, both, write_bytes-append w.buf_offs a b w.buf, length-append a b, add_assoc)
      refl

pub read_disk-append :
    (n : ℕ) (a rest : List ℕ) → length a ≡ n → read_disk n (a ++ rest) ≡ some (a, rest)
unfolding read_disk
read_disk-append n a rest h =
    let le : leb n (length (a ++ rest)) ≡ true = ground (arith, length-append a rest) in
    rw (le, take-append n a rest h, drop-append n a rest h) refl

length-block_bytes : (xs : List RangeElem) → length (block_bytes xs) ≡ length xs * 16
unfolding block_bytes
length-block_bytes [] = refl
length-block_bytes (x ∷ xs) = omega (
  arith,
  length-append (range_elem_bytes x) (block_bytes xs),
  length-range_elem_bytes x,
  length-block_bytes xs,
)

-- The members of the elements are in the range of their types.
abbrev pub AllWide : List RangeElem → Type 0
AllWide [] = true ≡ true
AllWide (x ∷ xs) = IsWide x × AllWide xs

elems_of_bytes-block_bytes :
    (xs : List RangeElem) → AllWide xs → elems_of_bytes (length xs) (block_bytes xs) ≡ xs
unfolding block_bytes elems_of_bytes
elems_of_bytes-block_bytes [] w = refl
elems_of_bytes-block_bytes (x ∷ xs) w =
    rw
      (
        take-append 16 (range_elem_bytes x) (block_bytes xs) (length-range_elem_bytes x),
        drop-append 16 (range_elem_bytes x) (block_bytes xs) (length-range_elem_bytes x),
        elem_of_bytes-range_elem_bytes x w.0,
        elems_of_bytes-block_bytes xs w.1,
      )
      refl

-- What save writes.
pub vec_bytes : (ptr : RangeVector → ℕ) → RangeVector → List ℕ
vec_bytes ptr (single e) = range_elem_bytes e
vec_bytes ptr (heap alloc xs) =
    container_bytes (u32 (length xs)) (ptr (heap alloc xs)) ++ block_bytes xs

pub save_vec-write :
    (ptr : RangeVector → ℕ) (v : RangeVector) (w : MemoryWriter)
    → w.buf_offs + length (vec_bytes ptr v) ≤ w.buf_size
    → save_vec ptr v w ≡ write (vec_bytes ptr v) w
unfolding save_vec vec_bytes
save_vec-write ptr (single e) w h = refl
save_vec-write ptr (heap alloc xs) w h =
    write-append (container_bytes (u32 (length xs)) (ptr (heap alloc xs))) (block_bytes xs) w (
      omega (
        arith,
        length-append (container_bytes (u32 (length xs)) (ptr (heap alloc xs))) (block_bytes xs),
      ))

-- A single element stands in place with its mark.
abbrev pub IsMarked : RangeVector → Type 0
IsMarked (single e) = e.mark ≡ elem_mark
IsMarked (heap alloc xs) = true ≡ true

length-container_bytes : (n p : ℕ) → length (container_bytes n p) ≡ 16
unfolding container_bytes le_bytes
length-container_bytes n p = refl

container_magic : (n p : ℕ) → of_le_bytes (take 4 (container_bytes n p)) ≡ data_magic
unfolding container_bytes le_bytes of_le_bytes
container_magic n p = refl

container_size : (n p : ℕ) → n < 2 ^ 32 → of_le_bytes (take 4 (drop 4 (container_bytes n p))) ≡ n
unfolding container_bytes le_bytes of_le_bytes
container_size n p h = omega arith

elem_no_magic :
    (e : RangeElem)
    → e.mark ≡ elem_mark
    → (of_le_bytes (take 4 (range_elem_bytes e)) == data_magic) ≡ false
unfolding range_elem_bytes le_bytes of_le_bytes
elem_no_magic e h = ground (arith, h)

elem_marked :
    (e : RangeElem)
    → e.mark ≡ elem_mark
    → (of_le_bytes (take 1 (range_elem_bytes e)) == elem_mark) ≡ true
unfolding range_elem_bytes le_bytes of_le_bytes
elem_marked e h = ground (arith, h)

load_block-block_bytes :
    (xs : List RangeElem) (rest : List ℕ)
    → 1 < length xs
    → length xs ≤ max_ranges
    → AllWide xs
    → load_block (length xs) (block_bytes xs ++ rest) ≡ some (true, heap (length xs) xs, rest)
unfolding load_block
load_block-block_bytes xs rest more few wide =
    let t : (ltb 1 (length xs) && leb (length xs) max_ranges) ≡ true = ground arith in
    rw
      (
        t,
        read_disk-append (length xs * 16) (block_bytes xs) rest (length-block_bytes xs),
        elems_of_bytes-block_bytes xs wide,
      )
      refl

-- load reads back what save wrote, and no more.
pub load_vec-vec_bytes :
    (ptr : RangeVector → ℕ) (v : RangeVector) (rest : List ℕ)
    → IsValid v
    → IsMarked v
    → AllWide (elems v)
    → 0 < length (elems v)
    → load_vec (vec_bytes ptr v ++ rest) ≡ some (true, v, rest)
unfolding load_vec vec_bytes
load_vec-vec_bytes ptr (single e) rest valid m wide n =
    rw
      (
        read_disk-append 16 (range_elem_bytes e) rest (length-range_elem_bytes e),
        elem_no_magic e m,
        elem_marked e m,
        elem_of_bytes-range_elem_bytes e wide.0,
      )
      refl
load_vec-vec_bytes ptr (heap alloc xs) rest valid m wide n =
    let c : List ℕ = container_bytes (u32 (length xs)) (ptr (heap alloc xs)) in
    let small : u32 (length xs) ≡ length xs = omega (arith, valid.2) in
    let assoc = append_assoc c (block_bytes xs) rest in
    rw
      (
        assoc,
        read_disk-append 16 c (block_bytes xs ++ rest) (length-container_bytes _ _),
        container_magic (u32 (length xs)) (ptr (heap alloc xs)),
        container_size (u32 (length xs)) (ptr (heap alloc xs)) (omega arith),
        small,
      )
      (load_block-block_bytes xs rest (ground (arith, valid.1)) valid.2 wide
        ∙ ap (λ k. some (true, heap k xs, rest)) (sym valid.0))

pub length-vec_bytes :
    (ptr : RangeVector → ℕ) (v : RangeVector)
    → IsValid v
    → length (vec_bytes ptr v) ≡ 16 + (if size v == 1 then 0 else size v) * 16
unfolding vec_bytes
length-vec_bytes ptr (single e) h = length-range_elem_bytes e
length-vec_bytes ptr (heap alloc xs) h =
    let c : List ℕ = container_bytes (u32 (length xs)) (ptr (heap alloc xs)) in
    let l : length (c ++ block_bytes xs) ≡ 16 + length xs * 16 = omega (
      arith,
      length-append c (block_bytes xs),
      length-container_bytes (u32 (length xs)) (ptr (heap alloc xs)),
      length-block_bytes xs,
    ) in
    let t : (length xs == 1) ≡ false = ground (arith, h.1) in rw t l
