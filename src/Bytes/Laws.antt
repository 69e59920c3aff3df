-- ===== src/Bytes/Laws.antt =====
-- Reads of what was written, and of what was not.
use cache_work.Prelude.{
  ℕ, zero, suc, ◌+◌, ◌-◌, ◌*◌, ◌/◌, ◌%◌, ◌^◌, ◌≤◌, ◌<◌, ◌≡◌, ◌⊎◌, inl, inr, refl, List, [], ◌∷◌,
  ◌++◌, length, length-append, take, arith,
}
use native.Mathlib.Nat.{pow-succ'}
use cache_work.Bytes.{Memory, write_bytes, read_bytes, le_bytes, of_le_bytes, be_bytes, of_be_bytes}

pub length-read_bytes : (n pos : ℕ) (m : Memory) → length (read_bytes n pos m) ≡ n
unfolding read_bytes
length-read_bytes zero pos m = refl
length-read_bytes (suc n) pos m = omega (arith, length-read_bytes n (pos + 1) m)

-- Two blocks that agree on the bytes that are read.
pub read_bytes_ext :
    (n pos : ℕ) (m m' : Memory)
    → ((p : ℕ) → pos ≤ p → p < pos + n → m p ≡ m' p)
    → read_bytes n pos m ≡ read_bytes n pos m'
unfolding read_bytes
read_bytes_ext zero pos m m' h = refl
read_bytes_ext (suc n) pos m m' h =
    rw
      (
        h pos (omega arith) (omega arith),
        read_bytes_ext n (pos + 1) m m' (λ p a b. h p (omega arith) (omega arith)),
      )
      refl

pub write_bytes_outside :
    (pos : ℕ) (bs : List ℕ) (m : Memory) (p : ℕ)
    → (p < pos) ⊎ (pos + length bs ≤ p)
    → write_bytes pos bs m p ≡ m p
unfolding write_bytes
write_bytes_outside pos bs m p h = ground arith

pub read_bytes_disjoint :
    (n at pos : ℕ) (bs : List ℕ) (m : Memory)
    → (at + n ≤ pos) ⊎ (pos + length bs ≤ at)
    → read_bytes n at (write_bytes pos bs m) ≡ read_bytes n at m
read_bytes_disjoint n at pos bs m h = read_bytes_ext n at _ m (λ p a b.
    write_bytes_outside pos bs m p
      (elim h [ inl l ↦ inl (omega arith) | inr r ↦ inr (omega arith) ]))

write_bytes_cons :
    (pos b : ℕ) (bs : List ℕ) (m : Memory) (p : ℕ)
    → pos + 1 ≤ p
    → write_bytes pos (b ∷ bs) m p ≡ write_bytes (pos + 1) bs m p
unfolding write_bytes
write_bytes_cons pos b bs m p h =
    let q : p - pos ≡ suc (p - (pos + 1)) = omega arith in rw q (ground arith)

write_bytes_head : (pos b : ℕ) (bs : List ℕ) (m : Memory) → write_bytes pos (b ∷ bs) m pos ≡ b
unfolding write_bytes
write_bytes_head pos b bs m = let q : pos - pos ≡ 0 = omega arith in rw q (ground arith)

pub read_bytes-write_bytes :
    (pos : ℕ) (bs : List ℕ) (m : Memory) → read_bytes (length bs) pos (write_bytes pos bs m) ≡ bs
unfolding read_bytes
read_bytes-write_bytes pos [] m = refl
read_bytes-write_bytes pos (b ∷ bs) m =
    rw
      (
        write_bytes_head pos b bs m,
        read_bytes_ext (length bs) (pos + 1) (write_bytes pos (b ∷ bs) m)
            (write_bytes (pos + 1) bs m) (λ p h k. write_bytes_cons pos b bs m p h),
        read_bytes-write_bytes (pos + 1) bs m,
      )
      refl

pub read_bytes-append :
    (n k pos : ℕ) (m : Memory)
    → read_bytes (n + k) pos m ≡ read_bytes n pos m ++ read_bytes k (pos + n) m
unfolding read_bytes
read_bytes-append zero k pos m =
    let q : pos + 0 ≡ pos = omega arith in let z : 0 + k ≡ k = omega arith in rw (q, z) refl
read_bytes-append (suc n) k pos m =
    let q : pos + suc n ≡ pos + 1 + n = omega arith in
    let z : suc n + k ≡ suc (n + k) = omega arith in
    rw (q, z, read_bytes-append n k (pos + 1) m) refl

pub length-le_bytes : (n v : ℕ) → length (le_bytes n v) ≡ n
unfolding le_bytes
length-le_bytes zero v = refl
length-le_bytes (suc n) v = omega (arith, length-le_bytes n (v / 256))

pub of_le_bytes-le_bytes : (n v : ℕ) → v < 256 ^ n → of_le_bytes (le_bytes n v) ≡ v
unfolding le_bytes of_le_bytes
of_le_bytes-le_bytes zero v h = let q : 256 ^ 0 ≡ 1 = refl in omega arith
of_le_bytes-le_bytes (suc n) v h =
    let q : 256 ^ suc n ≡ 256 * 256 ^ n = pow-succ' 256 n in
    rw (of_le_bytes-le_bytes n (v / 256) (omega arith)) (omega arith)

of_be_bytes-append :
    (acc : ℕ) (bs : List ℕ) (b : ℕ)
    → of_be_bytes acc (bs ++ (b ∷ [])) ≡ of_be_bytes acc bs * 256 + b
unfolding of_be_bytes
of_be_bytes-append acc [] b = refl
of_be_bytes-append acc (x ∷ bs) b = of_be_bytes-append (acc * 256 + x) bs b

pub length-be_bytes : (n v : ℕ) → length (be_bytes n v) ≡ n
unfolding be_bytes
length-be_bytes zero v = refl
length-be_bytes (suc n) v =
    rw (length-append (be_bytes n (v / 256)) (v % 256 ∷ []), length-be_bytes n (v / 256))
      (omega arith)

pub of_be_bytes-be_bytes : (n v : ℕ) → v < 256 ^ n → of_be_bytes 0 (be_bytes n v) ≡ v
unfolding be_bytes
of_be_bytes-be_bytes zero v h = let q : 256 ^ 0 ≡ 1 = refl in unfold of_be_bytes in omega arith
of_be_bytes-be_bytes (suc n) v h =
    let q : 256 ^ suc n ≡ 256 * 256 ^ n = pow-succ' 256 n in
    rw
      (
        of_be_bytes-append 0 (be_bytes n (v / 256)) (v % 256),
        of_be_bytes-be_bytes n (v / 256) (omega arith),
      )
      (omega arith)

pub take-read_bytes :
    (k n pos : ℕ) (m : Memory) → k ≤ n → take k (read_bytes n pos m) ≡ read_bytes k pos m
unfolding read_bytes
take-read_bytes zero n pos m h = refl
take-read_bytes (suc k) zero pos m h = absurd (omega arith)
take-read_bytes (suc k) (suc n) pos m h = rw (take-read_bytes k n (pos + 1) m (omega arith)) refl
