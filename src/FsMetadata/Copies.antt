-- ===== src/FsMetadata/Copies.antt =====
-- The choice between the two copies of the metadata when a volume is loaded.
use cache_work.Prelude.{ℕ, ◌+◌, ◌-◌, ◌%◌, ◌^◌, ◌≤◌, ◌<◌, ◌≡◌, ◌⊎◌, inl, inr, true, some, arith}
use cache_work.FsMetadata.{FsMetadataHdr, is_current, Copy, all_current, choose_copy}

-- A header of this file system.
abbrev pub IsOurs : ℕ → FsMetadataHdr → Type 0
IsOurs uuid h = (is_current h ≡ true) × (h.uuid ≡ uuid)

-- Both ends of a copy have the serial number.
abbrev pub IsWhole : ℕ → Copy → Type 0
IsWhole n c = (c.hdr.sync_serial ≡ n) × (c.ftr.sync_serial ≡ n)

-- The other copy: it is older, or its header is already that of the next one, and its footer is not.
abbrev pub IsOther : ℕ → Copy → Type 0
IsOther n c =
    (c.ftr.sync_serial ≤ n)
    × ((c.hdr.sync_serial ≡ n + 1)
        ⊎ ((c.hdr.sync_serial ≡ c.ftr.sync_serial) × ((c.ftr.sync_serial < n) ⊎ (n ≡ 0))))

-- The copies on a disk where serial number `n` was the last to be written as a whole.
pub record IsDisk (uuid n : ℕ) (a b : Copy) : Type 0 where
  pub ours_a : IsOurs uuid a.hdr × IsOurs uuid a.ftr
  pub ours_b : IsOurs uuid b.hdr × IsOurs uuid b.ftr
  pub fresh : ((n % 2 ≡ 0) × IsWhole n a × IsOther n b) ⊎ ((n % 2 ≡ 1) × IsWhole n b × IsOther n a)

-- Where the headers and footers are of this file system and the other copy is older or was being
-- overwritten, the choice is the copy that was last written as a whole.
pub choose_copy-IsDisk :
    (uuid n : ℕ) (a b : Copy) → IsDisk uuid n a b → choose_copy a b ≡ some (n % 2)
unfolding choose_copy
choose_copy-IsDisk uuid n a b d =
    let ours : all_current a b ≡ true = ground (arith, d.ours_a, d.ours_b) in
    rw ours
      (elim d.fresh [ inl (p, w, o) ↦ rw p (ground arith) | inr (p, w, o) ↦ rw p (ground arith) ])

-- Where copy A has serial number 0 and copy B the largest one, both whole, the load takes B,
-- which was written before A.
pub choose_copy_overflow :
    (uuid : ℕ) (a b : Copy)
    → IsOurs uuid a.hdr × IsOurs uuid a.ftr
    → IsOurs uuid b.hdr × IsOurs uuid b.ftr
    → IsWhole 0 a
    → IsWhole (2 ^ 32 - 1) b
    → choose_copy a b ≡ some 1
unfolding choose_copy
choose_copy_overflow uuid a b m n w x =
    let ours : all_current a b ≡ true = ground (arith, m, n) in rw ours (ground arith)
