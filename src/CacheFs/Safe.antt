-- ===== src/CacheFs/Safe.antt =====
-- The two copies of the metadata of a volume while it is saved, and the choice of a load between them.
use cache_work.Prelude.{
  ℕ, ◌+◌, ◌%◌, ◌^◌, ◌<◌, ◌≡◌, ◌⊎◌, inl, inr, refl, sym, subst, ap, ◌∙◌, true, false, ◌==◌,
  Bool-cases, none, some, arith,
}
use cache_work.FsMetadata.{FsMetadataHdr, is_current, Copy, all_current, choose_copy}
use cache_work.FsMetadata.Copies.{IsOurs, IsWhole}
use cache_work.CacheFs.{
  DiskCopy, seen, Saving, idle, prepared, part_written, all_written, Volume, md_copy, put_md_copy,
  chosen, IsNoFooter,
}

pub md_copy-put_md_copy : (n : ℕ) (c : DiskCopy) (v : Volume) → md_copy n (put_md_copy n c v) ≡ c
unfolding md_copy put_md_copy
md_copy-put_md_copy n c v = elim (Bool-cases (n % 2 == 0)) [ inl t ↦ rw t refl | inr f ↦ rw f refl ]

pub md_copy-put_other :
    (n m : ℕ) (c : DiskCopy) (v : Volume)
    → m % 2 ≡ (n + 1) % 2
    → md_copy n (put_md_copy m c v) ≡ md_copy n v
unfolding md_copy put_md_copy
md_copy-put_other n m c v h = elim (Bool-cases (n % 2 == 0)) [
  | inl t ↦ let f : (m % 2 == 0) ≡ false = ground arith in rw (t, f) refl
  | inr f ↦ let t : (m % 2 == 0) ≡ true = ground arith in rw (f, t) refl
]

pub md_copy-parity : (n m : ℕ) (v : Volume) → n % 2 ≡ m % 2 → md_copy n v ≡ md_copy m v
unfolding md_copy
md_copy-parity n m v h = rw h refl

pub copies_even :
    (n : ℕ) (v : Volume)
    → (n % 2 == 0) ≡ true
    → (md_copy n v ≡ v.copy_a) × (md_copy (n + 1) v ≡ v.copy_b)
unfolding md_copy
copies_even n v t = let f : ((n + 1) % 2 == 0) ≡ false = ground arith in (rw t refl, rw f refl)

pub copies_odd :
    (n : ℕ) (v : Volume)
    → (n % 2 == 0) ≡ false
    → (md_copy n v ≡ v.copy_b) × (md_copy (n + 1) v ≡ v.copy_a)
unfolding md_copy
copies_odd n v f = let t : ((n + 1) % 2 == 0) ≡ true = ground arith in (rw f refl, rw t refl)

pub choose_copy-none : (a b : Copy) → all_current a b ≡ false → choose_copy a b ≡ none
unfolding choose_copy
choose_copy-none a b h = rw h refl

pub torn-chosen :
    (n : ℕ) (v : Volume) → is_current (seen (md_copy (n + 1) v)).ftr ≡ false → chosen v ≡ none
torn-chosen n v h = elim (Bool-cases (n % 2 == 0)) [
  | inl t ↦
      let (_, b) = copies_even n v t in
      let f : is_current (seen v.copy_b).ftr ≡ false =
        ap (λ d. is_current (seen d).ftr) (sym b) ∙ h in
      choose_copy-none (seen v.copy_a) (seen v.copy_b) (ground (arith, f))
  | inr e ↦
      let (_, a) = copies_odd n v e in
      let f : is_current (seen v.copy_a).ftr ≡ false =
        ap (λ d. is_current (seen d).ftr) (sym a) ∙ h in
      choose_copy-none (seen v.copy_a) (seen v.copy_b) (ground (arith, f))
]

module _ (uuid : ℕ) where
  -- A copy whose ends have the serial number `n`.
  pub record IsGood (n : ℕ) (c : DiskCopy) : Type 0 where
    pub ours : IsOurs uuid c.hdr × IsOurs uuid (seen c).ftr
    pub whole : IsWhole n (seen c)

  -- The other copy: a whole one that is older, or one that a save with the next serial number has
  -- begun to overwrite.
  abbrev pub IsOld : ℕ → DiskCopy → Type 0
  IsOld n c = (m : ℕ) × IsGood m c × ((m < n) ⊎ ((n ≡ 0) × (m ≡ 0)))

  abbrev pub IsTorn : ℕ → DiskCopy → Type 0
  IsTorn n c = IsOurs uuid c.hdr × (c.hdr.sync_serial ≡ n + 1) × IsNoFooter c.hdr (seen c).ftr

  -- The header in memory has the serial number `n`, or the next one during a save.
  abbrev pub Phase : ℕ → FsMetadataHdr → DiskCopy → Saving → Type 0
  Phase n h c idle = h.sync_serial ≡ n
  Phase n h c (prepared hdr offs) = (h.sync_serial ≡ n + 1) × (hdr ≡ h)
  Phase n h c (part_written hdr offs) =
      (h.sync_serial ≡ n + 1) × (hdr ≡ h) × (c.hdr ≡ hdr) × (c.ftr_offs ≡ offs)
  Phase n h c all_written = h.sync_serial ≡ n

  pub record IsSafe (n : ℕ) (v : Volume) : Type 0 where
    pub good : IsGood n (md_copy n v)
    pub other : IsOld n (md_copy (n + 1) v) ⊎ IsTorn n (md_copy (n + 1) v)
    pub ours : IsOurs uuid v.md.hdr
    pub width : n < 2 ^ 32
    pub md_width : v.md.hdr.sync_serial < 2 ^ 32
    pub phase : Phase n v.md.hdr (md_copy (n + 1) v) v.saving

  -- What a load may find.
  abbrev pub Choice : ℕ → Volume → Type 0
  Choice n v = (chosen v ≡ some (n % 2)) ⊎ ((chosen v ≡ none) × IsTorn n (md_copy (n + 1) v))

  -- A footer that is of this file system is not that of the save.
  torn-ends :
      (n : ℕ) (o : DiskCopy)
      → IsTorn n o
      → is_current (seen o).ftr ≡ true
      → (o.hdr.uuid == (seen o).ftr.uuid) ≡ true
      → (o.hdr.sync_serial == (seen o).ftr.sync_serial) ≡ false
  torn-ends n o (w, e, absent) cur same =
      elim (Bool-cases (o.hdr.sync_serial == (seen o).ftr.sync_serial)) [
        | inl t ↦ elim (absent (cur, ground (arith, same), ground (arith, t))) [ ]
        | inr f ↦ f
      ]

  even-Choice :
      (n : ℕ) (c o : DiskCopy)
      → n % 2 ≡ 0
      → IsGood n c
      → (IsOld n o ⊎ IsTorn n o)
      → (choose_copy (seen c) (seen o) ≡ some (n % 2))
        ⊎ ((choose_copy (seen c) (seen o) ≡ none) × IsTorn n o)
  unfolding choose_copy
  even-Choice n c o h good other = elim (Bool-cases (all_current (seen c) (seen o))) [
    | inr f ↦ elim other [
      | inl (m, g, lt) ↦ let w = good.ours in let x = g.ours in ground (arith, w, x, f)
      | inr torn ↦ inr (choose_copy-none (seen c) (seen o) f, torn)
    ]
    | inl t ↦ inl (elim other [
      | inl (m, g, lt) ↦
          let w = good.whole in let x = g.whole in rw (t, h) (ground (arith, w, x, lt))
      | inr (a, b, absent) ↦
          let w = good.whole in
          let e = torn-ends n o (a, b, absent) (ground (arith, t)) (ground (arith, t)) in
          rw (t, h) (ground (arith, w, b, e))
    ])
  ]

  odd-Choice :
      (n : ℕ) (c o : DiskCopy)
      → n % 2 ≡ 1
      → IsGood n c
      → (IsOld n o ⊎ IsTorn n o)
      → (choose_copy (seen o) (seen c) ≡ some (n % 2))
        ⊎ ((choose_copy (seen o) (seen c) ≡ none) × IsTorn n o)
  unfolding choose_copy
  odd-Choice n c o h good other = elim (Bool-cases (all_current (seen o) (seen c))) [
    | inr f ↦ elim other [
      | inl (m, g, lt) ↦ let w = good.ours in let x = g.ours in ground (arith, w, x, f)
      | inr torn ↦ inr (choose_copy-none (seen o) (seen c) f, torn)
    ]
    | inl t ↦ inl (elim other [
      | inl (m, g, lt) ↦
          let w = good.whole in let x = g.whole in rw (t, h) (ground (arith, w, x, lt))
      | inr (a, b, absent) ↦
          let w = good.whole in
          let e = torn-ends n o (a, b, absent) (ground (arith, t)) (ground (arith, t)) in
          rw (t, h) (ground (arith, w, b, e))
    ])
  ]

  pub IsSafe-Choice : (n : ℕ) (v : Volume) → IsSafe n v → Choice n v
  IsSafe-Choice n v s = elim (Bool-cases (n % 2 == 0)) [
    | inl t ↦
        let (a, b) = copies_even n v t in
        subst (λ o. (chosen v ≡ some (n % 2)) ⊎ ((chosen v ≡ none) × IsTorn n o)) (sym b)
          (even-Choice n v.copy_a v.copy_b (ground (arith, t)) (subst (IsGood n) a s.good)
            (subst (λ o. IsOld n o ⊎ IsTorn n o) b s.other))
    | inr f ↦
        let (b, a) = copies_odd n v f in
        subst (λ o. (chosen v ≡ some (n % 2)) ⊎ ((chosen v ≡ none) × IsTorn n o)) (sym a)
          (odd-Choice n v.copy_b v.copy_a (ground (arith, f)) (subst (IsGood n) b s.good)
            (subst (λ o. IsOld n o ⊎ IsTorn n o) a s.other))
  ]
