-- ===== src/CacheFs/Sync.antt =====
-- Saves, failures and crashes in any order: what a load finds.
use cache_work.Prelude.{
  ℕ, ◌+◌, ◌%◌, ◌^◌, ◌<◌, ◌≡◌, inl, inr, refl, sym, subst, ap, ◌∙◌, true, false, ◌==◌, Bool-cases,
  if◌then◌else◌, none, arith,
}
use cache_work.Units.{u32}
use cache_work.FsMetadata.{
  FsMetadataHdr, is_current, hdr_inc_sync_serial, hdr_dec_sync_serial, inc_sync_serial,
  dec_sync_serial,
}
use cache_work.FsMetadata.Copies.{IsOurs}
use cache_work.CacheFs.{
  DiskCopy, seen, Saving, prepared, part_written, all_written, Volume, md_copy, put_md_copy,
  start_sync, async_sync_metadata, write_part, write_footer, on_sync_end, on_sync_failed,
  load_volume, chosen, IsNoFooter, Step, changed, started, asked, first_part, next_part, last_part,
  finished, failed_first, failed, crashed, Run, done, then_step,
}
use cache_work.CacheFs.Safe.{
  md_copy-put_md_copy, md_copy-put_other, md_copy-parity, torn-chosen, IsGood, IsTorn, Phase,
  IsSafe, Choice, IsSafe-Choice,
}

module _ (uuid : ℕ) where
  put_other :
      (n : ℕ) (hdr : FsMetadataHdr) (c : DiskCopy) (v : Volume)
      → hdr.sync_serial ≡ n + 1
      → md_copy n (put_md_copy hdr.sync_serial c v) ≡ md_copy n v
  put_other n hdr c v e = md_copy-put_other n hdr.sync_serial c v (rw e refl)

  put_same :
      (n : ℕ) (hdr : FsMetadataHdr) (c : DiskCopy) (v : Volume)
      → hdr.sync_serial ≡ n + 1
      → md_copy (n + 1) (put_md_copy hdr.sync_serial c v) ≡ c
  put_same n hdr c v e = rw e (md_copy-put_md_copy (n + 1) c v)

  write_part-IsSafe :
      {n : ℕ} {v : Volume} (hdr : FsMetadataHdr) (offs : ℕ) (bytes : ℕ → FsMetadataHdr)
      → IsSafe uuid n v
      → v.md.hdr.sync_serial ≡ n + 1
      → hdr ≡ v.md.hdr
      → ((p : ℕ) → IsNoFooter hdr (bytes p))
      → IsSafe uuid n (write_part hdr offs bytes v)
  unfolding write_part md_copy put_md_copy
  write_part-IsSafe {n} {v} hdr offs bytes s e same free =
      let c : DiskCopy = record { hdr = hdr; ftr_offs = offs; ftr_at = bytes } in
      let serial : hdr.sync_serial ≡ n + 1 = ap (λ h. h.sync_serial) same ∙ e in
      let there = put_same n hdr c (record v { saving = part_written hdr offs }) serial in
      record {
        good =
            subst (IsGood uuid n)
              (sym (put_other n hdr c (record v { saving = part_written hdr offs }) serial)) s.good;
        other = inr (
            subst (IsTorn uuid n) (sym there)
              (subst (IsOurs uuid) (sym same) s.ours, serial, free offs));
        ours = s.ours;
        width = s.width;
        md_width = s.md_width;
        phase = (e, same, ap (λ d. d.hdr) there, ap (λ d. d.ftr_offs) there);
      }

  on_sync_failed-IsSafe :
      {n : ℕ} {v : Volume}
      → IsSafe uuid n v
      → v.md.hdr.sync_serial ≡ n + 1
      → IsSafe uuid n (on_sync_failed v)
  unfolding on_sync_failed dec_sync_serial hdr_dec_sync_serial is_current md_copy
  on_sync_failed-IsSafe {n} {v} s e =
      let w = s.width in
      let back : u32 (v.md.hdr.sync_serial + 4294967295) ≡ n = rw e (ground arith) in
      record {
        good = s.good;
        other = s.other;
        ours = s.ours;
        width = s.width;
        md_width = rw back s.width;
        phase = back;
      }

  start_sync-IsSafe :
      {n : ℕ} {v : Volume}
      → IsSafe uuid n v
      → v.md.hdr.sync_serial ≡ n
      → v.md.hdr.sync_serial + 1 < 2 ^ 32
      → IsSafe uuid n (start_sync v)
  unfolding start_sync inc_sync_serial hdr_inc_sync_serial is_current md_copy
  start_sync-IsSafe {n} {v} s e lt =
      let next : u32 (v.md.hdr.sync_serial + 1) ≡ n + 1 = ground arith in
      record {
        good = s.good;
        other = s.other;
        ours = s.ours;
        width = s.width;
        md_width = ground arith;
        phase = (next, refl);
      }

  async_sync_metadata-IsSafe :
      {n : ℕ} {v : Volume}
      → IsSafe uuid n v
      → v.md.hdr.sync_serial ≡ n
      → v.md.hdr.sync_serial + 1 < 2 ^ 32
      → IsSafe uuid n (async_sync_metadata v)
  unfolding async_sync_metadata
  async_sync_metadata-IsSafe {n} {v} s e lt = elim (Bool-cases v.md.is_dirty) [
    | inl t ↦ simp (t) (start_sync-IsSafe s e lt)
    | inr f ↦ simp (f) s
  ]

  footer-IsGood :
      (n : ℕ) (hdr : FsMetadataHdr) (offs : ℕ) (c : DiskCopy)
      → IsOurs uuid hdr
      → hdr.sync_serial ≡ n + 1
      → c.hdr ≡ hdr
      → c.ftr_offs ≡ offs
      → IsGood uuid (n + 1) (record c { ftr_at = λ p. if p == offs then hdr else c.ftr_at p })
  footer-IsGood n hdr offs c o e same place =
      let t : (c.ftr_offs == offs) ≡ true = ground arith in
      let foot : (if c.ftr_offs == offs then hdr else c.ftr_at c.ftr_offs) ≡ hdr = rw t refl in
      record {
        ours = (subst (IsOurs uuid) (sym same) o, subst (IsOurs uuid) (sym foot) o);
        whole = (ap (λ h. h.sync_serial) same ∙ e, ap (λ h. h.sync_serial) foot ∙ e);
      }

  write_footer-IsSafe :
      {n : ℕ} {v : Volume} (hdr : FsMetadataHdr) (offs : ℕ)
      → IsSafe uuid n v
      → Phase uuid n v.md.hdr (md_copy (n + 1) v) (part_written hdr offs)
      → IsSafe uuid (n + 1) (write_footer hdr offs v)
  unfolding write_footer md_copy put_md_copy
  write_footer-IsSafe {n} {v} hdr offs s (e, same, top, place) =
      let serial : hdr.sync_serial ≡ n + 1 = ap (λ h. h.sync_serial) same ∙ e in
      let c : DiskCopy = md_copy hdr.sync_serial v in
      let here : c ≡ md_copy (n + 1) v = ap (λ k. md_copy k v) serial in
      let c1 : DiskCopy = record c { ftr_at = λ p. if p == offs then hdr else c.ftr_at p } in
      let rest : Volume = record v { saving = all_written } in
      let good1 =
        footer-IsGood n hdr offs c (subst (IsOurs uuid) (sym same) s.ours) serial
          (ap (λ d. d.hdr) here ∙ top) (ap (λ d. d.ftr_offs) here ∙ place) in
      let before =
        md_copy-parity (n + 1 + 1) n (put_md_copy hdr.sync_serial c1 rest) (ground arith)
        ∙ put_other n hdr c1 rest serial in
      record {
        good = subst (IsGood uuid (n + 1)) (sym (put_same n hdr c1 rest serial)) good1;
        other = inl (n, subst (IsGood uuid n) (sym before) s.good, inl (omega arith));
        ours = s.ours;
        width = let w = s.md_width in ground arith;
        md_width = s.md_width;
        phase = e;
      }

  Phase-saving :
      {n : ℕ} {v : Volume} {x : Saving}
      → IsSafe uuid n v
      → v.saving ≡ x
      → Phase uuid n v.md.hdr (md_copy (n + 1) v) x
  Phase-saving {n} {v} s h = subst (Phase uuid n v.md.hdr (md_copy (n + 1) v)) h s.phase

  Step-IsSafe : {n m : ℕ} {v w : Volume} → Step n v m w → IsSafe uuid n v → IsSafe uuid m w
  unfolding on_sync_end load_volume md_copy
  Step-IsSafe {n} {m} {v} {w} (changed md h _) s = record {
    good = s.good;
    other = s.other;
    ours = subst (IsOurs uuid) (sym h) s.ours;
    width = s.width;
    md_width = subst (λ x. x.sync_serial < 2 ^ 32) (sym h) s.md_width;
    phase = subst (λ x. Phase uuid n x (md_copy (n + 1) v) v.saving) (sym h) s.phase;
  }
  Step-IsSafe (asked h lt) s = async_sync_metadata-IsSafe s (Phase-saving s h) lt
  Step-IsSafe (started h lt) s = start_sync-IsSafe s (Phase-saving s h) lt
  Step-IsSafe {v = v} (first_part {hdr = hdr} {offs = offs} bytes h free) s =
      let (e, same) = Phase-saving s h in write_part-IsSafe hdr offs bytes s e same free
  Step-IsSafe (next_part {hdr = hdr} {offs = offs} bytes h free) s =
      let (e, same, _, _) = Phase-saving s h in write_part-IsSafe hdr offs bytes s e same free
  Step-IsSafe (last_part {hdr = hdr} {offs = offs} h) s =
      write_footer-IsSafe hdr offs s (Phase-saving s h)
  Step-IsSafe (finished h) s = record {
    good = s.good;
    other = s.other;
    ours = s.ours;
    width = s.width;
    md_width = s.md_width;
    phase = Phase-saving s h;
  }
  Step-IsSafe (failed_first h) s = let (e, _) = Phase-saving s h in on_sync_failed-IsSafe s e
  Step-IsSafe (failed h) s = let (e, _, _, _) = Phase-saving s h in on_sync_failed-IsSafe s e
  Step-IsSafe {n} {m} {v} {w} (crashed {k = k} md found top _) s =
      let same : k ≡ n % 2 = elim (IsSafe-Choice uuid n v s) [
        | inl t ↦ cc (t, found)
        | inr (t, _) ↦ cc (t, found)
      ] in
      let here : md_copy k v ≡ md_copy n v =
        ap (λ x. md_copy x v) same ∙ md_copy-parity (n % 2) n v (ground arith) in
      let hdr : md.hdr ≡ (md_copy n v).hdr = top ∙ ap (λ c. c.hdr) here in
      let serial : md.hdr.sync_serial ≡ n = ap (λ h. h.sync_serial) hdr ∙ s.good.whole.0 in
      record {
        good = s.good;
        other = s.other;
        ours = subst (IsOurs uuid) (sym hdr) s.good.ours.0;
        width = s.width;
        md_width = rw serial s.width;
        phase = serial;
      }

  Run-IsSafe : {n m : ℕ} {v w : Volume} → Run n v m w → IsSafe uuid n v → IsSafe uuid m w
  Run-IsSafe done s = s
  Run-IsSafe (then_step r x) s = Step-IsSafe x (Run-IsSafe r s)

  -- Where a safe volume goes through saves in parts, failed and stopped saves, changes of the
  -- table, and crashes with a load, in any order, and the last save whose footer was written has
  -- serial number m, the copy of save m is whole on the disk; a load chooses this copy, or it
  -- finds none to choose, and that only where save m + 1 has written its header and its footer
  -- is not there.
  pub Run-Choice :
      {n m : ℕ} {u v : Volume}
      → Run n u m v
      → IsSafe uuid n u
      → IsGood uuid m (md_copy m v) × Choice uuid m v
  Run-Choice {n} {m} {u} {v} r s = let t = Run-IsSafe r s in (t.good, IsSafe-Choice uuid m v t)

  -- Where a save on a safe volume has written its first part and the bytes at the place of its
  -- footer are no current footer, a load finds no copy to choose, although the copy of the last
  -- finished save is still whole.
  pub write_part-chosen :
      {n : ℕ} {v : Volume} (hdr : FsMetadataHdr) (offs : ℕ) (bytes : ℕ → FsMetadataHdr)
      → IsSafe uuid n v
      → v.saving ≡ prepared hdr offs
      → is_current (bytes offs) ≡ false
      → (chosen (write_part hdr offs bytes v) ≡ none)
        × IsGood uuid n (md_copy n (write_part hdr offs bytes v))
  unfolding write_part md_copy
  write_part-chosen {n} {v} hdr offs bytes s h gone =
      let (e, same) = Phase-saving s h in
      let c : DiskCopy = record { hdr = hdr; ftr_offs = offs; ftr_at = bytes } in
      let rest : Volume = record v { saving = part_written hdr offs } in
      let serial : hdr.sync_serial ≡ n + 1 = ap (λ x. x.sync_serial) same ∙ e in
      (
        torn-chosen n (put_md_copy hdr.sync_serial c rest)
            (ap (λ d. is_current (seen d).ftr) (put_same n hdr c rest serial) ∙ gone),
        subst (IsGood uuid n) (sym (put_other n hdr c rest serial)) s.good,
      )
