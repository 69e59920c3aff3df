-- ===== src/Prelude/Lists.antt =====
-- Lists measured and indexed by native numbers: how the model writes C arrays and vectors.
use Prim.Native.Nat.{ℕ, zero, suc, ◌+◌, ◌-◌, ◌≤◌, ◌<◌}
use mathlib.Core.Path.{◌≡◌, refl, ap, ◌∙◌}
use mathlib.Core.List.{List, [], ◌∷◌, ◌++◌}
use native.Mathlib.Omega.{arith}

module _ {ℓ} {A : Type ℓ} where
  abbrev pub length : List A → ℕ
  length [] = 0
  length (x ∷ xs) = suc (length xs)

  abbrev pub get_or : List A → ℕ → A → A
  get_or [] i d = d
  get_or (x ∷ xs) zero d = x
  get_or (x ∷ xs) (suc i) d = get_or xs i d

  abbrev pub take : ℕ → List A → List A
  take zero xs = []
  take (suc n) [] = []
  take (suc n) (x ∷ xs) = x ∷ take n xs

  abbrev pub drop : ℕ → List A → List A
  drop zero xs = xs
  drop (suc n) [] = []
  drop (suc n) (x ∷ xs) = drop n xs

  -- A write out of bounds changes nothing.
  abbrev pub set : List A → ℕ → A → List A
  set [] i v = []
  set (x ∷ xs) zero v = v ∷ xs
  set (x ∷ xs) (suc i) v = x ∷ set xs i v

  -- `vector::insert` before position `i`; past the end it appends.
  abbrev pub insert_at : ℕ → A → List A → List A
  insert_at zero a xs = a ∷ xs
  insert_at (suc i) a [] = a ∷ []
  insert_at (suc i) a (x ∷ xs) = x ∷ insert_at i a xs

  -- What is left when positions [i, j) are taken out.
  abbrev pub remove_slice : ℕ → ℕ → List A → List A
  remove_slice i j xs = take i xs ++ drop j xs

  -- Positions [i, j).
  abbrev pub slice : ℕ → ℕ → List A → List A
  slice i j xs = take (j - i) (drop i xs)

  pub length-append : (xs ys : List A) → length (xs ++ ys) ≡ length xs + length ys
  length-append [] ys = omega arith
  length-append (x ∷ xs) ys = omega (arith, length-append xs ys)

  pub length-insert_at : (i : ℕ) (a : A) (xs : List A) → length (insert_at i a xs) ≡ length xs + 1
  length-insert_at zero a xs = omega arith
  length-insert_at (suc i) a [] = omega arith
  length-insert_at (suc i) a (x ∷ xs) = omega (arith, length-insert_at i a xs)

  pub length-set : (xs : List A) (i : ℕ) (v : A) → length (set xs i v) ≡ length xs
  length-set [] i v = refl
  length-set (x ∷ xs) zero v = refl
  length-set (x ∷ xs) (suc i) v = ap suc (length-set xs i v)

  pub length-drop : (n : ℕ) (xs : List A) → length (drop n xs) ≡ length xs - n
  length-drop zero xs = omega arith
  length-drop (suc n) [] = omega arith
  length-drop (suc n) (x ∷ xs) = omega (arith, length-drop n xs)

  pub length-take : (n : ℕ) (xs : List A) → n ≤ length xs → length (take n xs) ≡ n
  length-take zero xs h = refl
  length-take (suc n) [] h = absurd (omega arith)
  length-take (suc n) (x ∷ xs) h = ap suc (length-take n xs (omega arith))

  pub length-slice : (i j : ℕ) (xs : List A) → i ≤ j → j ≤ length xs → length (slice i j xs) ≡ j - i
  length-slice i j xs h k = length-take (j - i) (drop i xs) (omega (arith, length-drop i xs))

  pub length-remove_slice :
      (i j : ℕ) (xs : List A)
      → i ≤ j
      → j ≤ length xs
      → length (remove_slice i j xs) + (j - i) ≡ length xs
  length-remove_slice i j xs h k = omega (
    arith,
    length-append (take i xs) (drop j xs),
    length-take i xs (omega arith),
    length-drop j xs,
  )

  pub get_or-insert_at_before :
      (k : ℕ) (a d : A) (xs : List A) (i : ℕ)
      → i < k
      → k ≤ length xs
      → get_or (insert_at k a xs) i d ≡ get_or xs i d
  get_or-insert_at_before zero a d xs i h b = absurd (omega arith)
  get_or-insert_at_before (suc k) a d [] i h b = absurd (omega arith)
  get_or-insert_at_before (suc k) a d (x ∷ xs) zero h b = refl
  get_or-insert_at_before (suc k) a d (x ∷ xs) (suc i) h b =
      get_or-insert_at_before k a d xs i (omega arith) (omega arith)

  pub get_or-insert_at_self :
      (k : ℕ) (a d : A) (xs : List A) → k ≤ length xs → get_or (insert_at k a xs) k d ≡ a
  get_or-insert_at_self zero a d xs b = refl
  get_or-insert_at_self (suc k) a d [] b = absurd (omega arith)
  get_or-insert_at_self (suc k) a d (x ∷ xs) b = get_or-insert_at_self k a d xs (omega arith)

  pub get_or-insert_at_after :
      (k : ℕ) (a d : A) (xs : List A) (i : ℕ)
      → k ≤ i
      → get_or (insert_at k a xs) (suc i) d ≡ get_or xs i d
  get_or-insert_at_after zero a d xs i h = refl
  get_or-insert_at_after (suc k) a d [] zero h = absurd (omega arith)
  get_or-insert_at_after (suc k) a d [] (suc i) h = refl
  get_or-insert_at_after (suc k) a d (x ∷ xs) zero h = absurd (omega arith)
  get_or-insert_at_after (suc k) a d (x ∷ xs) (suc i) h =
      get_or-insert_at_after k a d xs i (omega arith)

  pub get_or-drop : (j i : ℕ) (d : A) (xs : List A) → get_or (drop j xs) i d ≡ get_or xs (j + i) d
  get_or-drop zero i d xs = ap (λ k. get_or xs k d) (omega arith)
  get_or-drop (suc j) i d [] = refl
  get_or-drop (suc j) i d (x ∷ xs) = get_or-drop j i d xs ∙ ap (λ k. get_or (x ∷ xs) k d) shift
    where
      shift : suc (j + i) ≡ suc j + i
      shift = omega arith

  pub get_or-append_before :
      (i m : ℕ) (d : A) (xs ys : List A)
      → m < i
      → i ≤ length xs
      → get_or (take i xs ++ ys) m d ≡ get_or xs m d
  get_or-append_before zero m d xs ys h b = absurd (omega arith)
  get_or-append_before (suc i) m d [] ys h b = absurd (omega arith)
  get_or-append_before (suc i) zero d (x ∷ xs) ys h b = refl
  get_or-append_before (suc i) (suc m) d (x ∷ xs) ys h b =
      get_or-append_before i m d xs ys (omega arith) (omega arith)

  pub get_or-append_after :
      (xs ys : List A) (i : ℕ) (d : A) → get_or (xs ++ ys) (length xs + i) d ≡ get_or ys i d
  get_or-append_after [] ys i d = ap (λ k. get_or ys k d) (omega arith)
  get_or-append_after (x ∷ xs) ys i d =
      ap (λ k. get_or (x ∷ xs ++ ys) k d) shift ∙ get_or-append_after xs ys i d
    where
      shift : suc (length xs) + i ≡ suc (length xs + i)
      shift = omega arith

  pub get_or-remove_slice_before :
      (i j m : ℕ) (d : A) (xs : List A)
      → m < i
      → i ≤ length xs
      → get_or (remove_slice i j xs) m d ≡ get_or xs m d
  get_or-remove_slice_before zero j m d xs h b = absurd (omega arith)
  get_or-remove_slice_before (suc i) j m d [] h b = absurd (omega arith)
  get_or-remove_slice_before (suc i) zero zero d (x ∷ xs) h b = refl
  get_or-remove_slice_before (suc i) (suc j) zero d (x ∷ xs) h b = refl
  get_or-remove_slice_before (suc i) zero (suc m) d (x ∷ xs) h b =
      get_or-append_before i m d xs (x ∷ xs) (omega arith) (omega arith)
  get_or-remove_slice_before (suc i) (suc j) (suc m) d (x ∷ xs) h b =
      get_or-append_before i m d xs (drop j xs) (omega arith) (omega arith)

  pub get_or-remove_slice_after :
      (i j m : ℕ) (d : A) (xs : List A)
      → i ≤ j
      → i ≤ m
      → j ≤ length xs
      → get_or (remove_slice i j xs) m d ≡ get_or xs (m + (j - i)) d
  get_or-remove_slice_after i j m d xs h k b =
      ap (λ n. get_or (remove_slice i j xs) n d) at_rest
      ∙ get_or-append_after (take i xs) (drop j xs) (m - i) d
      ∙ get_or-drop j (m - i) d xs
      ∙ ap (λ n. get_or xs n d) (omega arith)
    where
      at_rest : m ≡ length (take i xs) + (m - i)
      at_rest = omega (arith, length-take i xs (omega arith))

  pub take-append : (n : ℕ) (xs ys : List A) → length xs ≡ n → take n (xs ++ ys) ≡ xs
  take-append zero [] ys h = refl
  take-append zero (x ∷ xs) ys h = absurd (omega arith)
  take-append (suc n) [] ys h = absurd (omega arith)
  take-append (suc n) (x ∷ xs) ys h = rw (take-append n xs ys (omega arith)) refl

  pub drop-append : (n : ℕ) (xs ys : List A) → length xs ≡ n → drop n (xs ++ ys) ≡ ys
  drop-append zero [] ys h = refl
  drop-append zero (x ∷ xs) ys h = absurd (omega arith)
  drop-append (suc n) [] ys h = absurd (omega arith)
  drop-append (suc n) (x ∷ xs) ys h = drop-append n xs ys (omega arith)

  pub take_all : (n : ℕ) (xs : List A) → length xs ≡ n → take n xs ≡ xs
  take_all zero [] h = refl
  take_all zero (x ∷ xs) h = absurd (omega arith)
  take_all (suc n) [] h = absurd (omega arith)
  take_all (suc n) (x ∷ xs) h = rw (take_all n xs (omega arith)) refl

  pub get_or-take : (n m : ℕ) (d : A) (xs : List A) → m < n → get_or (take n xs) m d ≡ get_or xs m d
  get_or-take zero m d xs h = absurd (omega arith)
  get_or-take (suc n) m d [] h = refl
  get_or-take (suc n) zero d (x ∷ xs) h = refl
  get_or-take (suc n) (suc m) d (x ∷ xs) h = get_or-take n m d xs (omega arith)
