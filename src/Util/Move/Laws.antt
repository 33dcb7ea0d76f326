-- ===== src/Util/Move/Laws.antt =====
-- The end of move_file (utils/utils.c), for a source and a destination that differ.
use mmdd_pro.Common.{
  ==_iff, ℕ, zero, suc, ◌+◌, ◌≤◌, ◌<◌, ◌≡◌, ◌≢◌, refl, sym, ap, subst, ◌∙◌, Bool, true, false, ◌&&◌,
  inl, inr, Bool-cases, List, [], ◌∷◌, ◌++◌, Option, none, some, arith, if◌then◌else◌, ◌==◌, Text,
  text_eq_refl, text_eq_ne, length, length-take, take, drop,
}
use mmdd_pro.Util.Move.{
  Store, put, Io, bytes_of, block_at, append_to_target, copy_blocks, finish_move, copy_and_remove,
  move_file,
}

take-length-take : (n : ℕ) (xs : List ℕ) → take (length (take n xs)) xs ≡ take n xs
take-length-take zero xs = refl
take-length-take (suc n) [] = refl
take-length-take (suc n) (x ∷ xs) = ap (λ r. x ∷ r) (take-length-take n xs)

take-nil : (n : ℕ) → take {A = ℕ} n [] ≡ []
take-nil zero = refl
take-nil (suc n) = refl

-- The blocks follow one another.
take-append-block :
    (off n : ℕ) (xs : List ℕ)
    → take off xs ++ take n (drop off xs) ≡ take (off + length (take n (drop off xs))) xs
take-append-block zero n xs = sym (take-length-take n xs) ∙ ap (λ k. take k xs) (omega arith)
take-append-block (suc off) n [] =
    take-nil n ∙ sym (take-nil (suc off + length (take {A = ℕ} n [])))
take-append-block (suc off) n (x ∷ xs) =
    let more : suc (off + length (take n (drop off xs))) ≡ suc off + length (take n (drop off xs)) =
      omega arith in
    ap (λ r. x ∷ r) (take-append-block off n xs) ∙ ap (λ m. take m (x ∷ xs)) more

length-block :
    (off n : ℕ) (xs : List ℕ) → off ≤ length xs → off + length (take n (drop off xs)) ≤ length xs
length-block zero n xs h = omega (arith, length-take n xs)
length-block (suc off) n [] h = absurd (omega (arith, h))
length-block (suc off) n (x ∷ xs) h = omega (arith, length-block off n xs (omega (arith, h)))

-- Behind the last block nothing is left.
empty_block : (off n : ℕ) (xs : List ℕ) → 1 ≤ n → take n (drop off xs) ≡ [] → take off xs ≡ xs
empty_block off zero xs pos e = absurd (omega (arith, pos))
empty_block zero (suc n) [] pos e = refl
empty_block zero (suc n) (x ∷ xs) pos e = cc
empty_block (suc off) (suc n) [] pos e = refl
empty_block (suc off) (suc n) (x ∷ xs) pos e = ap (λ r. x ∷ r) (empty_block off (suc n) xs pos e)

no_bytes : (xs : List ℕ) → (length xs == 0) ≡ true → xs ≡ []
no_bytes [] e = refl
no_bytes (x ∷ xs) e = absurd (ground (arith, e))

-- A write that takes as many bytes as there are takes them all.
pub whole_write : (n : ℕ) (xs : List ℕ) → length (take n xs) ≡ length xs → take n xs ≡ xs
whole_write zero [] e = refl
whole_write zero (x ∷ xs) e = absurd (omega (arith, e))
whole_write (suc n) [] e = refl
whole_write (suc n) (x ∷ xs) e = ap (λ r. x ∷ r) (whole_write n xs (omega (arith, e)))

put_self : (path : Text) (v : Option (List ℕ)) (store : Store) → put path v store path ≡ v
put_self path v store = ground (arith, text_eq_refl path)

put_ne :
    (path q : Text) (v : Option (List ℕ)) (store : Store) → path ≢ q → put path v store q ≡ store q
put_ne path q v store h = ground (arith, text_eq_ne path q h)

module _ (io : Io) (orig_file dest_file : Text) (apart : dest_file ≢ orig_file)
    (bytes : List ℕ) where
  -- What stands in the files: all of the source, its first `off` bytes in the destination, and the
  -- others as at the beginning.
  record IsCopying (before : Store) (off : ℕ) (store : Store) : Type 0 where
    source : store orig_file ≡ some bytes
    target : store dest_file ≡ some (take off bytes)
    others : (q : Text) → orig_file ≢ q → dest_file ≢ q → store q ≡ before q

  -- The end of the loop: with everything copied, or with an error and the source still there.
  record IsCopied (before : Store) (ended : Bool) (store : Store) : Type 0 where
    source : store orig_file ≡ some bytes
    target : ended ≡ true → store dest_file ≡ some bytes
    others : (q : Text) → orig_file ≢ q → dest_file ≢ q → store q ≡ before q

  abbrev Ends : Store → Option (Bool × Store) → Type 0
  Ends before none = ⊥
  Ends before (some (ended, store)) = IsCopied before ended store

  append-IsCopying :
      (before : Store) (off n : ℕ) (store : Store)
      → IsCopying before off store
      → IsCopying before
          (off + length (take n (drop off bytes)))
          (append_to_target io orig_file dest_file (take n (drop off bytes)) store)
  append-IsCopying before off n store h = record {
    source = put_ne dest_file orig_file _ store apart ∙ h.source;
    target =
        put_self dest_file _ store
        ∙ ap (λ v. some (bytes_of v ++ take n (drop off bytes))) h.target
        ∙ ap some (take-append-block off n bytes);
    others = λ q a b. put_ne dest_file q _ store b ∙ h.others q a b;
  }

  next :
      (before : Store) (off : ℕ) (store : Store) (off' : ℕ) (written : List ℕ)
      → off' ≡ off + length (take io.blocksize (drop off bytes))
      → written ≡ take io.blocksize (drop off bytes)
      → IsCopying before off store
      → IsCopying before off' (append_to_target io orig_file dest_file written store)
  next before off store off' written e f h =
      subst (λ n. IsCopying before n (append_to_target io orig_file dest_file written store))
        (sym e)
        (subst
          (λ w.
            IsCopying before (off + length (take io.blocksize (drop off bytes)))
              (append_to_target io orig_file dest_file w store))
          (sym f) (append-IsCopying before off io.blocksize store h))

  if_Ends :
      (before : Store) (b : Bool) (x y : Option (Bool × Store))
      → (b ≡ true → Ends before x)
      → (b ≡ false → Ends before y)
      → Ends before (if b then x else y)
  if_Ends before true x y h k = h refl
  if_Ends before false x y h k = k refl

  copy_blocks-Ends :
      (before : Store) (fuel k off : ℕ) (store : Store)
      → 1 ≤ io.blocksize
      → off ≤ length bytes
      → length bytes < off + fuel
      → IsCopying before off store
      → Ends before (copy_blocks io orig_file dest_file fuel k off store)
  unfolding copy_blocks
  copy_blocks-Ends before zero k off store pos le lt h = absurd (omega (arith, le, lt))
  copy_blocks-Ends before (suc fuel) k off store pos le lt h =
      let block : block_at io orig_file dest_file off store ≡ take io.blocksize (drop off bytes) =
        ap (λ v. take io.blocksize (drop off (bytes_of v))) h.source in
      let size = ap length block in
      if_Ends before (io.reads k) _ (some (false, store))
        (λ good.
          if_Ends before (length (block_at io orig_file dest_file off store) == 0)
            (some (true, store)) _
            (λ done. record {
              source = h.source;
              target = λ e.
                  h.target
                  ∙ ap some (empty_block off io.blocksize bytes pos (sym block ∙ no_bytes _ done));
              others = h.others;
            })
            (λ more.
              if_Ends before
                (length (take (io.writes k) (block_at io orig_file dest_file off store))
                  == length (block_at io orig_file dest_file off store))
                _ (some (false, _))
                (λ whole.
                  let written = whole_write (io.writes k) _ ((==_iff _ _).0 whole) ∙ block in
                  copy_blocks-Ends before fuel (suc k) _ _ pos
                    (omega (arith, size, length-block off io.blocksize bytes le))
                    (ground (arith, more, lt))
                    (next before off store _ _ (omega (arith, size)) written h))
                (λ short. record {
                  source = put_ne dest_file orig_file _ store apart ∙ h.source;
                  target = λ e. cc;
                  others = λ q a b. put_ne dest_file q _ store b ∙ h.others q a b;
                })))
        (λ bad. record { source = h.source; target = λ e. cc; others = h.others })

  -- The end of move_file: the file is in one of the two places, or in both, whole.
  pub record IsMoved (before : Store) (moved : Bool) (store : Store) : Type 0 where
    pub source : store orig_file ≡ (if moved && io.removes then none else some bytes)
    pub target : moved ≡ true → store dest_file ≡ some bytes
    pub others : (q : Text) → orig_file ≢ q → dest_file ≢ q → store q ≡ before q

  abbrev pub Moves : Store → Option (Bool × Store) → Type 0
  Moves before none = ⊥
  Moves before (some (moved, store)) = IsMoved before moved store

  finish_move-Moves :
      (before : Store) (r : Option (Bool × Store))
      → Ends before r
      → Moves before (finish_move io orig_file dest_file r)
  finish_move-Moves before none h = h
  finish_move-Moves before (some (true, store)) h = elim (Bool-cases io.removes) [
    | inl gone ↦ rw (gone) (record {
      source = ground (arith, put_self orig_file none store, gone);
      target =
          λ e. put_ne orig_file dest_file none store (λ same. apart (sym same)) ∙ h.target refl;
      others = λ q a b. put_ne orig_file q none store a ∙ h.others q a b;
    })
    | inr stays ↦ rw (stays) (record {
      source = ground (arith, h.source, stays);
      target = λ e. h.target refl;
      others = h.others;
    })
  ]
  finish_move-Moves before (some (false, store)) h = record {
    source = h.source;
    target = λ e. cc;
    others = h.others;
  }

  if_Moves :
      (before : Store) (b : Bool) (x y : Option (Bool × Store))
      → Moves before x
      → Moves before y
      → Moves before (if b then x else y)
  if_Moves before true x y h k = h
  if_Moves before false x y h k = k

  untouched : (store : Store) → store orig_file ≡ some bytes → Moves store (some (false, store))
  untouched store there = record { source = there; target = λ e. cc; others = λ q a b. refl }

  -- A file that is moved to another path, in blocks of at least one byte and with more rounds than it
  -- has bytes: whichever calls fail or write less than they should, move_file returns. If it succeeds
  -- then the destination has all bytes of the file, and the source is gone if remove succeeded and has
  -- them still if not; otherwise the source still has them. No third file changes.
  pub move_file_lem :
      (fuel : ℕ) (store : Store)
      → 1 ≤ io.blocksize
      → length bytes < fuel
      → store orig_file ≡ some bytes
      → Moves store (move_file io orig_file dest_file fuel store)
  unfolding move_file copy_and_remove
  move_file_lem fuel store pos enough there =
      rw (there, move_file)
        (if_Moves store io.source_opens _ _
          (if_Moves store io.stats _ _
            (if_Moves store io.target_opens _ _
              (finish_move-Moves store
                (copy_blocks io orig_file dest_file fuel 0 0 (put dest_file (some []) store))
                (copy_blocks-Ends store fuel 0 0 (put dest_file (some []) store) pos (omega arith)
                  (omega (arith, enough))
                  (record {
                    source = put_ne dest_file orig_file _ store apart ∙ there;
                    target = put_self dest_file _ store;
                    others = λ q a b. put_ne dest_file q _ store b;
                  })))
              (untouched store there))
            (untouched store there))
          (untouched store there))
