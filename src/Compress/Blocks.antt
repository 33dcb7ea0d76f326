-- ===== src/Compress/Blocks.antt =====
-- The copying in blocks: the loop of do_compress_gz, and read with archive_write_data
-- (utils/compress.c).
use mmdd_pro.Common.{
  ℕ, zero, suc, ◌≤◌, ◌<◌, ◌≡◌, refl, sym, ap, ◌∙◌, inl, inr, Bool, true, false, List, [], ◌∷◌, ◌++◌,
  append-nil, append_assoc, some, arith, if◌then◌else◌, ◌==◌, ==_iff, length, take, drop, ℤ, pos,
  minus_one, Bool-cases,
}
use mmdd_pro.Compress.{
  Answers, plain, Result, unfinished, null_closed, finished, gz_loop, read_blocks,
}
use mmdd_pro.Util.Move.Laws.{whole_write}

take-drop : (n : ℕ) (xs : List ℕ) → take n xs ++ drop n xs ≡ xs
take-drop zero xs = refl
take-drop (suc n) [] = refl
take-drop (suc n) (x ∷ xs) = ap (λ r. x ∷ r) (take-drop n xs)

drop-lt : (n : ℕ) (xs : List ℕ) → length (drop n xs) ≤ length xs
drop-lt zero xs = omega arith
drop-lt (suc n) [] = omega arith
drop-lt (suc n) (x ∷ xs) = omega (arith, drop-lt n xs)

-- Blocks of at least one byte: one that is empty is the end, and one that is not leaves fewer bytes.
block_end : (n : ℕ) (xs : List ℕ) → 1 ≤ n → (length (take n xs) == 0) ≡ true → xs ≡ []
block_end zero xs pos_n e = absurd (omega (arith, pos_n))
block_end (suc n) [] pos_n e = refl
block_end (suc n) (x ∷ xs) pos_n e = absurd (ground (arith, e))

block_left :
    (n : ℕ) (xs : List ℕ)
    → 1 ≤ n
    → (length (take n xs) == 0) ≡ false
    → length (drop n xs) < length xs
block_left zero xs pos_n e = absurd (omega (arith, pos_n))
block_left (suc n) [] pos_n e = absurd (ground (arith, e))
block_left (suc n) (x ∷ xs) pos_n e = omega (arith, drop-lt n xs)

after_block : (n : ℕ) (out xs : List ℕ) → (out ++ take n xs) ++ drop n xs ≡ out ++ xs
after_block n out xs =
    append_assoc out (take n xs) (drop n xs) ∙ ap (λ r. out ++ r) (take-drop n xs)

module _ (io : Answers) (buff_size : ℕ) (room : 1 ≤ buff_size) where
  -- If the loop returns NEWIUP_OK then nothing was wrong before, and everything has been taken.
  abbrev pub Copies : List ℕ → ℤ → List ℕ → Result → Type 0
  Copies rest re out unfinished = ⊥
  Copies rest re out null_closed = ⊥
  Copies rest re out (finished ret o) = ret ≡ pos 0 → (re ≡ pos 0) × (o ≡ plain (out ++ rest))

  if_Copies :
      (rest : List ℕ) (re : ℤ) (out : List ℕ) (b : Bool) (x y : Result)
      → (b ≡ true → Copies rest re out x)
      → (b ≡ false → Copies rest re out y)
      → Copies rest re out (if b then x else y)
  if_Copies rest re out true x y h k = h refl
  if_Copies rest re out false x y h k = k refl

  -- A round whose write was whole, or has set the error.
  Copies-next :
      (n : ℕ) (rest : List ℕ) (re : ℤ) (out : List ℕ) (r : Result)
      → Copies
          (drop buff_size rest)
          (if length (take n (take buff_size rest)) == length (take buff_size rest)
            then re
            else minus_one)
          (out ++ take n (take buff_size rest))
          r
      → Copies rest re out r
  Copies-next n rest re out unfinished h = h
  Copies-next n rest re out null_closed h = h
  Copies-next n rest re out (finished ret o) h = λ good.
      let (fine, all) = h good in
      elim (Bool-cases (length (take n (take buff_size rest)) == length (take buff_size rest))) [
        | inl whole ↦
            let kept = whole_write n (take buff_size rest) ((==_iff _ _).0 whole) in
            (
              ground (arith, fine, whole),
              all
                  ∙ ap (λ t. plain ((out ++ t) ++ drop buff_size rest)) kept
                  ∙ ap plain (after_block buff_size out rest),
            )
        | inr short ↦
            let wrong : minus_one ≡ pos 0 = ground (arith, fine, short) in
            absurd (ground (arith, wrong))
      ]

  pub gz_loop-Copies :
      (fuel k : ℕ) (rest : List ℕ) (re : ℤ) (out : List ℕ)
      → length rest < fuel
      → Copies rest re out (gz_loop io buff_size fuel k rest re out)
  unfolding gz_loop
  gz_loop-Copies zero k rest re out lt = absurd (omega (arith, lt))
  gz_loop-Copies (suc fuel) k rest re out lt =
      if_Copies rest re out (io.read_fails k) _ _ (λ bad e. absurd (ground (arith, e)))
        (λ good.
          if_Copies rest re out (length (take buff_size rest) == 0) _ _
            (λ done e. (
              e,
              ap plain (
                  sym (append-nil out)
                  ∙ ap (λ r. out ++ r) (sym (block_end buff_size rest room done))),
            ))
            (λ more. Copies-next (io.accepted k) rest re out _ (
              gz_loop-Copies fuel (suc k) (drop buff_size rest) _ _
                (omega (arith, lt, block_left buff_size rest room more)))))

  pub read_blocks-all :
      (reads : ℕ → Bool) (fuel k : ℕ) (rest out : List ℕ)
      → ((i : ℕ) → reads i ≡ true)
      → length rest < fuel
      → read_blocks io buff_size reads fuel k rest out ≡ some (out ++ rest)
  unfolding read_blocks
  read_blocks-all reads zero k rest out good lt = absurd (omega (arith, lt))
  read_blocks-all reads (suc fuel) k rest out good lt =
      elim (Bool-cases (length (take buff_size rest) == 0)) [
        | inl done ↦
            rw (good k, done, read_blocks)
              (ap some (
                sym (append-nil out)
                ∙ ap (λ r. out ++ r) (sym (block_end buff_size rest room done))))
        | inr more ↦
            rw (good k, more, read_blocks)
              (read_blocks-all reads fuel (suc k) (drop buff_size rest) (out ++ take buff_size rest)
                  good (omega (arith, lt, block_left buff_size rest room more))
                ∙ ap some (after_block buff_size out rest))
      ]
