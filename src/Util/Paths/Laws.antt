-- ===== src/Util/Paths/Laws.antt =====
-- get_pre_path and recursive_make_dir of utils/utils.c: the walk to the parent ends, and a
-- directory that was reported as made is there.
use mmdd_pro.Common.{
  ℕ, zero, suc, ◌≤◌, ◌<◌, ◌≡◌, ◌≢◌, Bool, true, false, not, [], ◌∷◌, none, some, inl, inr, arith,
  length, Text, pos, ◌==◌, ℤ, negsuc, eqb_ℤ, if◌then◌else◌, Option-cases,
}
use mmdd_pro.Util.Paths.{
  chop, get_pre_path, FileSystem, has_dir_bit, retry_make, recursive_make_dir,
}

chop-le : (p : ℕ → Bool) (t : Text) → length (chop p t) ≤ length t
unfolding chop
chop-le p [] = omega arith
chop-le p (c ∷ t) = ground (arith, chop-le p t)

chop_twice-lt :
    (p : ℕ → Bool) (t : Text) → t ≢ [] → length (chop (λ c. not (p c)) (chop p t)) < length t
unfolding chop
chop_twice-lt p [] h = absurd (h (λ i. []))
chop_twice-lt p (c ∷ []) h = ground arith
chop_twice-lt p (c ∷ d ∷ t) h = ground (arith, chop_twice-lt p (d ∷ t))

-- The parent of a nonempty path is shorter than the path.
pub get_pre_path-lt : (t : Text) → t ≢ [] → length (get_pre_path t) < length t
unfolding get_pre_path
get_pre_path-lt t h = omega (
  arith,
  chop_twice-lt (λ c. c == b'/') t h,
  chop-le (λ c. c == b'/') (chop (λ c. not (c == b'/')) (chop (λ c. c == b'/') t)),
)

-- stat finds the path and reports the directory bit.
unfoldable pub is_directory : (F : FileSystem) → F.Disk → Text → Bool
is_directory F disk path = elim (F.stat disk path) [ none ↦ false | some mode ↦ has_dir_bit mode ]

-- What the program relies on: a directory that mkdir made is one for stat.
pub record IsLawful (F : FileSystem) : Type 0 where
  pub stat-mkdir :
      (disk : F.Disk) (path : Text)
      → (F.mkdir disk path).1 ≡ true
      → is_directory F (F.mkdir disk path).0 path ≡ true

module _ (F : FileSystem) where
  recursive_make_dir_total :
      (fuel : ℕ) (path : Text) (disk : F.Disk)
      → length path < fuel
      → recursive_make_dir F fuel path disk ≢ none
  unfolding recursive_make_dir
  recursive_make_dir_total zero path disk h = elim h [ ]
  recursive_make_dir_total (suc fuel) [] disk h = ground arith
  recursive_make_dir_total (suc fuel) (c ∷ path) disk h = ground (
    arith,
    get_pre_path-lt (c ∷ path) (λ e. cc),
    recursive_make_dir_total fuel (get_pre_path (c ∷ path)) (F.mkdir disk (c ∷ path)).0,
  )

  retry_make-is_directory :
      IsLawful F
      → (path : Text) (r : ℤ × F.Disk) {disk : F.Disk} → retry_make F path r ≡ (pos 0, disk)
      → is_directory F disk path ≡ true
  unfolding retry_make
  retry_make-is_directory L path (pos zero, d) e = ground (arith, L.stat-mkdir d path)
  retry_make-is_directory L path (pos (suc n), d) e = absurd (ground arith)
  retry_make-is_directory L path (negsuc n, d) e = absurd (ground arith)

  recursive_make_dir-is_directory :
      IsLawful F
      → (fuel : ℕ) (path : Text) (disk : F.Disk) {disk' : F.Disk}
      → recursive_make_dir F fuel path disk ≡ some (pos 0, disk')
      → is_directory F disk' path ≡ true
  unfolding recursive_make_dir is_directory
  recursive_make_dir-is_directory L zero path disk e = absurd (ground arith)
  recursive_make_dir-is_directory L (suc fuel) path disk {disk'} e =
      elim (Option-cases (recursive_make_dir F fuel (get_pre_path path) (F.mkdir disk path).0)) [
        | inl out ↦ ground (arith, L.stat-mkdir disk path)
        | inr (r, parent) ↦
            ground (arith, L.stat-mkdir disk path, retry_make-is_directory L path r {disk = disk'})
      ]

  made-is_directory :
      IsLawful F
      → (fuel : ℕ) (path : Text) (disk : F.Disk) (r : ℤ) (disk' : F.Disk)
      → recursive_make_dir F fuel path disk ≡ some (r, disk')
      → (if eqb_ℤ r (pos 0) then is_directory F disk' path else true) ≡ true
  made-is_directory L fuel path disk (pos zero) disk' e =
      recursive_make_dir-is_directory L fuel path disk e
  made-is_directory L fuel path disk (pos (suc n)) disk' e = ground arith
  made-is_directory L fuel path disk (negsuc n) disk' e = ground arith

  -- With more fuel than the path has bytes recursive_make_dir returns, and where it returns 0 the path
  -- has the directory bit afterwards, provided that a directory that mkdir made has it.
  pub recursive_make_dir_lem :
      IsLawful F
      → (fuel : ℕ) (path : Text) (disk : F.Disk) → length path < fuel
      → (r : ℤ) × (disk' : F.Disk) × (recursive_make_dir F fuel path disk ≡ some (r, disk'))
        × ((if eqb_ℤ r (pos 0) then is_directory F disk' path else true) ≡ true)
  recursive_make_dir_lem L fuel path disk enough =
      elim (Option-cases (recursive_make_dir F fuel path disk)) [
        | inl out ↦ absurd (recursive_make_dir_total fuel path disk enough out)
        | inr ((r, disk'), gives) ↦
            (r, disk', gives, made-is_directory L fuel path disk r disk' gives)
      ]
