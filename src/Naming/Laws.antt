-- ===== src/Naming/Laws.antt =====
-- The names that the program makes are the names that it looks for.
use mmdd_pro.Common.{
  ℕ, zero, suc, ◌+◌, ◌≡◌, ◌≢◌, refl, sym, ◌∙◌, inl, inr, Bool, true, false, List, [], ◌∷◌, ◌++◌,
  Option, none, some, arith, if◌then◌else◌, ◌==◌, Text, codes, text_eq, text_eq_refl, text_eq_iff,
  ℤ, pos, get_elem?, All, ==_iff, Option-cases,
}
use mmdd_pro.Naming.{
  type_add, type_replace, rindex_dot, is_monitor_type, add_file_suffix_process, position,
  get_compress_type_id, get_compress_suffix_by_id,
}

-- A file type without a dot.
abbrev pub IsSuffix : Text → Type 0
IsSuffix t = All (λ c. c ≢ b'.') t

rindex_dot_of_suffix : (t : Text) → IsSuffix t → rindex_dot t ≡ none
unfolding rindex_dot
rindex_dot_of_suffix [] s = refl
rindex_dot_of_suffix (c ∷ t) s = rw (rindex_dot_of_suffix t s.1, rindex_dot) (ground (arith, s.0))

rindex_dot-append : (f t : Text) → IsSuffix t → rindex_dot (f ++ (b'.' ∷ t)) ≡ some (f, t)
unfolding rindex_dot
rindex_dot-append [] t s = rw (rindex_dot_of_suffix t s, rindex_dot) refl
rindex_dot-append (c ∷ f) t s = rw (rindex_dot-append f t s, rindex_dot) refl

-- The name that add_file_suffix_process makes with the process `add` has the new type for
-- is_monitor_type, and so has the one that it makes with `replace`, if it makes one. The type has
-- no dot.
pub is_monitor_type-add_file_suffix_process :
    (type monitorfile dstfile made : Text) (replace : Bool)
    → IsSuffix type
    → add_file_suffix_process (if replace then type_replace else type_add) type monitorfile dstfile
      ≡ some made
    → is_monitor_type made type ≡ true
unfolding add_file_suffix_process is_monitor_type
is_monitor_type-add_file_suffix_process type monitorfile dstfile made false s e =
    ground (arith, rindex_dot-append monitorfile type s, text_eq_refl type)
is_monitor_type-add_file_suffix_process type monitorfile dstfile made true s e =
    elim (Option-cases (rindex_dot monitorfile)) [
      | inl none_there ↦ absurd (ground arith)
      | inr ((front, behind), there) ↦
          ground (arith, rindex_dot-append front type s, text_eq_refl type)
    ]

-- The suffix of every compression leads back to its number.
pub get_compress_type_id-get_compress_suffix_by_id :
    (i : ℕ) (suffix : Text)
    → get_compress_suffix_by_id i ≡ some suffix
    → get_compress_type_id (some suffix) ≡ pos i
unfolding get_compress_type_id get_compress_suffix_by_id position mmdd_pro.Common.text_eq
get_compress_type_id-get_compress_suffix_by_id zero suffix e = ground arith
get_compress_type_id-get_compress_suffix_by_id (suc zero) suffix e = ground arith
get_compress_type_id-get_compress_suffix_by_id (suc (suc zero)) suffix e = ground arith
get_compress_type_id-get_compress_suffix_by_id (suc (suc (suc zero))) suffix e = ground arith
get_compress_type_id-get_compress_suffix_by_id (suc (suc (suc (suc zero)))) suffix e = ground arith
get_compress_type_id-get_compress_suffix_by_id (suc (suc (suc (suc (suc zero))))) suffix e =
    ground arith
get_compress_type_id-get_compress_suffix_by_id (suc (suc (suc (suc (suc (suc zero)))))) suffix e =
    ground arith
get_compress_type_id-get_compress_suffix_by_id (suc (suc (suc (suc (suc (suc (suc zero))))))) suffix
      e =
    ground arith
get_compress_type_id-get_compress_suffix_by_id (suc (suc (suc (suc (suc (suc (suc (suc zero))))))))
      suffix e =
    ground arith
get_compress_type_id-get_compress_suffix_by_id
      (suc (suc (suc (suc (suc (suc (suc (suc (suc zero))))))))) suffix e =
    ground arith
get_compress_type_id-get_compress_suffix_by_id
      (suc (suc (suc (suc (suc (suc (suc (suc (suc (suc zero)))))))))) suffix e =
    ground arith
get_compress_type_id-get_compress_suffix_by_id
      (suc (suc (suc (suc (suc (suc (suc (suc (suc (suc (suc i))))))))))) suffix e =
    absurd (ground arith)
