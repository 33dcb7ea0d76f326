-- ===== src/Libraries/Laws.antt =====
-- How often a library stays open (utils/dlapi.c).
use mmdd_pro.Common.{
  ℕ, ◌+◌, ◌≡◌, ◌∙◌, inl, inr, Bool, ◌&&◌, not, List, [], ◌∷◌, some, arith, if◌then◌else◌, Text,
  text_eq, length, Bool-cases, ℤ,
}
use mmdd_pro.Libraries.{Opened, dynamic_call_library_func1, call_each}

module _ (found : Text → Bool) (has : Text → Text → Bool) (call : Text → Text → List ℕ → ℤ) where
  one_call :
      (lib func : Text) (src : ℕ) (opened : Opened) (q : Text)
      → (dynamic_call_library_func1 found has call (some lib) (some func) src opened).1 q
        ≡ opened q + (if found lib && not (has lib func) && text_eq lib q then 1 else 0)
  unfolding dynamic_call_library_func1
  one_call lib func src opened q = elim (Bool-cases (found lib)) [
    | inr missing ↦ rw (missing, dynamic_call_library_func1) (ground arith)
    | inl there ↦ elim (Bool-cases (has lib func)) [
      | inl good ↦ rw (there, good, dynamic_call_library_func1) (ground arith)
      | inr bad ↦ rw (there, bad, dynamic_call_library_func1) (ground arith)
    ]
  ]

  -- Calls of one function of one library, however many: each library is as often open as before, but
  -- a library that is found and does not have the function is once more open for each call.
  pub call_each_lem :
      (lib func : Text) (nodes : List ℕ) (opened : Opened) (q : Text)
      → call_each found has call lib func nodes opened q
        ≡ opened q + (if found lib && not (has lib func) && text_eq lib q then length nodes else 0)
  unfolding call_each
  call_each_lem lib func [] opened q = ground arith
  call_each_lem lib func (src ∷ nodes) opened q =
      call_each_lem lib func nodes _ q ∙ ground (arith, one_call lib func src opened q)
