-- ===== src/Libraries.antt =====
-- The dynamic libraries: the five functions of utils/dlapi.c. What dlopen and dlsym find and what a
-- function returns are parameters; the state is how many more calls of dlopen than of dlclose have
-- succeeded for each library.
pub mod Laws
use mmdd_pro.Common.{
  ℕ, zero, suc, ◌+◌, ◌-◌, Bool, true, false, List, [], ◌∷◌, Option, none, some, if◌then◌else◌, Text,
  text_eq, ℤ, negsuc,
}

abbrev pub Opened : Type 0
Opened = Text → ℕ

-- -9000 and -9001
abbrev pub no_library : ℤ
no_library = negsuc 8999

abbrev pub no_function : ℤ
no_function = negsuc 9000

abbrev pub dlopen : Text → Opened → Opened
dlopen lib opened q = if text_eq lib q then opened q + 1 else opened q

abbrev pub dlclose : Text → Opened → Opened
dlclose lib opened q = if text_eq lib q then opened q - 1 else opened q

module _ (found : Text → Bool) (has : Text → Text → Bool) (call : Text → Text → List ℕ → ℤ) where
  -- What the five functions share; the arguments are addresses.
  unfoldable pub dynamic_call_library : Option Text → Option Text → List ℕ → Opened → ℤ × Opened
  dynamic_call_library none func args opened = (no_library, opened)
  dynamic_call_library (some lib) none args opened = (no_function, opened)
  dynamic_call_library (some lib) (some func) args opened =
      let handle = dlopen lib opened in
      if found lib
      then (if has lib func
          then (call lib func args, dlclose lib handle)
          else (no_function, handle))
      else (no_library, opened)

  unfoldable pub dynamic_call_library_func0 : Option Text → Option Text → Opened → ℤ × Opened
  unfolding dynamic_call_library
  dynamic_call_library_func0 lib func = dynamic_call_library lib func []

  unfoldable pub dynamic_call_library_func1 : Option Text → Option Text → ℕ → Opened → ℤ × Opened
  unfolding dynamic_call_library
  dynamic_call_library_func1 lib func a = dynamic_call_library lib func (a ∷ [])

  unfoldable pub dynamic_call_library_func2 :
      Option Text → Option Text → ℕ → ℕ → Opened → ℤ × Opened
  unfolding dynamic_call_library
  dynamic_call_library_func2 lib func a b = dynamic_call_library lib func (a ∷ b ∷ [])

  unfoldable pub dynamic_call_library_func3 :
      Option Text → Option Text → ℕ → ℕ → ℕ → Opened → ℤ × Opened
  unfolding dynamic_call_library
  dynamic_call_library_func3 lib func a b c = dynamic_call_library lib func (a ∷ b ∷ c ∷ [])

  unfoldable pub dynamic_call_library_func4 :
      Option Text → Option Text → ℕ → ℕ → ℕ → ℕ → Opened → ℤ × Opened
  unfolding dynamic_call_library
  dynamic_call_library_func4 lib func a b c e = dynamic_call_library lib func (a ∷ b ∷ c ∷ e ∷ [])

  -- The calls of do_upload_file (servers.c) with the sources `nodes`, one behind the other.
  unfoldable pub call_each : Text → Text → List ℕ → Opened → Opened
  unfolding dynamic_call_library_func1
  call_each lib func [] opened = opened
  call_each lib func (src ∷ nodes) opened =
      call_each lib func nodes (dynamic_call_library_func1 (some lib) (some func) src opened).1
