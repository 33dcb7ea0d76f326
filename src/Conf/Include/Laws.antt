-- ===== src/Conf/Include/Laws.antt =====
-- The path of an include file (ConfLoadCompleteIncludePath of utils/conf.c) fits its buffer.
use mmdd_pro.Common.{
  ℕ, zero, suc, ◌+◌, ◌-◌, ◌≤◌, ◌<◌, ◌≡◌, refl, sym, ap, subst, ◌∙◌, inl, inr, Bool, true, false, [],
  ◌∷◌, ◌++◌, Option, some, arith, length, take, ◌==◌, if◌then◌else◌, Text, codes, length-append,
  Bool-cases,
}
use mmdd_pro.Util.Copy.{Buffer, strlcpy, strlcat, cstr}
use mmdd_pro.Util.Copy.Laws.{IsText, strlcpy_lem, strlcat_lem}
use mmdd_pro.Util.Paths.{path_is_relative}
use mmdd_pro.Conf.Node.{ConfNode}
use mmdd_pro.Conf.Lookup.{done, conf_get}
use mmdd_pro.Conf.Include.{
  last_is, append, with_slash, the_path, complete, conf_load_complete_include_path,
}

split : (b : Buffer) → length (cstr b) < length b → (rest : Buffer) × (b ≡ cstr b ++ (0 ∷ rest))
unfolding cstr
split [] h = absurd (omega (arith, h))
split (c ∷ b) h = elim (Bool-cases (c == 0)) [
  | inl zero_there ↦ (b, ground arith)
  | inr other ↦ let (rest, e) = split b (ground (arith, h)) in (rest, ground (arith, e))
]

take-whole : (n : ℕ) (t : Text) → length t ≤ n → take n t ≡ t
take-whole zero [] h = refl
take-whole zero (c ∷ t) h = absurd (omega (arith, h))
take-whole (suc n) [] h = refl
take-whole (suc n) (c ∷ t) h = ap (λ r. c ∷ r) (take-whole n t (omega (arith, h)))

IsText-append : (s t : Text) → IsText s → IsText t → IsText (s ++ t)
IsText-append [] t h k = k
IsText-append (c ∷ s) t h k = (h.0, IsText-append s t h.1 k)

-- A buffer of `n` bytes that holds the C string `t`.
record IsFilled (n : ℕ) (t : Text) (r : Option (Buffer × ℕ)) : Type 0 where
  buffer : Buffer
  count : ℕ
  made : r ≡ some (buffer, count)
  text : cstr buffer ≡ t
  room : n ≤ length buffer

append-IsFilled :
    (n : ℕ) (t src : Text) (r : Option (Buffer × ℕ))
    → IsText t
    → IsText src
    → length t + length src < n
    → IsFilled n t r
    → IsFilled n (t ++ src) (append n src r)
append-IsFilled n t src r ht hs fits f =
    let size = ap length f.text in
    let (rest, e) = split f.buffer (omega (arith, size, fits, f.room)) in
    let whole = e ∙ ap (λ s. s ++ (0 ∷ rest)) f.text in
    let many = ap length whole ∙ length-append t (0 ∷ rest) in
    let (b, done_at, string, many') =
      strlcat_lem t src rest n ht hs (omega (arith, fits)) (omega (arith, many, f.room)) in
    record {
      buffer = b;
      count = length t + length src;
      made = ap (append n src) f.made ∙ ap (λ s. strlcat s src n) whole ∙ done_at;
      text = string ∙ take-whole (n - 1) (t ++ src) (omega (arith, fits, length-append t src));
      room = omega (arith, many', many, f.room);
    }

-- The directory with a slash at its end.
abbrev pub slashed : Text → Bool → Text
slashed dir true = dir
slashed dir false = dir ++ codes "/"

with_slash-IsFilled :
    (n : ℕ) (dir : Text) (b : Bool) (r : Option (Buffer × ℕ))
    → IsText dir
    → last_is b'/' dir ≡ some b
    → length dir + 1 < n
    → IsFilled n dir r
    → IsFilled n (slashed dir b) (with_slash n r)
unfolding with_slash
with_slash-IsFilled n dir b r ht last fits f =
    subst (λ q. IsFilled n (slashed dir b) (with_slash n q)) (sym f.made)
      (rw (f.text, last, with_slash) (tested b))
  where
    filled : IsFilled n dir (some (f.buffer, f.count))
    filled = record {
      buffer = f.buffer;
      count = f.count;
      made = refl;
      text = f.text;
      room = f.room;
    }

    tested :
        (b : Bool)
        → IsFilled n (slashed dir b) (
            if b then some (f.buffer, f.count) else append n (codes "/") (some (f.buffer, f.count)))
    tested true = filled
    tested false =
        append-IsFilled n dir (codes "/") _ ht (ground arith, tt) (omega (arith, fits)) filled

length-slashed : (dir : Text) (b : Bool) → length (slashed dir b) ≤ length dir + 1
length-slashed dir true = omega arith
length-slashed dir false = omega (arith, length-append dir (codes "/"))

slashed-IsText : (dir : Text) (b : Bool) → IsText dir → IsText (slashed dir b)
slashed-IsText dir true h = h
slashed-IsText dir false h = IsText-append dir (codes "/") h (ground arith, tt)

complete_lem :
    (malloc : ℕ → Buffer) (dir file : Text) (b : Bool)
    → ((n : ℕ) → n ≤ length (malloc n))
    → IsText dir
    → IsText file
    → last_is b'/' dir ≡ some b
    → complete malloc dir file ≡ done (slashed dir b ++ file)
unfolding complete
complete_lem malloc dir file b enough hd hf last =
    let n = length dir + length file + 2 in
    let (buf, copied, string, size) = strlcpy_lem (malloc n) dir n hd (omega arith) (enough n) in
    let filled : IsFilled n dir (strlcpy (malloc n) dir n) = record {
      buffer = buf;
      count = length dir;
      made = copied;
      text = string ∙ take-whole (n - 1) dir (omega arith);
      room = omega (arith, size, enough n);
    } in
    let at_last =
      append-IsFilled n (slashed dir b) file _ (slashed-IsText dir b hd) hf
        (omega (arith, length-slashed dir b))
        (with_slash-IsFilled n dir b _ hd last (omega arith) filled) in
    ap the_path at_last.made ∙ ap done at_last.text

-- For a relative file and an include path that is set, not empty and without NULs, and with buffers
-- as long as malloc was asked for: no byte outside the buffer is read or written, and the result is
-- the include path, a slash if there is none at its end, and the file, with nothing cut off.
pub conf_load_complete_include_path_lem :
    (malloc : ℕ → Buffer) (root : ConfNode) (dir file : Text) (b : Bool)
    → ((n : ℕ) → n ≤ length (malloc n))
    → path_is_relative file ≡ true
    → conf_get root (codes "include-path") ≡ done (some (some dir))
    → IsText dir
    → IsText file
    → last_is b'/' dir ≡ some b
    → conf_load_complete_include_path malloc root file ≡ done (slashed dir b ++ file)
unfolding conf_load_complete_include_path
conf_load_complete_include_path_lem malloc root dir file b enough relative there hd hf last =
    rw (relative, there, conf_load_complete_include_path)
      (complete_lem malloc dir file b enough hd hf last)
