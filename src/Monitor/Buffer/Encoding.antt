-- ===== src/Monitor/Buffer/Encoding.antt =====
-- The bytes of events in a buffer, as the kernel writes them (monitor.c reads them).
use mmdd_pro.Common.{
  ℕ, zero, suc, ◌+◌, ◌*◌, ◌/◌, ◌%◌, ◌^◌, ◌<◌, ◌≡◌, refl, sym, ap, ◌∙◌, false, List, [], ◌∷◌, ◌++◌,
  Option, none, some, arith, ◌==◌, Text, length, length-append, drop, ltb, All, append_assoc,
}
use mmdd_pro.Monitor.{Event}
use mmdd_pro.Monitor.Buffer.{event_size, word_at, until_nul, event_with, event_of}

-- What the kernel writes for an event: the fields as 32-bit patterns, and the name, if there is one,
-- with a NUL and `pad` more of them behind it.
pub record Written : Type 0 where
  pub wd : ℕ
  pub mask : ℕ
  pub cookie : ℕ
  pub name : Option Text
  pub pad : ℕ

abbrev pub zeros : ℕ → List ℕ
zeros zero = []
zeros (suc n) = 0 ∷ zeros n

abbrev pub name_bytes : Option Text → ℕ → List ℕ
name_bytes none pad = []
name_bytes (some t) pad = t ++ zeros (suc pad)

abbrev pub word : ℕ → List ℕ → List ℕ
word v rest = v % 256 ∷ (v / 256 % 256 ∷ (v / 65536 % 256 ∷ (v / 16777216 % 256 ∷ rest)))

-- The bytes of an event, with what follows it.
abbrev pub encode : Written → List ℕ → List ℕ
encode e rest = word e.wd (
    word e.mask
      (word e.cookie (word (length (name_bytes e.name e.pad)) (name_bytes e.name e.pad ++ rest))))

abbrev pub encode_all : List Written → List ℕ
encode_all [] = []
encode_all (e ∷ es) = encode e (encode_all es)

abbrev pub HasName : Option Text → Type 0
HasName none = Unit {0}
HasName (some t) = All (λ c. (c == 0) ≡ false) t

-- The fields fit, and a name has no NUL inside.
pub record IsWritten (e : Written) : Type 0 where
  pub wd : e.wd < 2 ^ 32
  pub mask : e.mask < 2 ^ 32
  pub size : length (name_bytes e.name e.pad) < 2 ^ 32
  pub text : HasName e.name

abbrev pub event_written : Written → Event
event_written e = event_with e.wd e.mask e.name

word_sum :
    (v : ℕ)
    → v < 2 ^ 32
    → v % 256 + 256 * (v / 256 % 256) + 65536 * (v / 65536 % 256) + 16777216 * (v / 16777216 % 256)
      ≡ v
word_sum v h = omega arith

drop_add : (a b : ℕ) (xs : List ℕ) → drop (a + b) xs ≡ drop b (drop a xs)
drop_add zero b xs = ap (λ n. drop n xs) (omega arith)
drop_add (suc a) b [] =
    ap (λ n. drop n []) {x = suc a + b} {y = suc (a + b)} (omega arith) ∙ sym (drop-nil b)
  where
    drop-nil : (n : ℕ) → drop {A = ℕ} n [] ≡ []
    drop-nil zero = refl
    drop-nil (suc n) = refl
drop_add (suc a) b (x ∷ xs) =
    ap (λ n. drop n (x ∷ xs)) {x = suc a + b} {y = suc (a + b)} (omega arith) ∙ drop_add a b xs

drop-append : (xs ys : List ℕ) → drop (length xs) (xs ++ ys) ≡ ys
drop-append [] ys = refl
drop-append (x ∷ xs) ys = drop-append xs ys

until_nul-zeros :
    (t : Text) (rest : List ℕ)
    → All (λ c. (c == 0) ≡ false) t
    → until_nul (t ++ (0 ∷ rest)) ≡ some t
unfolding until_nul
until_nul-zeros [] rest h = refl
until_nul-zeros (c ∷ t) rest (c_there, h) = rw (c_there, until_nul-zeros t rest h, until_nul) refl

size_written :
    (e : Written) (rest : List ℕ)
    → IsWritten e
    → word_at 12 (encode e rest) ≡ length (name_bytes e.name e.pad)
unfolding word_at
size_written e rest h = word_sum _ h.size

same_event :
    (a b : ℕ) (name : Option Text) {a' b' : ℕ}
    → a ≡ a'
    → b ≡ b'
    → some (event_with a b name) ≡ some (event_with a' b' name)
same_event a b name {a'} p q =
    ap (λ v. some (event_with v b name)) p ∙ ap (λ v. some (event_with a' v name)) q

pub event_of-encode :
    (e : Written) (rest : List ℕ) → IsWritten e → event_of (encode e rest) ≡ some (event_written e)
unfolding event_of word_at
event_of-encode e rest h = go e.name e.pad h.size h.text
  where
    go :
        (name : Option Text) (pad : ℕ)
        → length (name_bytes name pad) < 2 ^ 32
        → HasName name
        → event_of (encode (record e { name = name; pad = pad }) rest)
          ≡ some (event_with e.wd e.mask name)
    go none pad fits good = same_event _ _ none (word_sum e.wd h.wd) (word_sum e.mask h.mask)
    go (some t) pad fits good =
        let size = word_sum (length (t ++ zeros (suc pad))) fits in
        let there : (length (t ++ zeros (suc pad)) == 0) ≡ false =
          ground (arith, length-append t (zeros (suc pad))) in
        let ends = append_assoc t (zeros (suc pad)) rest in
        let name = until_nul-zeros t (zeros pad ++ rest) good in
        rw (size, there, ends, name)
          (same_event _ _ (some t) (word_sum e.wd h.wd) (word_sum e.mask h.mask))

pub drop-encode :
    (e : Written) (rest : List ℕ)
    → IsWritten e
    → drop (event_size + word_at 12 (encode e rest)) (encode e rest) ≡ rest
drop-encode e rest h =
    ap (λ n. drop (event_size + n) (encode e rest)) (size_written e rest h)
    ∙ drop_add event_size (length (name_bytes e.name e.pad)) (encode e rest)
    ∙ drop-append (name_bytes e.name e.pad) rest

pub fits_encode :
    (e : Written) (rest : List ℕ)
    → IsWritten e
    → ltb (length (encode e rest)) (event_size + word_at 12 (encode e rest)) ≡ false
fits_encode e rest h =
    ground (arith, size_written e rest h, length-append (name_bytes e.name e.pad) rest)
