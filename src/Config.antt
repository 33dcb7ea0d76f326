-- ===== src/Config.antt =====
-- Reading the configuration tree: global_cfg_init, getDBConfig and cfg_init of main.c,
-- get_server_info of servers.c, get_upload_group_server_group_list and get_monitor_group_info of
-- monitor.c. A run of such a function has one of four outcomes; the fields that it fills are the
-- value of the last.
pub mod Servers
pub mod ServerGroups
pub mod Groups
pub mod Globals
pub mod Names
use mmdd_pro.Common.{
  ℕ, zero, suc, ◌+◌, ◌*◌, ◌-◌, ◌^◌, ◌≡◌, refl, subst, Bool, true, false, ◌&&◌, ◌||◌, List, [], ◌∷◌,
  Option, none, some, if◌then◌else◌, ◌==◌, Text, text_eq, ltb, leb, length, ℤ, pos, negsuc,
}
use mmdd_pro.Conf.Node.{ConfNode, Forest, end, child}
use mmdd_pro.Conf.Lookup.{conf_get_child_value}

-- `fault`: undefined behaviour, such as the use of NULL as a string or a write past a buffer;
-- `exits`: exit is called; `fails`: NEWIUP_FAIL is returned.
pub data Outcome {ℓ} (A : Type ℓ) : Type ℓ where
  fault exits fails : Outcome A
  ok : A → Outcome A

infixl 5 ◌>>=◌ ◌>>◌
abbrev pub ◌>>=◌ {ℓ κ} : {A : Type ℓ} {B : Type κ} → Outcome A → (A → Outcome B) → Outcome B
fault >>= f = fault
exits >>= f = exits
fails >>= f = fails
ok a >>= f = f a

abbrev pub ◌>>◌ {ℓ} : {B : Type ℓ} → Outcome (Unit {0}) → Outcome B → Outcome B
m >> k = m >>= λ _. k

-- Inversion of a successful bind.
pub >>=-eq-ok {ℓ κ} :
    {A : Type ℓ} {B : Type κ} (m : Outcome A) (f : A → Outcome B) {b : B}
    → (m >>= f) ≡ ok b
    → (a : A) × (m ≡ ok a) × (f a ≡ ok b)
>>=-eq-ok fault f h = cc
>>=-eq-ok exits f h = cc
>>=-eq-ok fails f h = cc
>>=-eq-ok (ok a) f h = (a, refl, h)

-- An error that is logged and returned, unless the test holds.
abbrev pub check : Bool → Outcome (Unit {0})
check true = ok tt
check false = fails

-- A `char *` that is read as a string.
abbrev pub text : Option Text → Outcome Text
text none = fault
text (some t) = ok t

-- ConfGetChildValue, and an error if there is no such child. The value may be NULL.
abbrev pub child_value : Forest → Text → Outcome (Option Text)
child_value head name = elim (conf_get_child_value head name) [ none ↦ fails | some v ↦ ok v ]

-- The copy of a string into a field of `size` bytes. A longer one leaves strncpy's field without a
-- NUL, and goes past the end of strcpy's.
abbrev pub copy_into : ℕ → Text → Outcome Text
copy_into size t = if ltb (length t) size then ok t else fault

abbrev pub copy_value : ℕ → Forest → Text → Outcome Text
copy_value size head name = do v ← child_value head name; t ← text v; copy_into size t

-- isspace and isdigit in the C locale.
is_space : ℕ → Bool
is_space c = c == 32 || (leb 9 c && leb c 13)

is_digit : ℕ → Bool
is_digit c = leb b'0' c && leb c b'9'

digits : ℕ → Text → ℕ
unfolding is_digit
digits n [] = n
digits n (c ∷ t) = elim (is_digit c) [ true ↦ digits (n * 10 + (c - b'0')) t | false ↦ n ]

negated : ℕ → ℤ
negated zero = pos 0
negated (suc n) = negsuc n

signed : Text → ℤ
unfolding digits negated
signed [] = pos 0
signed (c ∷ t) =
    if c == b'-'
    then negated (digits 0 t)
    else if c == b'+'
    then pos (digits 0 t)
    else pos (digits 0 (c ∷ t))

skip_spaces : Text → Text
unfolding is_space
skip_spaces [] = []
skip_spaces (c ∷ t) = elim (is_space c) [ true ↦ skip_spaces t | false ↦ c ∷ t ]

in_int : ℤ → Bool
in_int (pos n) = ltb n (2 ^ 31)
in_int (negsuc n) = ltb n (2 ^ 31)

-- atoi; a number that does not fit an int is undefined behaviour.
unfoldable pub atoi : Text → Outcome ℤ
unfolding signed skip_spaces in_int
atoi t = if in_int (signed (skip_spaces t)) then ok (signed (skip_spaces t)) else fault

-- ConfNodeNameCheck (main.c): the inner loop over the children of one child of the root, from a
-- count of `num`; `fails` is its -1.
unfoldable pub count_below : Forest → Text → ℕ → Outcome ℕ
count_below end name num = ok num
count_below (child n f head next) name num = elim f.val [
  | none ↦ fault
  | some v ↦ elim (text_eq v name) [
    | false ↦ count_below next name num
    | true ↦ elim (leb 2 (num + 1)) [ true ↦ fails | false ↦ count_below next name (num + 1) ]
  ]
]

unfoldable pub count_all : Forest → Text → ℕ → Outcome ℕ
count_all end name num = ok num
count_all (child n f head next) name num =
    count_below head name num >>= λ more. count_all next name more

-- strcmp with a NULL name is undefined as soon as there is a value to compare it with; the callers
-- copy it next, so it is undefined in any case.
unfoldable pub conf_node_name_check : ConfNode → Option Text → Outcome (Unit {0})
unfolding count_all count_below
conf_node_name_check root none = fault
conf_node_name_check root (some name) = do num ← count_all root.head name 0; ok tt

-- The check and strncpy(…, child->val, NEWIUP_NAME_LEN), with which both loops begin.
unfoldable pub taken_name : ConfNode → Option Text → Outcome Text
taken_name root val = do conf_node_name_check root val; name ← text val; copy_into 32 name

-- A property of the value, if the outcome is one.
pub data Ensures {ℓ} {A : Type ℓ} (P : A → Type 0) : Outcome A → Type ℓ where
  at_fault : Ensures P fault
  at_exits : Ensures P exits
  at_fails : Ensures P fails
  at_ok : (a : A) → P a → Ensures P (ok a)

pub Ensures-bind {ℓ κ} :
    {A : Type ℓ} {B : Type κ} {P : B → Type 0} (m : Outcome A) (f : A → Outcome B)
    → ((a : A) → m ≡ ok a → Ensures P (f a))
    → Ensures P (m >>= f)
Ensures-bind fault f h = at_fault
Ensures-bind exits f h = at_exits
Ensures-bind fails f h = at_fails
Ensures-bind (ok a) f h = h a refl

abbrev At {ℓ} : {A : Type ℓ} → (A → Type 0) → Outcome A → Type 0
At P (ok a) = P a
At P _ = Unit

Ensures-At {ℓ} : {A : Type ℓ} {P : A → Type 0} {r : Outcome A} → Ensures P r → At P r
Ensures-At at_fault = tt
Ensures-At at_exits = tt
Ensures-At at_fails = tt
Ensures-At (at_ok a h) = h

pub ensured {ℓ} :
    {A : Type ℓ} {P : A → Type 0} {r : Outcome A} {a : A} → Ensures P r → r ≡ ok a → P a
ensured {P = P} h e = subst (At P) e (Ensures-At h)

pub Ensures-and {ℓ} :
    {A : Type ℓ} {P Q : A → Type 0} {r : Outcome A}
    → Ensures P r
    → Ensures Q r
    → Ensures (λ a. P a × Q a) r
Ensures-and at_fault k = at_fault
Ensures-and at_exits k = at_exits
Ensures-and at_fails k = at_fails
Ensures-and (at_ok a h) k = at_ok a (h, ensured k refl)

pub check-eq-ok : (b : Bool) {u : Unit {0}} → check b ≡ ok u → b ≡ true
check-eq-ok true e = refl
check-eq-ok false e = cc

pub ok-Ensures {ℓ} :
    {A : Type ℓ} {P : A → Type 0} (r : Outcome A) → ((a : A) → r ≡ ok a → P a) → Ensures P r
ok-Ensures fault h = at_fault
ok-Ensures exits h = at_exits
ok-Ensures fails h = at_fails
ok-Ensures (ok a) h = at_ok a (h a refl)
