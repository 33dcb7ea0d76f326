-- ===== src/Config/Groups/Valid.antt =====
-- What a table of monitor groups that get_monitor_group_info accepts looks like.
use mmdd_pro.Common.{
  ℕ, zero, suc, ◌+◌, ◌<◌, ◌≡◌, ◌≢◌, refl, ap, inl, inr, Bool, true, false, ◌||◌, not, List, [], ◌∷◌,
  Option, none, some, arith, ◌==◌, Text, length, take, All, leb, ℤ, pos, negsuc, Bool-cases,
  Option-cases,
}
use mmdd_pro.Pipeline.State.{Server, ServerGroup}
use mmdd_pro.Watch.{get_server_id_by_name, server_id_from}
use mmdd_pro.Util.Paths.{first_is}
use mmdd_pro.Util.Split.{StrSplit, str_split_func}
use mmdd_pro.Util.Split.Laws.{length-str_split_func_pos}
use mmdd_pro.Config.{
  Outcome, fault, ok, ◌>>=◌, check, Ensures, at_fault, at_fails, at_ok, Ensures-bind, ensured,
  Ensures-and,
}
use mmdd_pro.Config.ServerGroups.{
  server_index, index_of_id, rs_prime_of, rs_back_at, rs_back_from, rs_back_of, piece, group_of,
  split_of, server_group, server_groups, get_upload_group_server_group_list,
}

abbrev IsBack : ℕ → Option ℕ → Type 0
IsBack n none = Unit {0}
IsBack n (some i) = i < n

-- Every server of the group is in a table of `n` servers.
pub record IsServed (n : ℕ) (g : ServerGroup) : Type 0 where
  pub first : g.rs_first < n
  pub more : All (λ i. i < n) g.rs_more
  pub back : All (IsBack n) g.rs_back

server_id_from-lt :
    (ss : List Server) (name : Text) (k i : ℕ)
    → server_id_from ss name k ≡ pos i
    → i < k + length ss
unfolding server_id_from
server_id_from-lt [] name k i e = absurd (ground arith)
server_id_from-lt (s ∷ ss) name k i e = ground (arith, server_id_from-lt ss name (suc k) i)

server_index-lt :
    (ss : List Server) (name : Text) (i : ℕ) → server_index ss name ≡ some i → i < length ss
unfolding server_index index_of_id get_server_id_by_name
server_index-lt ss name i e = go (server_id_from ss name 0) refl e
  where
    go : (id : ℤ) → server_id_from ss name 0 ≡ id → index_of_id id ≡ some i → i < length ss
    go (pos j) at same = ground (arith, server_id_from-lt ss name 0 j)
    go (negsuc j) at same = absurd (ground arith)

take-All {ℓ} : {A : Type ℓ} (P : A → Type 0) (n : ℕ) (xs : List A) → All P xs → All P (take n xs)
take-All P zero xs a = tt
take-All P (suc n) [] a = tt
take-All P (suc n) (x ∷ xs) a = (a.0, take-All P n xs (a.1))

module _ (ss : List Server) where
  rs_prime_of-All : (names : List Text) → Ensures (All (λ i. i < length ss)) (rs_prime_of ss names)
  unfolding rs_prime_of
  rs_prime_of-All [] = at_ok [] tt
  rs_prime_of-All (name ∷ names) = elim (Option-cases (server_index ss name)) [
    | inl e ↦ rw (e, rs_prime_of) at_fails
    | inr (i, e) ↦
        rw (e, rs_prime_of)
          (Ensures-bind (rs_prime_of ss names) _ λ rest at.
            at_ok (i ∷ rest) (server_index-lt ss name i e, ensured (rs_prime_of-All names) at))
  ]

  back_named :
      (name : Text)
      → Ensures (IsBack (length ss)) (elim (server_index ss name) as (λ _. Outcome (Option ℕ)) [
        | none ↦ fault
        | some i ↦ ok (some i)
      ])
  back_named name = elim (Option-cases (server_index ss name)) [
    | inl e ↦ rw e at_fault
    | inr (i, e) ↦ rw e (at_ok (some i) (server_index-lt ss name i e))
  ]

  rs_back_at-IsBack :
      (back_g back : List Text) (j : ℕ) → Ensures (IsBack (length ss)) (rs_back_at ss back_g back j)
  unfolding rs_back_at
  rs_back_at-IsBack back_g back j = Ensures-bind (piece back_g j) _ λ g at.
      elim (Bool-cases (first_is b'-' g)) [
        | inl dash ↦ rw (dash, rs_back_at) (at_ok none tt)
        | inr other ↦
            rw (other, rs_back_at) (Ensures-bind (piece back j) _ λ name there. back_named name)
      ]

  rs_back_from-All :
      (back_g back : List Text) (j left : ℕ)
      → Ensures (All (IsBack (length ss))) (rs_back_from ss back_g back j left)
  unfolding rs_back_from
  rs_back_from-All back_g back j zero = at_ok [] tt
  rs_back_from-All back_g back j (suc left) = Ensures-bind (rs_back_at ss back_g back j) _ λ r at.
      Ensures-bind (rs_back_from ss back_g back (suc j) left) _ λ rest there. at_ok (r ∷ rest) (
        ensured (rs_back_at-IsBack back_g back j) at,
        ensured (rs_back_from-All back_g back (suc j) left) there,
      )

  rs_back_of-All :
      (back_g : StrSplit) (i n : ℕ) → Ensures (All (IsBack (length ss))) (rs_back_of ss back_g i n)
  unfolding rs_back_of
  rs_back_of-All back_g i n = elim (Bool-cases (back_g.count == 0)) [
    | inl none_there ↦ rw (none_there, rs_back_of) (at_ok [] tt)
    | inr some_there ↦
        rw (some_there, rs_back_of) (Ensures-bind (piece back_g.str_array i) _ λ p at. in_group p)
  ]
    where
      taken :
          (count : ℕ) (rs : List (Option ℕ)) (b : Bool)
          → All (IsBack (length ss)) rs
          → Ensures (All (IsBack (length ss))) (elim b as (λ _. Outcome (List (Option ℕ))) [
            | true ↦ ok (take count rs)
            | false ↦ fault
          ])
      taken count rs true a = at_ok _ (take-All (IsBack (length ss)) count rs a)
      taken count rs false a = at_fault

      split :
          (back : StrSplit) (b : Bool)
          → Ensures (All (IsBack (length ss))) (elim b as (λ _. Outcome (List (Option ℕ))) [
            | true ↦ ok []
            | false ↦ rs_back_from ss back_g.str_array back.str_array 0 n >>= λ rs.
                elim (leb back.count n) [ true ↦ ok (take back.count rs) | false ↦ fault ]
          ])
      split back true = at_ok [] tt
      split back false =
          Ensures-bind (rs_back_from ss back_g.str_array back.str_array 0 n) _ λ rs at.
            taken back.count rs (leb back.count n)
              (ensured (rs_back_from-All back_g.str_array back.str_array 0 n) at)

      in_group :
          (p : Text)
          → Ensures (All (IsBack (length ss))) (
              let back = str_split_func p b',' in
              elim (back.count == 0) as (λ _. Outcome (List (Option ℕ))) [
                | true ↦ ok []
                | false ↦ rs_back_from ss back_g.str_array back.str_array 0 n >>= λ rs.
                    elim (leb back.count n) [ true ↦ ok (take back.count rs) | false ↦ fault ]
              ])
      in_group p = split (str_split_func p b',') ((str_split_func p b',').count == 0)

  group_of-IsServed :
      (prime : List ℕ) (back : List (Option ℕ))
      → All (λ i. i < length ss) prime
      → All (IsBack (length ss)) back
      → Ensures (IsServed (length ss)) (group_of prime back)
  group_of-IsServed [] back a b = at_fails
  group_of-IsServed (r ∷ rs) back a b = at_ok _ (record { first = a.0; more = a.1; back = b })

  server_group-IsServed :
      (back_g : StrSplit) (i : ℕ) (p : Text)
      → Ensures (IsServed (length ss)) (server_group ss back_g i p)
  unfolding server_group
  server_group-IsServed back_g i p =
      let primer = str_split_func p b',' in
      Ensures-bind (check (not (primer.count == 0))) _ λ u some_there.
        Ensures-bind (rs_prime_of ss primer.str_array) _ λ prime at.
          Ensures-bind (rs_back_of ss back_g i primer.count) _ λ back there.
            group_of-IsServed prime back (ensured (rs_prime_of-All primer.str_array) at)
              (ensured (rs_back_of-All back_g i primer.count) there)

  server_groups-All :
      (back_g : StrSplit) (i : ℕ) (ps : List Text)
      → Ensures (All (IsServed (length ss))) (server_groups ss back_g i ps)
  unfolding server_groups
  server_groups-All back_g i [] = at_ok [] tt
  server_groups-All back_g i (p ∷ ps) = Ensures-bind (server_group ss back_g i p) _ λ g at.
      Ensures-bind (server_groups ss back_g (suc i) ps) _ λ rest there. at_ok (g ∷ rest) (
        ensured (server_group-IsServed back_g i p) at,
        ensured (server_groups-All back_g (suc i) ps) there,
      )

  -- As many groups as pieces.
  server_groups-length :
      (back_g : StrSplit) (i : ℕ) (ps : List Text)
      → Ensures (λ gs. length gs ≡ length ps) (server_groups ss back_g i ps)
  unfolding server_groups
  server_groups-length back_g i [] = at_ok [] refl
  server_groups-length back_g i (p ∷ ps) = Ensures-bind (server_group ss back_g i p) _ λ g at.
      Ensures-bind (server_groups ss back_g (suc i) ps) _ λ rest there.
        at_ok (g ∷ rest) (ap suc (ensured (server_groups-length back_g (suc i) ps) there))

  nothing :
      (back : Option Text) {gs : List ServerGroup}
      → get_upload_group_server_group_list ss none back ≢ ok gs
  unfolding get_upload_group_server_group_list
  nothing back e = ground arith

  empty :
      (back : Option Text) {gs : List ServerGroup}
      → get_upload_group_server_group_list ss (some []) back ≢ ok gs
  unfolding get_upload_group_server_group_list
  empty back e = ground arith

  listed :
      (c : ℕ) (t : Text) (back : Option Text)
      → Ensures
          (λ gs.
            All (IsServed (length ss)) gs
            × (length gs ≡ length (str_split_func (c ∷ t) b'|').str_array))
          (get_upload_group_server_group_list ss (some (c ∷ t)) back)
  unfolding get_upload_group_server_group_list
  listed c t back =
      let primer_g = str_split_func (c ∷ t) b'|' in
      let back_g = split_of back b'|' in
      Ensures-bind (check (back_g.count == 0 || primer_g.count == back_g.count)) _ λ u at.
        Ensures-and (server_groups-All back_g 0 primer_g.str_array)
          (server_groups-length back_g 0 primer_g.str_array)

  -- If get_upload_group_server_group_list accepts the lists of primary and backup servers, then its
  -- server groups name servers of the table only, and there is one for each piece of the primary
  -- list between '|'.
  pub get_upload_group_server_group_list_lem :
      (primer back : Option Text) {gs : List ServerGroup}
      → get_upload_group_server_group_list ss primer back ≡ ok gs
      → (t : Text) × (primer ≡ some t)
        × All (IsServed (length ss)) gs
        × (length gs ≡ length (str_split_func t b'|').str_array)
  get_upload_group_server_group_list_lem none back e = absurd (nothing back e)
  get_upload_group_server_group_list_lem (some []) back e = absurd (empty back e)
  get_upload_group_server_group_list_lem (some (c ∷ t)) back e =
      let (served, as_many) = ensured (listed c t back) e in (c ∷ t, refl, served, as_many)

  pub length-get_upload_group_server_group_list_pos :
      (primer back : Option Text) {gs : List ServerGroup}
      → get_upload_group_server_group_list ss primer back ≡ ok gs
      → 0 < length gs
  length-get_upload_group_server_group_list_pos none back e = absurd (nothing back e)
  length-get_upload_group_server_group_list_pos (some []) back e = absurd (empty back e)
  length-get_upload_group_server_group_list_pos (some (c ∷ t)) back e =
      omega (arith, (ensured (listed c t back) e).1, length-str_split_func_pos c t b'|')
