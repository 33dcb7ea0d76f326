-- ===== src/Config/ServerGroups.antt =====
-- get_upload_group_server_group_list of monitor.c: the server groups of `servers-primer` and
-- `servers-backup`, written "a,b|c" and "d,-|e". A `real_server *` is the index in g_server. `fails`
-- stands for a list that is NULL or whose count is 0, which the only caller refuses alike.
pub mod Backup
use mmdd_pro.Common.{
  ℕ, zero, suc, ◌+◌, Bool, true, false, ◌&&◌, ◌||◌, not, List, [], ◌∷◌, Option, none, some,
  if◌then◌else◌, ◌==◌, Text, get_elem?, take, leb, ltb, ℤ, pos, negsuc,
}
use mmdd_pro.Util.Paths.{first_is}
use mmdd_pro.Util.Split.{StrSplit, str_split_func}
use mmdd_pro.Watch.{get_server_id_by_name}
use mmdd_pro.Pipeline.State.{Server, ServerGroup}
use mmdd_pro.Config.{Outcome, fault, exits, fails, ok, ◌>>=◌, ◌>>◌, check}

-- str_split_func of a pointer that may be NULL.
abbrev pub split_of : Option Text → ℕ → StrSplit
split_of none delimiter = record { count = 0; str_array = [] }
split_of (some src) delimiter = str_split_func src delimiter

unfoldable pub index_of_id : ℤ → Option ℕ
index_of_id (pos i) = some i
index_of_id (negsuc n) = none

-- get_server_by_name
unfoldable pub server_index : List Server → Text → Option ℕ
unfolding index_of_id
server_index servers name = index_of_id (get_server_id_by_name servers name)

-- split->str_array[j]; past the end it is read out of bounds.
abbrev pub piece : List Text → ℕ → Outcome Text
piece str_array j = elim (get_elem? str_array j) [ none ↦ fault | some p ↦ ok p ]

-- The servers of one primary group.
unfoldable pub rs_prime_of : List Server → List Text → Outcome (List ℕ)
rs_prime_of servers [] = ok []
rs_prime_of servers (name ∷ names) = elim (server_index servers name) [
  | none ↦ fails
  | some i ↦ do rest ← rs_prime_of servers names; ok (i ∷ rest)
]

-- The j-th backup server. The '-' is looked for at the j-th server group of `back_g`, not at the
-- j-th server of `back`. The message about a server that is not there reads the pieces of
-- split_primer after str_split_free has set them to NULL.
unfoldable pub rs_back_at : List Server → List Text → List Text → ℕ → Outcome (Option ℕ)
unfolding first_is
rs_back_at servers back_g back j = do
  g ← piece back_g j
  elim (first_is b'-' g) [
    | true ↦ ok none
    | false ↦ do
      name ← piece back j
      elim (server_index servers name) [ none ↦ fault | some i ↦ ok (some i) ]
  ]

-- The loop over `left` servers from the j-th one on.
unfoldable pub rs_back_from :
    List Server → List Text → List Text → ℕ → ℕ → Outcome (List (Option ℕ))
unfolding rs_back_at
rs_back_from servers back_g back j zero = ok []
rs_back_from servers back_g back j (suc left) = do
  r ← rs_back_at servers back_g back j
  rest ← rs_back_from servers back_g back (suc j) left
  ok (r ∷ rest)

-- The backup servers of the i-th group, which has `n` primary ones. The array has room for `n`, and
-- its count is that of the backup servers: with more of them it would be read past its end.
unfoldable pub rs_back_of : List Server → StrSplit → ℕ → ℕ → Outcome (List (Option ℕ))
unfolding rs_back_from
rs_back_of servers back_g i n = elim (back_g.count == 0) [
  | true ↦ ok []
  | false ↦ do
    p ← piece back_g.str_array i
    let back = str_split_func p b','
    elim (back.count == 0) [
      | true ↦ ok []
      | false ↦ do
        rs ← rs_back_from servers back_g.str_array back.str_array 0 n
        elim (leb back.count n) [ true ↦ ok (take back.count rs) | false ↦ fault ]
    ]
]

abbrev pub group_of : List ℕ → List (Option ℕ) → Outcome ServerGroup
group_of [] back = fails
group_of (r ∷ rs) back =
    ok
      (record { rs_first = r; rs_more = rs; rs_back = back; rr_queue_prime = 0; rr_queue_back = 0 })

-- One round of the loop over the groups.
unfoldable pub server_group : List Server → StrSplit → ℕ → Text → Outcome ServerGroup
unfolding rs_prime_of rs_back_of
server_group servers back_g i p = do
  let primer = str_split_func p b','
  check (not (primer.count == 0))
  prime ← rs_prime_of servers primer.str_array
  back ← rs_back_of servers back_g i primer.count
  group_of prime back

unfoldable pub server_groups : List Server → StrSplit → ℕ → List Text → Outcome (List ServerGroup)
unfolding server_group
server_groups servers back_g i [] = ok []
server_groups servers back_g i (p ∷ ps) = do
  g ← server_group servers back_g i p
  rest ← server_groups servers back_g (suc i) ps
  ok (g ∷ rest)

unfoldable pub get_upload_group_server_group_list :
    List Server → Option Text → Option Text → Outcome (List ServerGroup)
unfolding server_groups
get_upload_group_server_group_list servers none back = fails
get_upload_group_server_group_list servers (some []) back = fails
get_upload_group_server_group_list servers (some (c ∷ primer)) back = do
  let primer_g = str_split_func (c ∷ primer) b'|'
  let back_g = split_of back b'|'
  check (back_g.count == 0 || primer_g.count == back_g.count)
  server_groups servers back_g 0 primer_g.str_array
