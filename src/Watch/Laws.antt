-- ===== src/Watch/Laws.antt =====
-- The searches agree with each other, and removing a directory takes its path away.
use mmdd_pro.Common.{
  ℕ, suc, ◌+◌, ◌≡◌, ◌≢◌, inl, inr, List, [], ◌∷◌, some, arith, Text, text_eq, text_eq_iff, ℤ, pos,
  get_elem?, Bool-cases,
}
use mmdd_pro.Pipeline.State.{Server}
use mmdd_pro.Watch.{
  WdNode, get_wd_wd_by_path, del_monitor_dir, server_id_from, get_server_id_by_name,
  get_server_by_name,
}

-- What the index of get_server_id_by_name means in a list whose first member has the index `k`.
abbrev pub IsIndexOf : List Server → Text → ℕ → ℤ → Type 0
IsIndexOf ss name k id =
    (s : Server)
    → get_server_by_name ss name ≡ some s
    → (i : ℕ) × (id ≡ pos (k + i)) × (get_elem? ss i ≡ some s) × (s.name ≡ name)

server_id_from-IsIndexOf :
    (ss : List Server) (name : Text) (k : ℕ) → IsIndexOf ss name k (server_id_from ss name k)
unfolding server_id_from get_server_by_name
server_id_from-IsIndexOf [] name k s e = absurd (ground arith)
server_id_from-IsIndexOf (x ∷ ss) name k s e = elim (Bool-cases (text_eq x.name name)) [
  | inl same ↦ (0, ground arith, ground arith, ground (arith, text_eq_iff x.name name))
  | inr other ↦
      let (i, at, there, named) = server_id_from-IsIndexOf ss name (suc k) s (ground arith) in
      (suc i, ground arith, there, named)
]

-- If get_server_by_name finds a server, then it has that name, and get_server_id_by_name gives an
-- index of the table where that server stands.
pub get_server_id_by_name_lem :
    (servers : List Server) (name : Text) (s : Server)
    → get_server_by_name servers name ≡ some s
    → (i : ℕ) × (get_server_id_by_name servers name ≡ pos i)
      × (get_elem? servers i ≡ some s)
      × (s.name ≡ name)
unfolding get_server_id_by_name
get_server_id_by_name_lem servers name s e =
    let (i, at, there, named) = server_id_from-IsIndexOf servers name 0 s e in
    (i, ground arith, there, named)

-- del_monitor_dir calls inotify_rm_watch for the watch that get_wd_wd_by_path gives for the path,
-- and what it gives for every other path is the same afterwards.
pub del_monitor_dir_lem :
    (head : List WdNode) (path other : Text) (wd : ℤ)
    → (del_monitor_dir head path).1 ≡ some wd
    → other ≢ path
    → (get_wd_wd_by_path head path ≡ wd)
      × (get_wd_wd_by_path (del_monitor_dir head path).0 other ≡ get_wd_wd_by_path head other)
unfolding del_monitor_dir get_wd_wd_by_path
del_monitor_dir_lem [] path other wd e ne = absurd (ground arith)
del_monitor_dir_lem (node ∷ head) path other wd e ne = elim (Bool-cases (text_eq node.path path)) [
  | inl same ↦
      let p = (text_eq_iff node.path path).0 same in
      (ground arith, ground (arith, text_eq_iff node.path other))
  | inr away ↦
      let rest = del_monitor_dir_lem head path other wd (ground arith) ne in
      (ground (arith, rest.0), ground (arith, rest.1))
]
