-- ===== src/Config/Servers/Accepted.antt =====
-- What a server that get_server_info (servers.c) accepts looks like.
use mmdd_pro.Common.{
  ℕ, ◌≤◌, ◌<◌, ◌≡◌, refl, ap, true, List, [], ◌∷◌, map, Option, arith, Text, codes, length, All, ℤ,
  pos, pos_part,
}
use mmdd_pro.Conf.Node.{ConfNode, Forest, end, child}
use mmdd_pro.Pipeline.Counting.{refs, all_refs}
use mmdd_pro.Config.{
  ok, check, text, atoi, child_value, copy_value, taken_name, Ensures, at_ok, Ensures-bind, ensured,
  check-eq-ok,
}
use mmdd_pro.Config.Servers.{
  ServerInfo, children_of, server_info, server_infos, get_server_info, halves, number_or,
  thread_num_ok, default_attempts, default_fsleep_time,
}
use mmdd_pro.Config.Groups.Accepted.{taken_name-lt}

pub record IsServerInfo (i : ServerInfo) : Type 0 where
  pub name : length i.server.name < 32
  pub threads :
      (i.thread_num ≡ pos (pos_part i.thread_num))
      × (1 ≤ pos_part i.thread_num)
      × (pos_part i.thread_num ≤ 15)
  pub queue : i.server.queue ≡ []
  pub in_hand : i.server.in_hand ≡ []

thread_num_ok_lem :
    (n : ℤ) → thread_num_ok n ≡ true → (n ≡ pos (pos_part n)) × (1 ≤ pos_part n) × (pos_part n ≤ 15)
thread_num_ok_lem n h = ground arith

pub server_info-IsServerInfo :
    (root : ConfNode) (val : Option Text) (head : Forest)
    → Ensures
        (λ i. IsServerInfo i × (taken_name root val ≡ ok i.server.name))
        (server_info root val head)
unfolding server_info
server_info-IsServerInfo root val head = Ensures-bind (taken_name root val) _ λ name e1.
    Ensures-bind (copy_value 1024 head (codes "analyzelib")) _ λ analyze e2.
      Ensures-bind (halves analyze) _ λ parts e3.
        Ensures-bind (copy_value 24 head (codes "addr")) _ λ addr e4.
          Ensures-bind (copy_value 32 head (codes "username")) _ λ username e5.
            Ensures-bind (copy_value 32 head (codes "passwd")) _ λ passwd e6.
              Ensures-bind (copy_value 32 head (codes "finish-flag")) _ λ finish_confirm e7.
                Ensures-bind (copy_value 32 head (codes "file-suffix")) _ λ file_suffix e8.
                  Ensures-bind (child_value head (codes "thread-num")) _ λ threads e9.
                    Ensures-bind (text threads) _ λ digits e10.
                      Ensures-bind (atoi digits) _ λ thread_num e11.
                        Ensures-bind (check (thread_num_ok thread_num)) _ λ u e12.
                          Ensures-bind (number_or default_attempts head (codes "attempts")) _
                            λ retry_count e13.
                              Ensures-bind
                                (number_or default_fsleep_time head (codes "fsleep-time")) _
                                λ sleep e14. at_ok _ (
                                  record {
                                    name = taken_name-lt root val e1;
                                    threads = thread_num_ok_lem thread_num (check-eq-ok _ e12);
                                    queue = refl;
                                    in_hand = refl;
                                  },
                                  e1,
                                )

server_infos-IsServerInfo :
    (root : ConfNode) (head : Forest) → Ensures (All IsServerInfo) (server_infos root head)
unfolding server_infos
server_infos-IsServerInfo root end = at_ok [] tt
server_infos-IsServerInfo root (child n f head next) =
    Ensures-bind (server_info root f.val head) _ λ info at.
      Ensures-bind (server_infos root next) _ λ rest there. at_ok (info ∷ rest) (
        (ensured (server_info-IsServerInfo root f.val head) at).0,
        ensured (server_infos-IsServerInfo root next) there,
      )

-- If get_server_info succeeds, then every server's name fits its field, its threads are from 1 to
-- 15, and it has no file to upload yet.
pub get_server_info-IsServerInfo :
    (root : ConfNode) {infos : List ServerInfo}
    → get_server_info root ≡ ok infos
    → All IsServerInfo infos
unfolding get_server_info
get_server_info-IsServerInfo root e =
    ensured
      (Ensures-bind (children_of root (codes "servers")) _
        λ head at. server_infos-IsServerInfo root head)
      e

-- Such servers hold no copies.
pub all_refs_of_accepted :
    (g a : ℕ) (infos : List ServerInfo)
    → All IsServerInfo infos
    → all_refs g a (map (λ i. i.server) infos) ≡ 0
unfolding all_refs refs
all_refs_of_accepted g a [] h = refl
all_refs_of_accepted g a (i ∷ infos) h = omega (
  arith,
  ap (refs g a) (h.0.queue),
  ap (refs g a) (h.0.in_hand),
  all_refs_of_accepted g a infos h.1,
)
