-- ===== src/Config/Groups/Accepted.antt =====
-- What a monitor group that get_monitor_group_info (monitor.c) accepts looks like.
use mmdd_pro.Common.{
  ℕ, ◌≤◌, ◌<◌, ◌≡◌, ◌≢◌, ◌∙◌, inl, inr, true, not, List, [], ◌∷◌, Option, none, some, arith, Text,
  codes, length, All, ltb→lt, ltb, ℤ, pos, Bool-cases, minus_one, eqb_ℤ, pos_part,
}
use mmdd_pro.Conf.Node.{ConfNode, Forest, end, child}
use mmdd_pro.Naming.{TypeProcess, type_keep, type_fail, get_end_process_id, get_type_process}
use mmdd_pro.Pipeline.State.{Server}
use mmdd_pro.Pipeline.Finish.{keep, delete}
use mmdd_pro.Config.{
  ok, check, text, child_value, copy_into, copy_value, taken_name, conf_node_name_check, Ensures,
  at_fault, at_ok, Ensures-bind, ensured, check-eq-ok,
}
use mmdd_pro.Config.ServerGroups.{get_upload_group_server_group_list}
use mmdd_pro.Config.Groups.{
  GroupInfo, enable_value, group_info, group_infos, get_monitor_group_info, move_to_ok,
  not_both_kept, is_type_keep, is_type_fail,
}
use mmdd_pro.Config.Groups.Valid.{
  IsServed, get_upload_group_server_group_list_lem, length-get_upload_group_server_group_list_pos,
}
use mmdd_pro.Config.Servers.{children_of}

-- One of the numbers of end_process_e.
abbrev pub IsAct : ℤ → Type 0
IsAct a = (a ≡ pos (pos_part a)) × (1 ≤ pos_part a) × (pos_part a ≤ 6)

-- The table of servers has `n` entries.
pub record IsGroupInfo (n : ℕ) (i : GroupInfo) : Type 0 where
  pub name : length i.group.name < 32
  pub dir : length i.monitor_dir < 1024
  pub act : i.monitor_to_upload_act ≢ type_fail
  pub finish : IsAct i.group.finish_act
  pub target : i.group.finish_act ≢ delete → i.group.finish_act ≢ keep → i.group.move_to ≢ []
  pub moves : i.group.finish_act ≡ keep → i.monitor_to_upload_act ≢ type_keep
  pub served : All (IsServed n) i.group.server_group_list
  pub some_group : 0 < length i.group.server_group_list

copy_into-eq :
    (size : ℕ) (t : Text) {u : Text} → copy_into size t ≡ ok u → (t ≡ u) × (length u < size)
copy_into-eq size t e = ground arith

get_end_process_id_range :
    (str : Option Text)
    → not (eqb_ℤ (get_end_process_id str) minus_one) ≡ true
    → IsAct (get_end_process_id str)
unfolding get_end_process_id
get_end_process_id_range none h = absurd (ground arith)
get_end_process_id_range (some str) h = ground arith

is_type_fail_ne : (t : TypeProcess) → not (is_type_fail t) ≡ true → t ≢ type_fail
unfolding is_type_fail
is_type_fail_ne t h = ground arith

move_to_ok_lem : (a : ℤ) (to : Text) → move_to_ok a to ≡ true → a ≢ delete → a ≢ keep → to ≢ []
unfolding move_to_ok
move_to_ok_lem a [] h d k e = ground arith
move_to_ok_lem a (c ∷ to) h d k e = ground arith

not_both_kept_lem : (a : ℤ) (t : TypeProcess) → not_both_kept a t ≡ true → a ≡ keep → t ≢ type_keep
unfolding not_both_kept is_type_keep
not_both_kept_lem a t h k e = ground arith

copied : (size : ℕ) (t : Text) → Ensures (λ u. length u < size) (copy_into size t)
copied size t = elim (Bool-cases (ltb (length t) size)) [
  | inl fits ↦ rw fits (at_ok t (ltb→lt _ _ fits))
  | inr over ↦ rw over at_fault
]

pub taken_name-lt :
    (root : ConfNode) (val : Option Text) {name : Text}
    → taken_name root val ≡ ok name
    → length name < 32
unfolding taken_name
taken_name-lt root val e =
    ensured
      (Ensures-bind (conf_node_name_check root val) _
        λ u at. Ensures-bind (text val) _ λ t there. copied 32 t)
      e

pub copy_value-lt :
    (size : ℕ) (head : Forest) (name : Text) {t : Text}
    → copy_value size head name ≡ ok t
    → length t < size
copy_value-lt size head name e =
    ensured
      (Ensures-bind (child_value head name) _
        λ v at. Ensures-bind (text v) _ λ t there. copied size t)
      e

pub group_info-IsGroupInfo :
    (root : ConfNode) (ss : List Server) (val : Option Text) (head : Forest)
    → Ensures
        (λ i. IsGroupInfo (length ss) i × (taken_name root val ≡ ok i.group.name))
        (group_info root ss val head)
unfolding group_info
group_info-IsGroupInfo root ss val head = Ensures-bind (taken_name root val) _ λ name e2.
    Ensures-bind (enable_value head) _ λ enable e3.
      Ensures-bind (copy_value 1024 head (codes "monitor-dir")) _ λ dir e4.
        Ensures-bind (copy_value 16 head (codes "monitor-file-type")) _ λ file_type e5.
          Ensures-bind (child_value head (codes "upload-find-act")) _ λ act e6.
            Ensures-bind (check (not (is_type_fail (get_type_process act)))) _ λ u7 e7.
              Ensures-bind (copy_value 16 head (codes "upload-file-type")) _ λ upload_type e8.
                Ensures-bind (child_value head (codes "finish-act")) _ λ finish e9.
                  Ensures-bind (check (not (eqb_ℤ (get_end_process_id finish) minus_one))) _
                    λ u10 e10. Ensures-bind (child_value head (codes "move-to")) _ λ to e11.
                      Ensures-bind
                        (check (not_both_kept (get_end_process_id finish) (get_type_process act))) _
                        λ u12 k12. Ensures-bind (text to) _ λ target e12.
                          Ensures-bind (check (move_to_ok (get_end_process_id finish) target)) _
                            λ u13 e13. Ensures-bind (copy_into 1024 target) _ λ move_to e14.
                              Ensures-bind (child_value head (codes "servers-primer")) _
                                λ primer e15.
                                  Ensures-bind (child_value head (codes "servers-backup")) _
                                    λ backup e16.
                                      Ensures-bind
                                        (get_upload_group_server_group_list ss primer backup) _
                                        λ groups e17. at_ok _ (
                                          record {
                                            name = taken_name-lt root val e2;
                                            dir = copy_value-lt 1024 head (codes "monitor-dir") e4;
                                            act =
                                                is_type_fail_ne (get_type_process act)
                                                  (check-eq-ok _ e7);
                                            finish =
                                                get_end_process_id_range finish (check-eq-ok _ e10);
                                            target = λ d k empty.
                                                move_to_ok_lem (get_end_process_id finish) target
                                                  (check-eq-ok _ e13) d k
                                                  ((copy_into-eq 1024 target e14).0 ∙ empty);
                                            moves =
                                                not_both_kept_lem (get_end_process_id finish)
                                                  (get_type_process act) (check-eq-ok _ k12);
                                            served =
                                                (get_upload_group_server_group_list_lem ss primer
                                                  backup e17).2;
                                            some_group =
                                                length-get_upload_group_server_group_list_pos ss
                                                  primer backup e17;
                                          },
                                          e2,
                                        )

group_infos-IsGroupInfo :
    (root : ConfNode) (ss : List Server) (head : Forest)
    → Ensures (All (IsGroupInfo (length ss))) (group_infos root ss head)
unfolding group_infos
group_infos-IsGroupInfo root ss end = at_ok [] tt
group_infos-IsGroupInfo root ss (child n f head next) =
    Ensures-bind (group_info root ss f.val head) _ λ info at.
      Ensures-bind (group_infos root ss next) _ λ rest there. at_ok (info ∷ rest) (
        (ensured (group_info-IsGroupInfo root ss f.val head) at).0,
        ensured (group_infos-IsGroupInfo root ss next) there,
      )

-- If get_monitor_group_info succeeds, then in every monitor group the name fits its field, the
-- actions are known ones and not both `keep`, a directory is given where the files are moved, and
-- there are server groups, whose servers are all in the table.
pub get_monitor_group_info-IsGroupInfo :
    (root : ConfNode) (ss : List Server) {infos : List GroupInfo}
    → get_monitor_group_info root ss ≡ ok infos
    → All (IsGroupInfo (length ss)) infos
unfolding get_monitor_group_info
get_monitor_group_info-IsGroupInfo root ss e =
    ensured
      (Ensures-bind (children_of root (codes "monitor-group")) _
        λ head at. group_infos-IsGroupInfo root ss head)
      e
