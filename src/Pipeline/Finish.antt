-- ===== src/Pipeline/Finish.antt =====
-- What happens to the files when all servers have theirs: do_move_to, store_by_time,
-- do_upload_file_limit, do_upload_file_finish_all and do_upload_file_finish_single of monitor.c.
use mmdd_pro.Common.{
  ◌%◌, ◌^◌, signed32, ◌+◌, Bool, true, false, ◌&&◌, not, [], ◌∷◌, ◌++◌, if◌then◌else◌, Text, take,
  ℤ, pos, eqb_ℤ, ltb_ℤ, ◌==◌, reverse,
}
use mmdd_pro.Pipeline.State.{Item, Copy, MonitorGroup, Files, create_file, delete_file, World, Env}
use mmdd_pro.Pipeline.Flags.{path_room, flag_path, k_path}

-- UPLOAD_END_PROCESS_… of include/public.h
abbrev pub same_move : ℤ
same_move = pos 1

abbrev pub keep : ℤ
keep = pos 2

abbrev pub delete : ℤ
delete = pos 3

abbrev pub same_move_time : ℤ
same_move_time = pos 4

abbrev pub diff_move : ℤ
diff_move = pos 5

abbrev pub diff_move_time : ℤ
diff_move_time = pos 6

-- The bytes up to the first slash.
until_slash : Text → Text
until_slash [] = []
until_slash (c ∷ t) = let rest = until_slash t in if c == b'/' then [] else c ∷ rest

-- rindex(path, '/') + 1, of a path with a slash.
pub base_name : Text → Text
unfolding until_slash
base_name path = reverse (until_slash (reverse path))

-- snprintf(…, "%s/%s", dir, name) into 1024 bytes
abbrev pub in_dir : Text → Text → Text
in_dir dir name = take path_room (dir ++ (b'/' ∷ name))

-- rename. Where it does not succeed the files are as before.
abbrev pub move : Env → Text → Text → Files → Files
move env from to files =
    if env.moved && files from then create_file to (delete_file from files) else files

-- move_file, which creates the destination first and removes the source at the end (the bytes and
-- the failures are those of Util/Move; a failure that leaves a part of the copy is left out here).
abbrev pub move_by_copy : Env → Text → Text → Files → Files
move_by_copy env from to files =
    if env.moved && files from then delete_file from (create_file to files) else files

-- The flag SAME_PARTITION is `true`.
store_by_time : Env → Text → Text → Bool → Files → Files
unfolding base_name
store_by_time env oldpath dir same_partition files =
    let newpath = in_dir (in_dir dir env.date) (base_name oldpath) in
    if env.dir_made
    then (if same_partition
        then move env oldpath newpath files
        else move_by_copy env oldpath newpath files)
    else files

unfoldable pub do_move_to : Env → ℤ → Text → Text → Files → Files
unfolding store_by_time
do_move_to env act move_to fullpath files =
    let newpath = in_dir move_to (base_name fullpath) in
    let needs_dir = not (eqb_ℤ act delete) && not (eqb_ℤ act same_move_time) in
    if eqb_ℤ act keep
    then files
    else if needs_dir && not env.dir_made
    then files
    else if eqb_ℤ act same_move
    then move env fullpath newpath files
    else if eqb_ℤ act delete
    then delete_file fullpath files
    else if eqb_ℤ act same_move_time
    then store_by_time env fullpath move_to true files
    else if eqb_ℤ act diff_move
    then move_by_copy env fullpath newpath files
    else if eqb_ℤ act diff_move_time
    then store_by_time env fullpath move_to false files
    else files

-- The count, an int, is fetched and then increased.
unfoldable pub do_upload_file_limit : World → World
do_upload_file_limit w =
    let counted = record w { upload_count = (w.upload_count + 1) % 2 ^ 32 } in
    if eqb_ℤ w.max_upload_num (pos 0)
    then w
    else if ltb_ℤ w.max_upload_num (signed32 w.upload_count)
    then record counted { monitor_run = false; upload_run = false }
    else counted

-- do_upload_file_finish_all for the group of the node, up to the queue_node_free at its end.
unfoldable pub do_upload_file_finish_all : Env → MonitorGroup → Item → World → World
unfolding do_move_to do_upload_file_limit
do_upload_file_finish_all env g node w =
    let moved = do_move_to env g.finish_act g.move_to node.src w.files in
    let counted = do_upload_file_limit w in
    record counted {
      files = delete_file (k_path node.monitorfile) (delete_file node.monitorfile moved);
    }

-- do_upload_file_finish_single
unfoldable pub do_upload_file_finish_single : Text → Copy → Files → Files
do_upload_file_finish_single monitor_name node files =
    delete_file (flag_path node.monitorfile monitor_name node.sg_name) files
