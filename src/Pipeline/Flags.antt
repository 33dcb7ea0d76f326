-- ===== src/Pipeline/Flags.antt =====
-- The flag files of monitor.c: get_upload_file_k_by_monitorfile, create_upload_state_file and
-- do_upload_state_file_check. The buffers hold 1024 bytes, so snprintf keeps the first 1023.
pub mod Laws
use mmdd_pro.Common.{ℕ, Bool, true, false, List, [], ◌∷◌, ◌++◌, if◌then◌else◌, Text, codes, take}
use mmdd_pro.Pipeline.State.{Server, ServerGroup, Files, create_file, name_of}

-- NEWIUP_PATH_LEN - 1
abbrev pub path_room : ℕ
path_room = 1023

-- "%s-%s-%s"
unfoldable pub flag_path : Text → Text → Text → Text
flag_path monitorfile moni_name sg_name =
    take path_room (monitorfile ++ (b'-' ∷ (moni_name ++ (b'-' ∷ sg_name))))

-- get_upload_file_k_by_monitorfile
unfoldable pub k_path : Text → Text
k_path monitorfile = take path_room (monitorfile ++ codes "-upload-k")

-- The flag of a server group is named after its first server.
unfoldable pub group_flag : List Server → Text → Text → ServerGroup → Text
group_flag servers moni_name monitorfile g =
    flag_path monitorfile moni_name (name_of servers g.rs_first)

unfoldable pub create_flags : List Server → Text → Text → List ServerGroup → Files → Files
create_flags servers moni_name monitorfile [] files = files
create_flags servers moni_name monitorfile (g ∷ gs) files =
    create_flags servers moni_name monitorfile gs
      (create_file (group_flag servers moni_name monitorfile g) files)

unfoldable pub create_upload_state_file :
    List Server → Text → Text → List ServerGroup → Files → Files
unfolding create_flags
create_upload_state_file servers moni_name monitorfile gs files =
    create_file (k_path monitorfile) (create_flags servers moni_name monitorfile gs files)

-- do_upload_state_file_check with `sgl_count` groups: NEWIUP_OK (true) if no flag is there. With
-- the count 0 the source checks the one group that it is given.
unfoldable pub do_upload_state_file_check :
    List Server → Text → Text → List ServerGroup → Files → Bool
do_upload_state_file_check servers moni_name monitorfile [] files = true
do_upload_state_file_check servers moni_name monitorfile (g ∷ gs) files =
    if files (group_flag servers moni_name monitorfile g)
    then false
    else do_upload_state_file_check servers moni_name monitorfile gs files
