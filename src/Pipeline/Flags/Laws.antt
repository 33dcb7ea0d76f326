-- ===== src/Pipeline/Flags/Laws.antt =====
-- The flag files of monitor.c as a record of the server groups that are still to be served.
use mmdd_pro.Common.{
  ◌≡◌, ◌↔◌, refl, inl, inr, true, false, List, [], ◌∷◌, arith, Text, text_eq_refl, All, Bool-cases,
}
use mmdd_pro.Pipeline.State.{Server, ServerGroup, Files, create_file}
use mmdd_pro.Pipeline.Flags.{
  k_path, group_flag, create_flags, create_upload_state_file, do_upload_state_file_check,
}

module _ (servers : List Server) (moni_name monitorfile : Text) where
  -- do_upload_state_file_check returns NEWIUP_OK exactly if no server group has its flag.
  pub do_upload_state_file_check_iff :
      (gs : List ServerGroup) (files : Files)
      → (do_upload_state_file_check servers moni_name monitorfile gs files ≡ true)
        ↔ All (λ g. files (group_flag servers moni_name monitorfile g) ≡ false) gs
  unfolding do_upload_state_file_check
  do_upload_state_file_check_iff [] files = (λ e. tt, λ a. refl)
  do_upload_state_file_check_iff (g ∷ gs) files =
      let rest = do_upload_state_file_check_iff gs files in
      elim (Bool-cases (files (group_flag servers moni_name monitorfile g))) [
        | inl there ↦ (λ e. absurd (ground arith), λ a. absurd (ground (arith, a.0)))
        | inr gone ↦ (λ e. (gone, rest.0 (ground arith)), λ a. ground (arith, rest.1 a.1))
      ]

  create_file-keeps :
      (path p : Text) (files : Files) → files p ≡ true → create_file path files p ≡ true
  create_file-keeps path p files e = ground arith

  create_flags-keeps :
      (gs : List ServerGroup) (files : Files) (p : Text)
      → files p ≡ true
      → create_flags servers moni_name monitorfile gs files p ≡ true
  unfolding create_flags
  create_flags-keeps [] files p e = e
  create_flags-keeps (g ∷ gs) files p e = create_flags-keeps gs _ p (create_file-keeps _ p files e)

  create_flags-All :
      (gs : List ServerGroup) (files : Files)
      → All
          (λ g.
            create_flags servers moni_name monitorfile gs files
              (group_flag servers moni_name monitorfile g)
            ≡ true)
          gs
  unfolding create_flags
  create_flags-All [] files = tt
  create_flags-All (g ∷ gs) files =
      let flag = group_flag servers moni_name monitorfile g in
      (
        create_flags-keeps gs (create_file flag files) flag (ground (arith, text_eq_refl flag)),
        create_flags-All gs (create_file flag files),
      )

  weaken :
      (gs : List ServerGroup) (files : Files) (k : Text)
      → All (λ g. files (group_flag servers moni_name monitorfile g) ≡ true) gs
      → All (λ g. create_file k files (group_flag servers moni_name monitorfile g) ≡ true) gs
  weaken [] files k a = tt
  weaken (g ∷ gs) files k a = (create_file-keeps k _ files (a.0), weaken gs files k a.1)

  -- After create_upload_state_file the -upload-k file and the flag of every server group are there,
  -- and every file that was there before still is.
  pub create_upload_state_file_lem :
      (gs : List ServerGroup) (files : Files) (p : Text)
      → files p ≡ true
      → let after = create_upload_state_file servers moni_name monitorfile gs files in
        (after (k_path monitorfile) ≡ true)
        × All (λ g. after (group_flag servers moni_name monitorfile g) ≡ true) gs
        × (after p ≡ true)
  unfolding create_upload_state_file
  create_upload_state_file_lem gs files p e =
      let k = k_path monitorfile in
      let flags = create_flags servers moni_name monitorfile gs files in
      (
        ground (arith, text_eq_refl k),
        weaken gs flags k (create_flags-All gs files),
        create_file-keeps k p flags (create_flags-keeps gs files p e),
      )
