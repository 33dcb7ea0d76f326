-- ===== src/Config/ServerGroups/Backup.antt =====
-- The backup servers of get_upload_group_server_group_list (monitor.c): where the '-' of a server is
-- looked for among the groups, a second server is looked for past their end.
use mmdd_pro.Config.{Outcome, fault, ok}

-- An outcome that no error return ends.
data GoesThrough {ℓ} {A : Type ℓ} : Outcome A → Type ℓ where
  with_fault : GoesThrough fault
  with_value : (a : A) → GoesThrough (ok a)
