-- ===== src/Conf/Context.antt =====
-- `root` and `root_backup` of utils/conf.c: ConfInit, ConfCreateContextBackup, ConfRestoreContextBackup
-- and ConfDeInit. NULL is `none`.
use mmdd_pro.Common.{◌≡◌, refl, Option, none, some}
use mmdd_pro.Conf.Node.{ConfNode, conf_node_new}

pub record Context : Type 0 where
  pub root : Option ConfNode
  pub root_backup : Option ConfNode

abbrev or_new : Option ConfNode → ConfNode
or_new none = conf_node_new
or_new (some root) = root

unfoldable pub conf_init : Context → Context
conf_init c = record c { root = some (or_new c.root) }

unfoldable pub conf_create_context_backup : Context → Context
conf_create_context_backup c = record { root = none; root_backup = c.root }

unfoldable pub conf_restore_context_backup : Context → Context
conf_restore_context_backup c = record { root = c.root_backup; root_backup = none }

-- ConfNodeFree of the whole tree.
unfoldable pub conf_de_init : Context → Context
conf_de_init c = record c { root = none }

-- Whatever becomes of the tree in between, a backup and its restoring give the tree back; a second
-- backup in between loses it.
pub conf_restore-conf_create :
    (c : Context) (between : Option ConfNode)
    → let kept = conf_create_context_backup c in
      let changed = record kept { root = between } in
      ((conf_restore_context_backup changed).root ≡ c.root)
      × ((conf_restore_context_backup (conf_create_context_backup changed)).root ≡ between)
unfolding conf_create_context_backup conf_restore_context_backup
conf_restore-conf_create c between = (refl, refl)
