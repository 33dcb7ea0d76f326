-- ===== src/Pipeline/Rounds/Starts.antt =====
-- What a round of sche_handle (monitor.c) does with a file that has just been found.
use mmdd_pro.Common.{◌≤◌, ◌+◌, All, ℤ, ℕ, ◌≡◌, true, List, [], ◌∷◌, ◌++◌, none, some}
use mmdd_pro.Pipeline.State.{Item, Server, ServerGroup, MonitorGroup, World}
use mmdd_pro.Pipeline.Flags.{k_path, group_flag}
use mmdd_pro.Pipeline.Schedule.{choose}
use mmdd_pro.Pipeline.Counting.{all_refs}
use mmdd_pro.Pipeline.Dispatch.{own}

-- The nodes stand for one file and own one counter.
pub record SameFile (x y : Item) : Type 0 where
  pub address : y.address ≡ x.address
  pub monitor_id : y.monitor_id ≡ x.monitor_id
  pub monitorfile : y.monitorfile ≡ x.monitorfile
  pub src : y.src ≡ x.src

-- What a round does with a node: it is at the end of its queue again, for the same file; the -upload-k
-- file and the flag of every server group are there; as many copies of it as its counter has gone
-- up are new in the servers' hands and queues, and the counter is at least `handed`.
pub record Starts (g : ℕ) (group : MonitorGroup) (node : Item) (rest : List Item) (handed : ℕ)
    (before after : World) : Type 0 where
  pub node' : Item
  pub queue : after.queues g ≡ rest ++ (node' ∷ [])
  pub same : SameFile node node'
  pub k : after.files (k_path node.monitorfile) ≡ true
  pub flags :
      All
        (λ sg. after.files (group_flag before.servers group.name node.monitorfile sg) ≡ true)
        group.server_group_list
  pub copies :
      (h a : ℕ)
      → all_refs h a after.servers + own h a node ≡ all_refs h a before.servers + own h a node'
  pub counter : handed ≤ node'.re_count

-- 1 if the code finds an available server for the group.
abbrev pub found_for : ℤ → List ServerGroup → List Server → ℕ
found_for now [] servers = 0
found_for now (sg ∷ gs) servers = elim ((choose now sg servers).0) [ none ↦ 0 | some i ↦ 1 ]
