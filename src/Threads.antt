-- ===== src/Threads.antt =====
-- The creation and the joining of the threads: monitor_handle_pthread_start and
-- monitor_handle_pthread_end of monitor.c, server_upload_handle_pthread_start and
-- server_upload_handle_pthread_end of servers.c. A thread is its place: that of a monitor_pid, a
-- sche_pid, or an entry of a server's `pid`. pthread_create is taken to succeed.
pub mod Laws
pub mod Places
pub mod Joins
use mmdd_pro.Common.{
  ℕ, zero, suc, ◌+◌, ◌-◌, Bool, true, false, not, List, [], ◌∷◌, ◌++◌, map, Option, none, some,
  length, if◌then◌else◌, ◌==◌,
}
use mmdd_pro.Pipeline.State.{ServerGroup}
use mmdd_pro.Config.{Outcome, exits, ok}
use mmdd_pro.Config.Groups.{GroupInfo}

-- How many threads have been created in each place and not been joined, and which servers'
-- `make_citations` is NEWIUP_OK.
pub record Threads : Type 0 where
  pub monitors : ℕ → ℕ
  pub sches : ℕ → ℕ
  pub uploads : ℕ → ℕ → ℕ
  pub cited : ℕ → Bool

abbrev pub none_started : Threads
none_started = record { monitors = λ g. 0; sches = λ g. 0; uploads = λ i x. 0; cited = λ i. false }

-- pthread_create
abbrev pub one_more : (ℕ → ℕ) → ℕ → ℕ → ℕ
one_more f i j = if i == j then f j + 1 else f j

abbrev pub at_server : ℕ → (ℕ → ℕ) → (ℕ → ℕ → ℕ) → ℕ → ℕ → ℕ
at_server i row f j = if i == j then row else f j

-- The loop over the `left` entries of pid from the x-th one on.
unfoldable pub create_uploads : ℕ → ℕ → ℕ → Threads → Threads
create_uploads i x zero t = t
create_uploads i x (suc left) t =
    create_uploads i (suc x) left
      (record t { uploads = at_server i (one_more (t.uploads i) x) t.uploads })

-- The servers of one server group, those of rs_prime first.
abbrev pub handles : ServerGroup → List (Option ℕ)
handles node = some node.rs_first ∷ (map some node.rs_more ++ node.rs_back)

-- The number `k` of groups that are not enabled.
unfoldable pub disabled : List GroupInfo → ℕ
disabled [] = 0
disabled (G ∷ Gs) = (if G.enable then 0 else 1) + disabled Gs

-- pthread_join. `none`: there is no thread in that place, or it has been joined already.
unfoldable pub joined : (ℕ → ℕ) → ℕ → Option (ℕ → ℕ)
joined f i = if f i == 0 then none else some (λ j. if i == j then f j - 1 else f j)

abbrev pub and_join : Option Threads → (Threads → Option Threads) → Option Threads
and_join none k = none
and_join (some t) k = k t

unfoldable pub join_monitor : ℕ → Threads → Option Threads
unfolding joined
join_monitor i t = elim (joined t.monitors i) [
  | none ↦ none
  | some monitors ↦ elim (joined t.sches i) [
    | none ↦ none
    | some sches ↦ some (record t { monitors = monitors; sches = sches })
  ]
]

unfoldable pub join_uploads : ℕ → ℕ → ℕ → Threads → Option Threads
unfolding joined
join_uploads i x zero t = some t
join_uploads i x (suc left) t = elim (joined (t.uploads i) x) [
  | none ↦ none
  | some row ↦ join_uploads i (suc x) left (record t { uploads = at_server i row t.uploads })
]

module _ (thread_num : ℕ → ℕ) where
  -- A NULL server has no threads.
  unfoldable pub server_upload_handle_pthread_start : Option ℕ → Threads → Threads
  unfolding create_uploads
  server_upload_handle_pthread_start none t = t
  server_upload_handle_pthread_start (some i) t =
      if not (t.cited i)
      then record (create_uploads i 0 (thread_num i) t) {
        cited = λ j. if i == j then true else t.cited j;
      }
      else t

  unfoldable pub start_each : List (Option ℕ) → Threads → Threads
  unfolding server_upload_handle_pthread_start
  start_each [] t = t
  start_each (r ∷ rs) t = start_each rs (server_upload_handle_pthread_start r t)

  unfoldable pub start_servers : List ServerGroup → Threads → Threads
  unfolding start_each
  start_servers [] t = t
  start_servers (node ∷ nodes) t = start_servers nodes (start_each (handles node) t)

  -- The round of the loop for group `i`.
  unfoldable pub start_group : ℕ → GroupInfo → Threads → Threads
  unfolding start_servers
  start_group i G t =
      if G.enable
      then start_servers G.group.server_group_list
          (record t { monitors = one_more t.monitors i; sches = one_more t.sches i })
      else t

  unfoldable pub start_groups : ℕ → List GroupInfo → Threads → Threads
  unfolding start_group
  start_groups i [] t = t
  start_groups i (G ∷ Gs) t = start_groups (suc i) Gs (start_group i G t)

  unfoldable pub monitor_handle_pthread_start : List GroupInfo → Threads → Outcome Threads
  unfolding start_groups disabled
  monitor_handle_pthread_start Gs t =
      if disabled Gs == length Gs then exits else ok (start_groups 0 Gs t)

  unfoldable pub server_upload_handle_pthread_end : Option ℕ → Threads → Option Threads
  unfolding join_uploads
  server_upload_handle_pthread_end none t = some t
  server_upload_handle_pthread_end (some i) t = join_uploads i 0 (thread_num i) t

  unfoldable pub join_each : List (Option ℕ) → Threads → Option Threads
  unfolding server_upload_handle_pthread_end
  join_each [] t = some t
  join_each (r ∷ rs) t = and_join (server_upload_handle_pthread_end r t) (join_each rs)

  unfoldable pub join_servers : List ServerGroup → Threads → Option Threads
  unfolding join_each
  join_servers [] t = some t
  join_servers (node ∷ nodes) t = and_join (join_each (handles node) t) (join_servers nodes)

  unfoldable pub join_group : ℕ → GroupInfo → Threads → Option Threads
  unfolding join_servers join_monitor
  join_group i G t =
      if G.enable
      then and_join (join_monitor i t) (join_servers G.group.server_group_list)
      else some t

  unfoldable pub join_groups : ℕ → List GroupInfo → Threads → Option Threads
  unfolding join_group
  join_groups i [] t = some t
  join_groups i (G ∷ Gs) t = and_join (join_group i G t) (join_groups (suc i) Gs)

  unfoldable pub monitor_handle_pthread_end : List GroupInfo → Threads → Option Threads
  unfolding join_groups
  monitor_handle_pthread_end Gs t = join_groups 0 Gs t
