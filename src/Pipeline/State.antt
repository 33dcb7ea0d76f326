-- ===== src/Pipeline/State.antt =====
-- The state that the threads share. FileQueue and queue_s of utils/encapsulate_queue.h, real_server
-- of servers.h and server_group_queue and monitor_group of monitor.h, with the fields that the
-- pipeline reads. A FileQueue made by queue_node_add is an `Item`, which owns the counter
-- `re_count_s`; one made by queue_node_copy is a `Copy`, whose `retain_count` points to the counter
-- of the item `orig`. An address that malloc gives is a number never given before.
use mmdd_pro.Common.{
  ℕ, ◌+◌, Bool, true, false, List, [], Option, none, some, if◌then◌else◌, Text, text_eq, ℤ,
  get_elem?, leb, pos_part, neg_part,
}

pub record Item : Type 0 where
  pub address : ℕ
  pub monitor_id : ℕ
  pub wd : ℤ
  pub monitorfile : Text
  pub src : Text
  pub re_count : ℕ

pub record Copy : Type 0 where
  pub orig : ℕ
  pub monitor_id : ℕ
  pub monitorfile : Text
  pub src : Text
  pub sg_name : Text

-- `queue.size` is the length of the queue. `in_hand` are the copies that upload threads have
-- popped and not yet finished with.
pub record Server : Type 0 where
  pub name : Text
  pub retry_count : ℤ
  pub fail_sleep_time : ℤ
  pub cur_rc : ℤ
  pub cur_fst : ℤ
  pub queue : List Copy
  pub in_hand : List Copy

-- Servers are indices into g_server. `rs_prime` has at least one, `rs_first`; an entry of `rs_back`
-- may be NULL (`none`). The round-robin counters are 32-bit patterns.
pub record ServerGroup : Type 0 where
  pub rs_first : ℕ
  pub rs_more : List ℕ
  pub rs_back : List (Option ℕ)
  pub rr_queue_prime : ℕ
  pub rr_queue_back : ℕ

pub record MonitorGroup : Type 0 where
  pub name : Text
  pub finish_act : ℤ
  pub move_to : Text
  pub server_group_list : List ServerGroup

-- Which files there are.
abbrev pub Files : Type 0
Files = Text → Bool

-- create_file, and remove where it succeeds (see the library's header).
abbrev pub create_file : Text → Files → Files
create_file path files f = if text_eq path f then true else files f

abbrev pub delete_file : Text → Files → Files
delete_file path files f = if text_eq path f then false else files f

pub record World : Type 0 where
  pub files : Files
  pub servers : List Server
  pub groups : List MonitorGroup
  pub queues : ℕ → List Item
  pub next_address : ℕ
  pub max_upload_num : ℤ
  -- The 32 bits of upload_count.
  pub upload_count : ℕ
  pub monitor_run : Bool
  pub upload_run : Bool

-- What one round of a thread sees of its environment: time(NULL), the date in strftime's "%Y%m%d",
-- whether recursive_make_dir (or is_dir) finds the directory or makes it, and whether rename or
-- move_file works; and whether the thread had passed the test of its run signal before the signal came.
pub record Env : Type 0 where
  pub now : ℤ
  pub date : Text
  pub dir_made : Bool
  pub moved : Bool
  pub past_test : Bool

-- a - b <= c
abbrev pub diff_le : ℤ → ℤ → ℤ → Bool
diff_le a b c = leb (pos_part a + neg_part b + neg_part c) (pos_part c + pos_part b + neg_part a)

-- g_server[i].name
abbrev pub name_of : List Server → ℕ → Text
name_of servers i = elim (get_elem? servers i) [ none ↦ [] | some s ↦ s.name ]
