-- ===== src/Pipeline/Server.antt =====
-- Choosing a server: get_server_available_state of servers.c and upload_real_server_sche_rr of
-- monitor.c.
pub mod Choice
use mmdd_pro.Common.{
  ℕ, zero, suc, ◌+◌, ◌%◌, ◌^◌, Bool, true, false, not, ◌&&◌, List, [], ◌∷◌, Option, none, some, map,
  if◌then◌else◌, ◌==◌, ltb, leb_ℤ, ℤ, pos, get_elem?, set, length,
}
use mmdd_pro.Pipeline.State.{Server, ServerGroup, diff_le}

-- NEWIUP_OK of get_server_available_state, without its effect.
unfoldable pub is_available : ℤ → Server → Bool
is_available now s = not (leb_ℤ (pos 0) s.cur_fst && diff_le now s.cur_fst s.fail_sleep_time)

-- The effect of NEWIUP_OK: `cur_fst` is set to 0.
abbrev pub touch : Server → Server
touch s = record s { cur_fst = pos 0 }

-- The variables of the loop of upload_real_server_sche_rr, with the servers that it touches.
-- `re_queue` is the index of the server whose queue it is.
pub record Scan : Type 0 where
  pub servers : List Server
  pub queue_size_max : ℕ
  pub re_queue : Option ℕ

-- One round for a server that is there.
unfoldable pub consider : ℤ → ℕ → Server → Scan → Scan
unfolding is_available
consider now i s c =
    let touched = set c.servers i (touch s) in
    let better : Scan = record {
      servers = touched;
      queue_size_max = length s.queue;
      re_queue = some i;
    } in
    if is_available now s
    then (if ltb (length s.queue) c.queue_size_max then better else record c { servers = touched })
    else c

-- One round; every entry is an index of g_server.
unfoldable pub scan_round : ℤ → Option ℕ → Scan → Scan
unfolding consider
scan_round now none c = c
scan_round now (some i) c = elim (get_elem? c.servers i) [ none ↦ c | some s ↦ consider now i s c ]

unfoldable pub scan : ℤ → List (Option ℕ) → Scan → Scan
unfolding scan_round
scan now [] c = c
scan now (r ∷ rs) c = scan now rs (scan_round now r c)

abbrev pub start_scan : List Server → Scan
start_scan servers = record { servers = servers; queue_size_max = 10000000; re_queue = none }

-- __sync_fetch_and_add(rr_queue, 1), unless there is no server. The index that it gives is never
-- used for the choice.
abbrev pub bump : List (Option ℕ) → ℕ → ℕ
bump [] rr = rr
bump (r ∷ rs) rr = (rr + 1) % 2 ^ 32

abbrev pub rs_prime : ServerGroup → List (Option ℕ)
rs_prime g = some g.rs_first ∷ map some g.rs_more

-- The server chosen, if any, the group with its counter and the servers, for UPLOAD_RSL_PRIME
-- (true) and UPLOAD_RSL_BACK (false).
unfoldable pub upload_real_server_sche_rr :
    ℤ → Bool → ServerGroup → List Server → Option ℕ × ServerGroup × List Server
unfolding scan
upload_real_server_sche_rr now true g servers =
    let c = scan now (rs_prime g) (start_scan servers) in
    (c.re_queue, record g { rr_queue_prime = bump (rs_prime g) g.rr_queue_prime }, c.servers)
upload_real_server_sche_rr now false g servers =
    let c = scan now g.rs_back (start_scan servers) in
    (c.re_queue, record g { rr_queue_back = bump g.rs_back g.rr_queue_back }, c.servers)
