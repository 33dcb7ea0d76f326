-- ===== src/Pipeline/Signal.antt =====
-- The signal handler signal_func (main.c), and what the threads still do behind it.
pub mod Uploads
pub mod Off
pub mod Laws
use mmdd_pro.Common.{
  ℕ, ◌≤◌, ◌≡◌, Bool, true, false, not, ◌&&◌, Option, none, some, Text, get_elem?, length,
}
use mmdd_pro.Pipeline.State.{Server, World}

unfoldable pub signal_func : World → World
signal_func w = record w { monitor_run = false; upload_run = false }

-- How many copies the threads of a server hold.
abbrev pub held : Option Server → ℕ
held none = 0
held (some s) = length s.in_hand

-- From `w` to `v` nothing was handed out and no file was made; the threads are told to stop.
pub record Stopped (w v : World) : Type 0 where
  pub monitor_run : v.monitor_run ≡ false
  pub upload_run : v.upload_run ≡ false
  pub groups : v.groups ≡ w.groups
  pub files : (p : Text) → (v.files p && not (w.files p)) ≡ false
  pub hands : (i : ℕ) → held (get_elem? v.servers i) ≤ held (get_elem? w.servers i)
