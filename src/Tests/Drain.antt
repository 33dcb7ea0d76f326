-- ===== src/Tests/Drain.antt =====
-- The upload threads (servers.c) at work on one copy that is refused again and again.
use mmdd_pro.Common.{◌≡◌, refl, arith, List, [], ◌∷◌, some, codes, ℤ, pos, minus_one, get_elem?}
use mmdd_pro.Pipeline.State.{Item, Copy, Server, World, Env}
use mmdd_pro.Pipeline.Schedule.{set_queue}
use mmdd_pro.Pipeline.Rounds.{run}
use mmdd_pro.Pipeline.Counting.{refs, all_refs, count_address, retained}
use mmdd_pro.Pipeline.Memory.{IsSound, set_queue-Sound}
use mmdd_pro.Pipeline.Serving.{Serving}
use mmdd_pro.Pipeline.Drain.{rounds, run-rounds}
use mmdd_pro.Tests.Pipeline.{server, start, env}

abbrev item : Item
item = record {
  address = 0;
  monitor_id = 0;
  wd = pos 1;
  monitorfile = codes "/in/f";
  src = codes "/in/f";
  re_count = 1;
}

abbrev copy : Copy
copy = record {
  orig = 0;
  monitor_id = 0;
  monitorfile = codes "/in/f";
  src = codes "/in/f";
  sg_name = codes "s0";
}

abbrev busy_server : Server
busy_server = record (server (codes "s0")) { queue = copy ∷ [] }

-- One node whose copy waits for the first of two servers.
abbrev pub busy : World
busy = record start {
  servers = busy_server ∷ server (codes "s1") ∷ [];
  queues = set_queue 0 (item ∷ []) (λ g. []);
  next_address = 1;
}

pub busy-IsSound : IsSound busy
unfolding refs all_refs count_address retained
busy-IsSound =
    set_queue-Sound [] busy.servers (λ g. []) 1 0 (item ∷ [])
      (record {
        unique = λ a. ground arith;
        fresh = λ a h. ground arith;
        counted = λ a. ground arith;
        owned = (refl, tt);
      })
      (λ h e. record {
        unique = λ a. omega arith;
        fresh = λ a k. refl;
        counted = λ a. ground arith;
        owned = tt;
      })

abbrev refusals : List (Env × Env × ℤ)
refusals =
    (env, env, minus_one)
    ∷ (env, env, minus_one)
    ∷ (env, env, minus_one)
    ∷ (env, env, minus_one)
    ∷ []

busy-Serving : Serving 0 3 4 [] busy
busy-Serving = record {
  server = busy_server;
  there = refl;
  held = refl;
  limit = omega arith;
  failures = 0;
  counted = refl;
  few = omega arith;
  enough = omega arith;
  on = refl;
}

run-rounds_example :
    (v : World) × (run (rounds 0 3 refusals) busy ≡ some v)
    × IsSound v
    × ((t : Server) × (get_elem? v.servers 0 ≡ some t) × (t.queue ≡ []) × (t.in_hand ≡ []))
run-rounds_example = run-rounds 0 3 refusals busy busy-IsSound busy-Serving
