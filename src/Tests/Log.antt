-- ===== src/Tests/Log.antt =====
-- Calls of the log functions on two days (utils/logging.c, monitor.c).
use mmdd_pro.Common.{ℕ, ◌≡◌, refl, true, Bool, List, [], ◌∷◌, ◌++◌, none, some, Text, codes}
use mmdd_pro.Log.{Stream, running, upload_log, Call, Logs, log_calls}
use mmdd_pro.Log.Laws.{IsLogging, lines_for, log_calls_lem}

abbrev monitor_name : ℕ → Text
monitor_name g = codes "g"

abbrev fopen : Text → Bool
fopen path = true

abbrev closed : Logs
closed = record {
  data_of = λ s. record { path = codes "/log"; name = []; date = codes "_20240102"; fd = none };
  files = λ q. [];
}

abbrev call : Stream → Text → Call
call s day = record {
  stream = s;
  level = codes "[INFO]";
  stamp = codes "[01/02-03:04:05]";
  day = day;
  text = codes "up";
}

abbrev calls : List Call
calls =
    call running (codes "_20240102")
    ∷ call (upload_log 0) (codes "_20240102")
    ∷ call running (codes "_20240103")
    ∷ []

closed-IsLogging : IsLogging monitor_name fopen (codes "/log") closed
closed-IsLogging s = record { path = refl; fd = λ q e. cc e }

log_calls_lem_example :
    (l' : Logs) × (log_calls monitor_name fopen calls closed ≡ some l')
    × IsLogging monitor_name fopen (codes "/log") l'
    × ((q : Text)
        → l'.files q ≡ closed.files q ++ lines_for monitor_name fopen (codes "/log") q calls)
log_calls_lem_example =
    log_calls_lem monitor_name fopen (codes "/log") calls closed (λ p. refl) closed-IsLogging
