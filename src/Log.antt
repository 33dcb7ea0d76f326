-- ===== src/Log.antt =====
-- The log files: log_init, log_exit and log1 of utils/logging.c, UPLOG_LOG and UPLOG_TXT of
-- monitor.c. A call is one step, since it holds the spinlock of its log. fopen is a parameter.
pub mod Laws
use mmdd_pro.Common.{
  ℕ, ◌+◌, Bool, true, false, not, ◌||◌, List, [], ◌∷◌, ◌++◌, Option, none, some, if◌then◌else◌,
  ◌==◌, Text, codes, text_eq, length, take, leb,
}

-- struct _logdata; an open `fd` is the path of its file.
pub record LogData : Type 0 where
  pub path : Text
  pub name : Text
  pub date : Text
  pub fd : Option Text

-- run_logdata, and the upload_log and upload_txt of the monitor groups.
pub data Stream : Type 0 where
  running : Stream
  upload_log upload_txt : ℕ → Stream

unfoldable pub stream_eq : Stream → Stream → Bool
stream_eq running running = true
stream_eq (upload_log g) (upload_log h) = g == h
stream_eq (upload_txt g) (upload_txt h) = g == h
stream_eq _ _ = false

-- The call: what strftime makes of the time with "[%m/%d-%H:%M:%S]" and with FORMAT, and the text
-- that vsnprintf makes.
pub record Call : Type 0 where
  pub stream : Stream
  pub level : Text
  pub stamp : Text
  pub day : Text
  pub text : Text

-- The lines of each file.
abbrev pub LogFiles : Type 0
LogFiles = Text → List Text

pub record Logs : Type 0 where
  pub data_of : Stream → LogData
  pub files : LogFiles

-- The exit code of log_init is 2. `none`: exit is called.
unfoldable pub log_init : Text → Text → LogData → Option LogData
log_init today logpath log =
    if leb 1024 (length logpath)
    then none
    else some (record log { path = logpath; date = today; fd = none })

module _ (monitor_name : ℕ → Text) where
  -- snprintf into `name`, which has 256 bytes.
  unfoldable pub file_name : Stream → Text → Text
  file_name running date = take 255 (codes "running" ++ (date ++ codes ".log"))
  file_name (upload_log g) date =
      take 255 (codes "upload_" ++ (monitor_name g ++ (date ++ codes ".log")))
  file_name (upload_txt g) date =
      take 255 (codes "upload_" ++ (monitor_name g ++ (date ++ codes ".txt")))

  -- snprintf into `new_path`, which has 4096 bytes.
  unfoldable pub file_path : Text → Stream → Text → Text
  unfolding file_name
  file_path dir s date = take 4095 (dir ++ (b'/' ∷ file_name s date))

-- fprintf; `buff` has 2048 bytes.
unfoldable pub line_of : Call → Text
line_of c = elim c.stream [
  | running ↦ c.stamp ++ (b' ' ∷ (c.level ++ (b' ' ∷ take 2047 c.text)))
  | _ ↦ c.stamp ++ (b' ' ∷ take 2047 c.text)
]

unfoldable pub write_line : Text → Text → LogFiles → LogFiles
write_line path line files q = if text_eq path q then files q ++ (line ∷ []) else files q

unfoldable pub set_log : Stream → LogData → (Stream → LogData) → Stream → LogData
unfolding stream_eq
set_log s log logs t = if stream_eq s t then log else logs t

-- The test `NULL == fd || strcmp(date2, date)`.
unfoldable pub is_stale : LogData → Text → Bool
is_stale log day = elim log.fd [ none ↦ true | some path ↦ not (text_eq day log.date) ]

module _ (monitor_name : ℕ → Text) (fopen : Text → Bool) where
  -- The file of the day, opened. `none`: it cannot be, and exit is called.
  unfoldable pub reopen : Stream → Text → LogData → Option LogData
  reopen s day log =
      let new_path = file_path monitor_name log.path s day in
      if fopen new_path
      then some (record log { name = file_name monitor_name s day; date = day; fd = some new_path })
      else none

  unfoldable pub current : Stream → Text → LogData → Option LogData
  unfolding is_stale reopen
  current s day log = if is_stale log day then reopen s day log else some log

  -- log1, UPLOG_LOG and UPLOG_TXT.
  unfoldable pub log_call : Call → Logs → Option Logs
  unfolding current write_line set_log
  log_call c l = elim (current c.stream c.day (l.data_of c.stream)) [
    | none ↦ none
    | some log ↦ some (record {
      data_of = set_log c.stream log l.data_of;
      files = elim log.fd [ none ↦ l.files | some path ↦ write_line path (line_of c) l.files ];
    })
  ]

  unfoldable pub log_calls : List Call → Logs → Option Logs
  unfolding log_call
  log_calls [] l = some l
  log_calls (c ∷ cs) l = elim (log_call c l) [ none ↦ none | some l' ↦ log_calls cs l' ]
