-- ===== src/Log/Laws.antt =====
-- Every line stands in the file of its day (utils/logging.c, monitor.c).
use mmdd_pro.Common.{
  ℕ, ◌≡◌, refl, sym, ap, subst, ◌∙◌, inl, inr, Bool, true, false, List, [], ◌∷◌, ◌++◌, Option, none,
  some, arith, if◌then◌else◌, ==_iff, Text, text_eq, text_eq_iff, Bool-cases, append_assoc,
  append-nil,
}
use mmdd_pro.Log.{
  LogData, Stream, running, upload_log, upload_txt, stream_eq, Call, LogFiles, Logs, file_name,
  file_path, line_of, write_line, set_log, is_stale, reopen, current, log_call, log_calls,
}

stream_eq-eq : (s t : Stream) → stream_eq s t ≡ true → s ≡ t
unfolding stream_eq
stream_eq-eq running running e = refl
stream_eq-eq running (upload_log h) e = cc
stream_eq-eq running (upload_txt h) e = cc
stream_eq-eq (upload_log g) running e = cc
stream_eq-eq (upload_log g) (upload_log h) e = ap upload_log ((==_iff g h).0 e)
stream_eq-eq (upload_log g) (upload_txt h) e = cc
stream_eq-eq (upload_txt g) running e = cc
stream_eq-eq (upload_txt g) (upload_log h) e = cc
stream_eq-eq (upload_txt g) (upload_txt h) e = ap upload_txt ((==_iff g h).0 e)

module _ (monitor_name : ℕ → Text) (fopen : Text → Bool) (dir : Text) where
  -- A log of the directory, open for the file of its date or not open.
  pub record IsLog (s : Stream) (log : LogData) : Type 0 where
    pub path : log.path ≡ dir
    pub fd : (q : Text) → log.fd ≡ some q → q ≡ file_path monitor_name dir s log.date

  abbrev pub IsLogging : Logs → Type 0
  IsLogging l = (s : Stream) → IsLog s (l.data_of s)

  -- The lines that belong into the file at the path `q`.
  abbrev pub lines_for : Text → List Call → List Text
  lines_for q [] = []
  lines_for q (c ∷ cs) =
      if text_eq (file_path monitor_name dir c.stream c.day) q
      then line_of c ∷ lines_for q cs
      else lines_for q cs

  -- What `current` gives: a log that is open for the day.
  record IsCurrent (s : Stream) (day : Text) (log : LogData) : Type 0 where
    log_lem : IsLog s log
    opened : log.fd ≡ some (file_path monitor_name dir s day)

  not_stale :
      (s : Stream) (day : Text) (log : LogData) (r : Option Text)
      → log.fd ≡ r
      → IsLog s log
      → is_stale log day ≡ false
      → log.fd ≡ some (file_path monitor_name dir s day)
  unfolding is_stale
  not_stale s day log none e h fresh = absurd (ground (arith, e, fresh))
  not_stale s day log (some q) e h fresh =
      let same : text_eq day log.date ≡ true = ground (arith, e, fresh) in
      e
      ∙ ap some
          (h.fd q e ∙ ap (file_path monitor_name dir s) (sym ((text_eq_iff day log.date).0 same)))

  reopened : Stream → Text → LogData
  reopened s day = record {
    path = dir;
    name = file_name monitor_name s day;
    date = day;
    fd = some (file_path monitor_name dir s day);
  }

  reopen-eq :
      (s : Stream) (day : Text) (log : LogData)
      → ((p : Text) → fopen p ≡ true)
      → log.path ≡ dir
      → reopen monitor_name fopen s day log ≡ some (reopened s day)
  unfolding reopen reopened
  reopen-eq s day log opens at =
      rw (opens (file_path monitor_name log.path s day), reopen) (rw at refl)

  some_inj : {x y : Text} → some x ≡ some y → x ≡ y
  some_inj e = cc e

  current-IsCurrent :
      (s : Stream) (day : Text) (log : LogData)
      → ((p : Text) → fopen p ≡ true)
      → IsLog s log
      → (new : LogData) × (current monitor_name fopen s day log ≡ some new) × IsCurrent s day new
  unfolding current reopened
  current-IsCurrent s day log opens h = elim (Bool-cases (is_stale log day)) [
    | inl stale ↦ (
      reopened s day,
      rw (stale, current) (reopen-eq s day log opens h.path),
      record { log_lem = record { path = refl; fd = λ q e. sym (some_inj e) }; opened = refl },
    )
    | inr fresh ↦ (
      log,
      rw (fresh, current) refl,
      record { log_lem = h; opened = not_stale s day log log.fd refl h fresh },
    )
  ]

  log_call-IsLogging :
      (c : Call) (l : Logs)
      → ((p : Text) → fopen p ≡ true)
      → IsLogging l
      → (l' : Logs) × (log_call monitor_name fopen c l ≡ some l')
        × IsLogging l'
        × ((q : Text)
            → l'.files q
              ≡ write_line (file_path monitor_name dir c.stream c.day) (line_of c) l.files q)
  unfolding log_call
  log_call-IsLogging c l opens h =
      let (log, e, now) =
        current-IsCurrent c.stream c.day (l.data_of c.stream) opens (h c.stream) in
      (
        record {
          data_of = set_log c.stream log l.data_of;
          files = write_line (file_path monitor_name dir c.stream c.day) (line_of c) l.files;
        },
        rw (e, log_call) (rw (now.opened) refl),
        λ s. elim (Bool-cases (stream_eq c.stream s)) [
          | inl same ↦
              rw (same, set_log)
                (subst (λ t. IsLog t log) (stream_eq-eq c.stream s same) now.log_lem)
          | inr other ↦ rw (other, set_log) (h s)
        ],
        λ q. refl,
      )

  lines_cons :
      (c : Call) (cs : List Call) (files : LogFiles) (q : Text)
      → write_line (file_path monitor_name dir c.stream c.day) (line_of c) files q ++ lines_for q cs
        ≡ files q ++ lines_for q (c ∷ cs)
  unfolding write_line
  lines_cons c cs files q =
      elim (Bool-cases (text_eq (file_path monitor_name dir c.stream c.day) q)) [
        | inl here ↦
            rw (here, write_line) (append_assoc (files q) (line_of c ∷ []) (lines_for q cs))
        | inr away ↦ rw (away, write_line) refl
      ]

  -- Calls of log1, UPLOG_LOG and UPLOG_TXT in any order, where every file can be opened and each log
  -- has the log directory and is closed or open for the file of its date: no call leaves the program,
  -- each file gets the lines of its own stream and day, all of them and in the order of the calls,
  -- and the logs are as assumed again.
  pub log_calls_lem :
      (cs : List Call) (l : Logs)
      → ((p : Text) → fopen p ≡ true)
      → IsLogging l
      → (l' : Logs) × (log_calls monitor_name fopen cs l ≡ some l')
        × IsLogging l'
        × ((q : Text) → l'.files q ≡ l.files q ++ lines_for q cs)
  unfolding log_calls
  log_calls_lem [] l opens h = (l, refl, h, λ q. sym (append-nil (l.files q)))
  log_calls_lem (c ∷ cs) l opens h =
      let (m, e, still, written) = log_call-IsLogging c l opens h in
      let (n, f, at_last, rest) = log_calls_lem cs m opens still in
      (
        n,
        rw (e, log_calls) f,
        at_last,
        λ q. rest q ∙ ap (λ r. r ++ lines_for q cs) (written q) ∙ lines_cons c cs l.files q,
      )
