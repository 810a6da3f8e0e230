-- ===== src/Logger/Routed.antt =====
-- Where a log entry goes.
use ether_recorder_suite.Prelude.{
  ℕ, ◌+◌, ◌<◌, ◌≡◌, refl, sym, ap, ap₂, ◌-◌, drop, ◌∙◌, Bool, true, false, inl, inr, Option, none,
  some, List, [], ◌∷◌, ◌++◌, ltb, leb, not, ◌&&◌, if◌then◌else◌, length, get_or, get_or-set_self,
  get_or-set_ne, ◌≢◌, ◌≤◌, length-set, arith, Bool-cases, Option-cases, append-nil,
}
use ether_recorder_suite.Text.{is_nil}
use ether_recorder_suite.LogQueue.{LogEntry}
use ether_recorder_suite.Logger.{log_output_file}
use ether_recorder_suite.Logger.Files.{
  LogFile, ThreadLogFile, Logger, no_file, no_thread_file, file_at, set_file,
}
use ether_recorder_suite.Logger.Routes.{
  FileEnv, LogEnv, rotate_log_file_if_needed, open_log_file_if_needed, ready_file, own_file,
  find_own, logged, chosen, choose_file, publish_to_file, publish_to_screen, to_file, to_screen,
  publish, label_of, log_with_files, log_immediately,
}

-- A file that is not large, and that can be opened if it is not open.
pub record IsReady (env : FileEnv) : Type 0 where
  pub large : env.large ≡ false
  pub open_ok : env.open_ok ≡ true

-- What a ready file leaves of the logger.
record Ready (i : ℕ) (l l' : Logger) : Type 0 where
  live : (file_at i l').fp ≡ true
  others : (j : ℕ) → i ≢ j → file_at j l' ≡ file_at j l
  failures : l'.log_failure_count ≤ l.log_failure_count
  size : length l'.log_files ≡ length l.log_files
  tables : l'.thread_log_files ≡ l.thread_log_files
  count : l'.thread_log_file_count ≡ l.thread_log_file_count
  output : l'.log_output ≡ l.log_output
  suspended : l'.console_logging_suspended ≡ l.console_logging_suspended
  file_lines : l'.file_lines ≡ l.file_lines
  screen_lines : l'.screen_lines ≡ l.screen_lines

Ready-set :
    (i : ℕ) (f : LogFile) (n : ℕ) (l : Logger)
    → f.fp ≡ true
    → n ≤ l.log_failure_count
    → i < length l.log_files
    → Ready i l (record (set_file i f l) { log_failure_count = n })
Ready-set i f n l live few h = record {
  live = ap (λ f. f.fp) (get_or-set_self l.log_files i f no_file h) ∙ live;
  others = λ j ne. get_or-set_ne l.log_files f no_file ne;
  failures = few;
  size = length-set l.log_files i f;
  tables = refl;
  count = refl;
  output = refl;
  suspended = refl;
  file_lines = refl;
  screen_lines = refl;
}

ready_file-Ready :
    (env : FileEnv) (i : ℕ) (l : Logger)
    → IsReady env
    → i < length l.log_files
    → (l' : Logger) × (ready_file env i l ≡ some (true, l')) × Ready i l l'
unfolding ready_file rotate_log_file_if_needed open_log_file_if_needed
ready_file-Ready env i l ready h =
    let f = file_at i l in
    elim (Bool-cases f.fp) [
      | inl live ↦ (
        record (set_file i f l) { log_failure_count = l.log_failure_count },
        ground (arith, live, ready.large, ready.open_ok),
        Ready-set i f l.log_failure_count l live (omega arith) h,
      )
      | inr shut ↦
          let f' = record f { fp = true; first_open = true } in
          (
            record (set_file i f' l) { log_failure_count = 0 },
            ground (arith, shut, ready.large, ready.open_ok),
            Ready-set i f' 0 l refl (omega arith) h,
          )
    ]

-- The file of an entry, given the program's own and the thread's.
abbrev pub target : ℕ → Option ThreadLogFile → Option ℕ
target main none = some main
target main (some t) = t.log_file

choose_file-Ready :
    (env : LogEnv) (label : Option (List ℕ)) (main i : ℕ) (l : Logger)
    → IsReady env.own
    → target main (own_file label l) ≡ some i
    → i < length l.log_files
    → (file_at main l).fp ≡ true
    → (l' : Logger) × (choose_file env label main l ≡ chosen i l') × Ready i l l'
unfolding choose_file
choose_file-Ready env label main i l ready there h live = elim (Option-cases (own_file label l)) [
  | inl nobody ↦
      let same : main ≡ i = ground (arith, nobody, there) in
      (
        l,
        ground (arith, nobody, same),
        record {
          live = ground (arith, live, same);
          others = λ j ne. refl;
          failures = omega arith;
          size = refl;
          tables = refl;
          count = refl;
          output = refl;
          suspended = refl;
          file_lines = refl;
          screen_lines = refl;
        },
      )
  | inr (t, own) ↦
      let (l', run, r) = ready_file-Ready env.own i l ready h in
      (l', ground (arith, own, there, run), r)
]

-- What a call of `log_immediately` has written.
pub record Routed (i : ℕ) (e : LogEntry) (l l' : Logger) : Type 0 where
  pub file_lines :
      l'.file_lines ≡ l.file_lines ++ (if to_file l.log_output then (i, e) ∷ [] else [])
  pub screen_lines :
      l'.screen_lines
      ≡ l.screen_lines
        ++ (if not l.console_logging_suspended && to_screen l.log_output then e ∷ [] else [])

ltb_lt : (a n : ℕ) → a < n → ltb a n ≡ true
ltb_lt a n h = ground arith

by_output :
    (env : LogEnv) (i : ℕ) (e : LogEntry) (l : Logger)
    → (file_at i l).fp ≡ true
    → ltb (env.file_prefix + length e.message + 1) 1024 ≡ true
    → ltb (env.screen_prefix + length e.message + 1) 1024 ≡ true
    → (f : Bool) → to_file l.log_output ≡ f
    → (s : Bool) → (not l.console_logging_suspended && to_screen l.log_output) ≡ s
    → Routed i e l (publish env true i e l)
unfolding publish publish_to_file publish_to_screen
by_output env i e l live ff sf true f true s = record {
  file_lines = rw (live, ff, sf, f, s);
  screen_lines = rw (live, ff, sf, f, s);
}
by_output env i e l live ff sf true f false s = record {
  file_lines = rw (live, ff, sf, f, s);
  screen_lines = rw (live, ff, sf, f, s) (sym (append-nil l.screen_lines));
}
by_output env i e l live ff sf false f true s = record {
  file_lines = rw (live, ff, sf, f, s) (sym (append-nil l.file_lines));
  screen_lines = rw (live, ff, sf, f, s);
}
by_output env i e l live ff sf false f false s = record {
  file_lines = rw (live, ff, sf, f, s) (sym (append-nil l.file_lines));
  screen_lines = rw (live, ff, sf, f, s) (sym (append-nil l.screen_lines));
}

publish-Routed :
    (env : LogEnv) (i : ℕ) (e : LogEntry) (l : Logger)
    → (file_at i l).fp ≡ true
    → env.file_prefix + length e.message + 1 < 1024
    → env.screen_prefix + length e.message + 1 < 1024
    → Routed i e l (publish env true i e l)
unfolding publish publish_to_file publish_to_screen
publish-Routed env i e l live file_fits screen_fits =
    let ff = ltb_lt (env.file_prefix + length e.message + 1) 1024 file_fits in
    let sf = ltb_lt (env.screen_prefix + length e.message + 1) 1024 screen_fits in
    by_output env i e l live ff sf (to_file l.log_output) refl
      (not l.console_logging_suspended && to_screen l.log_output) refl

same_own :
    (label : Option (List ℕ)) (l l' : Logger) {i : ℕ}
    → Ready i l l'
    → own_file label l' ≡ own_file label l
unfolding own_file
same_own none l l' r = refl
same_own (some label) l l' r = ap₂ (λ t n. find_own label (drop 1 t) (n - 1)) r.tables r.count

-- The lines of the screen, where nothing that decides about them has changed.
screens :
    {i : ℕ} {e : LogEntry} (l : Logger) {l' l'' : Logger}
    → Routed i e l' l''
    → l'.screen_lines ≡ l.screen_lines
    → l'.log_output ≡ l.log_output
    → l'.console_logging_suspended ≡ l.console_logging_suspended
    → l''.screen_lines
      ≡ l.screen_lines
        ++ (if not l.console_logging_suspended && to_screen l.log_output then e ∷ [] else [])
screens {e = e} l p lines output suspended =
    rw (sym lines, sym output, sym suspended) p.screen_lines

-- An entry with a message, where the program's log file has a name, both that file and the file of
-- the entry's thread are ready, and the line fits the buffer: `log_immediately` returns; the entry
-- has gone to the file of the thread that the entry names, or to the program's where the thread has
-- none, if the output is a file or both, and to the screen, if the output is the screen or both and
-- the screen is not suspended; each once and after what was there.
pub log_immediately-Routed :
    (env : LogEnv) (e : LogEntry) (l : Logger) (main i : ℕ)
    → IsReady env.main
    → IsReady env.own
    → is_nil e.message ≡ false
    → (get_or l.thread_log_files 0 no_thread_file).log_file ≡ some main
    → main < length l.log_files
    → is_nil (file_at main l).file_name ≡ false
    → target main (own_file (label_of env e) l) ≡ some i
    → i < length l.log_files
    → env.file_prefix + length e.message + 1 < 1024
    → env.screen_prefix + length e.message + 1 < 1024
    → (l' : Logger) × (log_immediately env e l ≡ logged l') × Routed i e l l'
unfolding log_immediately log_with_files own_file
log_immediately-Routed env e l main i main_ready own_ready some_message first in_main named there
      in_own file_fits screen_fits =
    let (l1, run1, r1) = ready_file-Ready env.main main l main_ready in_main in
    let (l2, run2, r2) =
      choose_file-Ready env (label_of env e) main i l1 own_ready
        (ap (target main) (same_own (label_of env e) l l1 r1) ∙ there)
        (omega (arith, r1.size, in_own)) r1.live in
    let p = publish-Routed env i e l2 r2.live file_fits screen_fits in
    (
      publish env true i e l2,
      ground (arith, some_message, first, named, run1, run2),
      record {
        file_lines =
            p.file_lines
            ∙ ap₂ (λ x o. x ++ (if to_file o then (i, e) ∷ [] else []))
                (r2.file_lines ∙ r1.file_lines) (r2.output ∙ r1.output);
        screen_lines =
            screens l p (r2.screen_lines ∙ r1.screen_lines) (r2.output ∙ r1.output)
              (r2.suspended ∙ r1.suspended);
      },
    )

ready_file_unopened :
    (env : FileEnv) (i : ℕ) (l : Logger)
    → env.open_ok ≡ false
    → (file_at i l).fp ≡ false
    → leb 100 (l.log_failure_count + 1) ≡ false
    → ready_file env i l
      ≡ some (
        false,
        record (set_file i (file_at i l) l) { log_failure_count = l.log_failure_count + 1 },
      )
unfolding ready_file open_log_file_if_needed
ready_file_unopened env i l bad shut few = ground (arith, bad, shut, few)

choose_file_unopened :
    (env : LogEnv) (label : Option (List ℕ)) (main i : ℕ) (l : Logger)
    → env.own.open_ok ≡ false
    → target main (own_file label l) ≡ some i
    → main ≢ i
    → (file_at i l).fp ≡ false
    → leb 100 (l.log_failure_count + 1) ≡ false
    → choose_file env label main l
      ≡ chosen i
          (record (set_file i (file_at i l) l) { log_failure_count = l.log_failure_count + 1 })
unfolding choose_file
choose_file_unopened env label main i l bad there ne shut few =
    elim (Option-cases (own_file label l)) [
      | inl nobody ↦ absurd (ne (ground (arith, nobody, there)))
      | inr (t, own) ↦ ground (arith, own, there, ready_file_unopened env.own i l bad shut few)
    ]

-- Nothing is published to a file that is not open.
publish_shut :
    (env : LogEnv) (i : ℕ) (e : LogEntry) (l : Logger)
    → (file_at i l).fp ≡ false
    → l.log_output ≡ log_output_file
    → publish env true i e l ≡ l
unfolding publish publish_to_file
publish_shut env i e l shut output = elim (Bool-cases l.console_logging_suspended) [
  | inl off ↦ elim (Bool-cases (ltb (env.file_prefix + length e.message + 1) 1024)) [
    | inl fits ↦ rw (fits, shut, output, off)
    | inr long ↦ rw (long, output, off)
  ]
  | inr on ↦ elim (Bool-cases (ltb (env.file_prefix + length e.message + 1) 1024)) [
    | inl fits ↦ rw (fits, shut, output, on)
    | inr long ↦ rw (long, output, on)
  ]
]

leb_lt : (a n : ℕ) → a < n → leb n a ≡ false
leb_lt a n h = ground arith

-- A thread's own file that cannot be opened leaves no trace of an entry with a message that is not
-- empty, where the output is a file:
-- with the program's file ready, the thread's file another one that is not open, and fewer than 99
-- failures to open a file in a row before, `log_immediately` returns, and the entry is in no file
-- and not on the screen.
pub unopened_file_loses_entry :
    (env : LogEnv) (e : LogEntry) (l : Logger) (main i : ℕ)
    → IsReady env.main
    → env.own.open_ok ≡ false
    → is_nil e.message ≡ false
    → (get_or l.thread_log_files 0 no_thread_file).log_file ≡ some main
    → main < length l.log_files
    → is_nil (file_at main l).file_name ≡ false
    → target main (own_file (label_of env e) l) ≡ some i
    → main ≢ i
    → i < length l.log_files
    → (file_at i l).fp ≡ false
    → l.log_failure_count + 1 < 100
    → l.log_output ≡ log_output_file
    → (l' : Logger) × (log_immediately env e l ≡ logged l')
      × (l'.file_lines ≡ l.file_lines)
      × (l'.screen_lines ≡ l.screen_lines)
unfolding log_immediately log_with_files own_file
unopened_file_loses_entry env e l main i main_ready own_bad some_message first in_main named there
      ne in_own shut few output =
    let (l1, run1, r1) = ready_file-Ready env.main main l main_ready in_main in
    let shut1 : (file_at i l1).fp ≡ false = ap (λ f. f.fp) (r1.others i ne) ∙ shut in
    let run2 =
      choose_file_unopened env (label_of env e) main i l1 own_bad
        (ap (target main) (same_own (label_of env e) l l1 r1) ∙ there) ne shut1
        (leb_lt (l1.log_failure_count + 1) 100 (omega (arith, r1.failures, few))) in
    let l2 = record (set_file i (file_at i l1) l1) {
      log_failure_count = l1.log_failure_count + 1;
    } in
    let shut2 : (file_at i l2).fp ≡ false =
      ap (λ f. f.fp)
        (get_or-set_self l1.log_files i (file_at i l1) no_file (omega (arith, r1.size, in_own)))
      ∙ shut1 in
    let nothing = publish_shut env i e l2 shut2 (r1.output ∙ output) in
    (
      l2,
      ground (arith, some_message, first, named, run1, run2, nothing),
      r1.file_lines,
      r1.screen_lines,
    )
