-- ===== src/Logger/Shared.antt =====
-- What `set_log_thread_file` makes of the tables.
use ether_recorder_suite.Prelude.{
  ℕ, ◌+◌, ◌<◌, ◌≡◌, sym, ap, ◌∙◌, inl, inr, false, Option, some, List, [], ◌==◌, length, set,
  get_or, get_or-set_self, get_or-set_ne, length-set, arith, Bool-cases, Option-cases,
}
use mathlib.Core.Path.{subst}
use ether_recorder_suite.Text.{platform_strcat}
use ether_recorder_suite.Logger.Files.{
  ThreadLogFile, Logger, no_thread_file, find_or_create, set_log_thread_file,
}
use ether_recorder_suite.Logger.Tables.{
  thread_at, file_name_of, name_of, IsValid, Found, find_or_create-Found,
}

-- A thread that has been given the file of a name.
pub record Linked (filename : List ℕ) (l l' : Logger) : Type 0 where
  pub valid : IsValid l'
  pub threads : l'.thread_log_file_count ≡ l.thread_log_file_count + 1
  pub named : name_of l.thread_log_file_count l' ≡ some filename
  pub kept : (i : ℕ) → i < l.thread_log_file_count → name_of i l' ≡ name_of i l

-- The name of an earlier thread's file.
kept_name :
    {filename : List ℕ} {l : Logger} {r : Option ℕ × Logger} (t : ThreadLogFile)
    → Found filename l r
    → ((j : ℕ) → t.log_file ≡ some j → j < l.log_file_count)
    → file_name_of t.log_file r.1.log_files ≡ file_name_of t.log_file l.log_files
kept_name {l = l} {r = r} t found pointers = elim (Option-cases t.log_file) [
  | inl nothing ↦ ground (arith, nothing)
  | inr (j, e) ↦ ground (arith, e, found.kept j (pointers j e))
]

link :
    (filename label : List ℕ) (l : Logger) (r : Option ℕ × Logger)
    → IsValid l
    → l.thread_log_file_count < 100
    → Found filename l r
    → Linked filename l (record r.1 {
      thread_log_files =
          set r.1.thread_log_files r.1.thread_log_file_count
            (record { thread_label = label; log_file = r.0 });
      thread_log_file_count = r.1.thread_log_file_count + 1;
    })
link filename label l r v room found =
    let n = r.1.thread_log_file_count in
    let t : ThreadLogFile = record { thread_label = label; log_file = r.0 } in
    let in_table : n < length r.1.thread_log_files =
      omega (arith, found.count, room, ap (λ ts. length ts) found.tables, v.threads) in
    let here : get_or (set r.1.thread_log_files n t) n no_thread_file ≡ t =
      get_or-set_self r.1.thread_log_files n t no_thread_file in_table in
    let there : (i : ℕ)
        → i < l.thread_log_file_count
        → get_or (set r.1.thread_log_files n t) i no_thread_file ≡ thread_at i l =
      λ i h.
        get_or-set_ne r.1.thread_log_files t no_thread_file
          (λ e. absurd (omega (arith, e, h, found.count)))
        ∙ ap (λ ts. get_or ts i no_thread_file) found.tables in
    record {
      valid = record {
        files = found.files;
        threads =
            length-set r.1.thread_log_files n t ∙ ap (λ ts. length ts) found.tables ∙ v.threads;
        fewer = omega (arith, found.at_most_one, found.count, v.fewer);
        bounded = found.bounded;
        blank = found.blank;
        pointers = λ i j h e. elim (Bool-cases (n == i)) [
          | inl same ↦
              let at_n : n ≡ i = ground (arith, same) in
              let this : r.0 ≡ some j =
                sym (ap (λ t. t.log_file) here)
                ∙ ap (λ k. (get_or (set r.1.thread_log_files n t) k no_thread_file).log_file) at_n
                ∙ e in
              let same_file : found.file ≡ j = ground (arith, this, found.is) in
              omega (arith, same_file, found.in_use)
          | inr other ↦
              let early : i < l.thread_log_file_count = earlier i other h in
              omega (
                arith,
                found.grown,
                v.pointers i j early (sym (ap (λ t. t.log_file) (there i early)) ∙ e),
              )
        ];
        distinct = found.distinct;
      };
      threads = ap (λ k. k + 1) found.count;
      named =
          ap
            (λ k.
              file_name_of (get_or (set r.1.thread_log_files n t) k no_thread_file).log_file
                r.1.log_files)
            (sym found.count)
          ∙ ap (λ t. file_name_of t.log_file r.1.log_files) here
          ∙ ap (λ o. file_name_of o r.1.log_files) found.is
          ∙ ap some found.named;
      kept = λ i h.
          ap (λ t. file_name_of t.log_file r.1.log_files) (there i h)
          ∙ kept_name (thread_at i l) found (λ j e. v.pointers i j h e);
    }
  where
    earlier :
        (i : ℕ)
        → (r.1.thread_log_file_count == i) ≡ false
        → i < r.1.thread_log_file_count + 1
        → i < l.thread_log_file_count
    earlier i other h = ground (arith, other, h, found.count)

-- A thread that is given a log file, with a name that fits its buffer, where the tables are valid
-- and not full: the tables stay valid, so that threads with the same name of a file share it; the
-- new thread has a file of that name, which is never null; and every thread before keeps the name
-- of its file.
pub set_log_thread_file-Linked :
    (max_path_len : ℕ) (label filename : List ℕ) (l : Logger)
    → IsValid l
    → l.thread_log_file_count < 100
    → length filename < max_path_len
    → Linked filename l (set_log_thread_file max_path_len label filename l)
unfolding set_log_thread_file
set_log_thread_file-Linked max_path_len label filename l v room short =
    subst (Linked filename l) (ground (arith, room)) (
      link filename (platform_strcat [] label max_path_len) l
        (find_or_create max_path_len filename l) v room
        (find_or_create-Found max_path_len filename l v (omega (arith, v.fewer, room)) short))
