-- ===== src/Logger/Tables.antt =====
-- The tables of log files: threads with the same name of a file share it.
use ether_recorder_suite.Prelude.{
  ℕ, zero, suc, ◌+◌, ◌≤◌, ◌<◌, ◌≡◌, ◌≢◌, refl, sym, ap, ◌∙◌, inl, inr, false, Option, none, some,
  List, [], ◌∷◌, ◌==◌, if◌then◌else◌, length, take, get_or, get_or-set_self, get_or-set_ne,
  length-set, arith, Bool-cases, Option-cases, bytes_eq, bytes_eq_sound, bytes_eq_refl,
}
use mathlib.Core.Path.{subst}
use ether_recorder_suite.Text.{platform_strcat}
use ether_recorder_suite.Logger.Files.{
  LogFile, ThreadLogFile, Logger, no_file, no_thread_file, file_at, set_file, find_file,
  find_or_create,
}

abbrev pub thread_at : ℕ → Logger → ThreadLogFile
thread_at i l = get_or l.thread_log_files i no_thread_file

abbrev pub file_name_of : Option ℕ → List LogFile → Option (List ℕ)
file_name_of none fs = none
file_name_of (some j) fs = some (get_or fs j no_file).file_name

-- The name of the file of the thread at an index.
abbrev pub name_of : ℕ → Logger → Option (List ℕ)
name_of i l = file_name_of (thread_at i l).log_file l.log_files

-- The tables before the logger is closed: the files in use have different names, the slots behind
-- them are blank, and the threads have files in use.
pub record IsValid (l : Logger) : Type 0 where
  pub files : length l.log_files ≡ 100
  pub threads : length l.thread_log_files ≡ 101
  pub fewer : l.log_file_count ≤ l.thread_log_file_count
  pub bounded : l.log_file_count ≤ 100
  pub blank : (j : ℕ) → l.log_file_count ≤ j → (file_at j l).file_name ≡ []
  pub pointers :
      (i j : ℕ)
      → i < l.thread_log_file_count
      → (thread_at i l).log_file ≡ some j
      → j < l.log_file_count
  pub distinct :
      (j k : ℕ)
      → j < l.log_file_count
      → k < l.log_file_count
      → (file_at j l).file_name ≡ (file_at k l).file_name
      → j ≡ k

find_file-some :
    (name : List ℕ) (fs : List LogFile) (n i : ℕ)
    → find_file name fs n ≡ some i
    → (i < n) × ((get_or fs i no_file).file_name ≡ name)
unfolding find_file
find_file-some name fs zero i h = absurd (ground arith)
find_file-some name [] (suc n) i h = absurd (ground arith)
find_file-some name (f ∷ fs) (suc n) i h = elim (Bool-cases (bytes_eq f.file_name name)) [
  | inl e ↦
      let here : i ≡ 0 = ground (arith, e, h) in
      (omega (arith, here), ground (arith, here, bytes_eq_sound f.file_name name e))
  | inr e ↦ elim (Option-cases (find_file name fs n)) [
    | inl nowhere ↦ absurd (ground (arith, e, nowhere, h))
    | inr (k, p) ↦
        let (lt, same) = find_file-some name fs n k p in
        let there : i ≡ suc k = ground (arith, e, p, h) in
        (omega (arith, there, lt), ground (arith, there, same))
  ]
]

find_file-none :
    (name : List ℕ) (fs : List LogFile) (n j : ℕ)
    → find_file name fs n ≡ none
    → j < n
    → j < length fs
    → (get_or fs j no_file).file_name ≢ name
unfolding find_file
find_file-none name fs zero j h lt in_fs same = absurd (omega arith)
find_file-none name [] (suc n) j h lt in_fs same = absurd (omega arith)
find_file-none name (f ∷ fs) (suc n) zero h lt in_fs same =
    absurd (ground (arith, ap (λ x. bytes_eq x name) same, bytes_eq_refl name, h))
find_file-none name (f ∷ fs) (suc n) (suc j) h lt in_fs same =
    elim (Bool-cases (bytes_eq f.file_name name)) [
      | inl e ↦ absurd (ground (arith, e, h))
      | inr e ↦ elim (Option-cases (find_file name fs n)) [
        | inr (k, p) ↦ absurd (ground (arith, e, p, h))
        | inl nowhere ↦ find_file-none name fs n j nowhere (omega arith) (omega arith) same
      ]
    ]

-- What `find_or_create` makes of the tables: the file has the name, and the files in use before
-- keep theirs.
pub record Found (name : List ℕ) (l : Logger) (r : Option ℕ × Logger) : Type 0 where
  pub file : ℕ
  pub is : r.0 ≡ some file
  pub in_use : file < r.1.log_file_count
  pub named : (file_at file r.1).file_name ≡ name
  pub kept : (j : ℕ) → j < l.log_file_count → (file_at j r.1).file_name ≡ (file_at j l).file_name
  pub grown : l.log_file_count ≤ r.1.log_file_count
  pub at_most_one : r.1.log_file_count ≤ l.log_file_count + 1
  pub bounded : r.1.log_file_count ≤ 100
  pub files : length r.1.log_files ≡ 100
  pub tables : r.1.thread_log_files ≡ l.thread_log_files
  pub count : r.1.thread_log_file_count ≡ l.thread_log_file_count
  pub blank : (j : ℕ) → r.1.log_file_count ≤ j → (file_at j r.1).file_name ≡ []
  pub distinct :
      (j k : ℕ)
      → j < r.1.log_file_count
      → k < r.1.log_file_count
      → (file_at j r.1).file_name ≡ (file_at k r.1).file_name
      → j ≡ k

-- An assignment to the name of a file.
name-set_file :
    (i j : ℕ) (f : LogFile) (l : Logger)
    → i < length l.log_files
    → (file_at j (set_file i f l)).file_name
      ≡ (if i == j then f.file_name else (file_at j l).file_name)
name-set_file i j f l h = elim (Bool-cases (i == j)) [
  | inl e ↦
      let same : i ≡ j = ground (arith, e) in
      subst
        (λ k.
          (file_at k (set_file i f l)).file_name
          ≡ (if i == k then f.file_name else (file_at k l).file_name))
        same (ap (λ f. f.file_name) (get_or-set_self l.log_files i f no_file h) ∙ ground arith)
  | inr e ↦
      ap (λ f. f.file_name)
        (get_or-set_ne l.log_files f no_file (λ p. absurd (ground (arith, e, p))))
      ∙ ground (arith, e)
]

platform_strcat-nil : (s : List ℕ) (size : ℕ) → length s < size → platform_strcat [] s size ≡ s
unfolding platform_strcat
platform_strcat-nil s size h = ground (arith, take_all s)
  where
    take_all : (s : List ℕ) → take (length s) s ≡ s
    take_all [] = refl
    take_all (c ∷ cs) = ap (λ l. c ∷ l) (take_all cs)

-- A file that keeps its name.
name-set_same :
    (i j : ℕ) (f : LogFile) (l : Logger)
    → i < length l.log_files
    → f.file_name ≡ (file_at i l).file_name
    → (file_at j (set_file i f l)).file_name ≡ (file_at j l).file_name
name-set_same i j f l h same = elim (Bool-cases (i == j)) [
  | inl e ↦
      let here : i ≡ j = ground (arith, e) in
      name-set_file i j f l h ∙ ground (arith, e) ∙ same ∙ ap (λ k. (file_at k l).file_name) here
  | inr e ↦ name-set_file i j f l h ∙ ground (arith, e)
]

-- A file in use gets another reference.
shared :
    (name : List ℕ) (l : Logger) (i : ℕ)
    → IsValid l
    → i < l.log_file_count
    → (file_at i l).file_name ≡ name
    → Found name l
        (some i, set_file i (record (file_at i l) { ref_count = (file_at i l).ref_count + 1 }) l)
shared name l i v lt same =
    let f = record (file_at i l) { ref_count = (file_at i l).ref_count + 1 } in
    let in_files : i < length l.log_files = omega (arith, lt, v.files, v.bounded) in
    let names : (j : ℕ) → (file_at j (set_file i f l)).file_name ≡ (file_at j l).file_name =
      λ j. name-set_same i j f l in_files refl in
    record {
      file = i;
      is = refl;
      in_use = lt;
      named = names i ∙ same;
      kept = λ j h. names j;
      grown = omega arith;
      at_most_one = omega arith;
      bounded = v.bounded;
      files = length-set l.log_files i f ∙ v.files;
      tables = refl;
      count = refl;
      blank = λ j h. names j ∙ v.blank j h;
      distinct = λ j k hj hk p. v.distinct j k hj hk (sym (names j) ∙ p ∙ names k);
    }

-- A new file.
created :
    (name : List ℕ) (l : Logger) (f : LogFile)
    → IsValid l
    → l.log_file_count < 100
    → f.file_name ≡ name
    → find_file name l.log_files l.log_file_count ≡ none
    → Found name l (
      some l.log_file_count,
      record (set_file l.log_file_count f l) { log_file_count = l.log_file_count + 1 },
    )
created name l f v room named nowhere =
    let n = l.log_file_count in
    let in_files : n < length l.log_files = omega (arith, room, v.files) in
    let names : (j : ℕ)
        → (file_at j (set_file n f l)).file_name
          ≡ (if n == j then f.file_name else (file_at j l).file_name) =
      λ j. name-set_file n j f l in_files in
    let new : (j : ℕ) → n ≡ j → (file_at j (set_file n f l)).file_name ≡ name =
      λ j e. names j ∙ ground (arith, e, named) in
    let old : (j : ℕ) → n ≢ j → (file_at j (set_file n f l)).file_name ≡ (file_at j l).file_name =
      λ j e. ap (λ f. f.file_name) (get_or-set_ne l.log_files f no_file e) in
    let fresh : (j : ℕ) → j < n → (file_at j l).file_name ≢ name =
      λ j h. find_file-none name l.log_files n j nowhere h (omega (arith, in_files)) in
    record {
      file = n;
      is = refl;
      in_use = omega arith;
      named = new n refl;
      kept = λ j h. old j (λ e. absurd (omega (arith, e, h)));
      grown = omega arith;
      at_most_one = omega arith;
      bounded = omega (arith, room);
      files = length-set l.log_files n f ∙ v.files;
      tables = refl;
      count = refl;
      blank = λ j h. old j (λ e. absurd (omega (arith, e, h))) ∙ v.blank j (omega (arith, h));
      distinct = λ j k hj hk p. elim (Bool-cases (n == j)) [
        | inl ej ↦ elim (Bool-cases (n == k)) [
          | inl ek ↦ ground (arith, ej, ek)
          | inr ek ↦ absurd (
              fresh k (ground (arith, ek, hk))
                (sym (old k (ne ek)) ∙ sym p ∙ new j (ground (arith, ej))))
        ]
        | inr ej ↦ elim (Bool-cases (n == k)) [
          | inl ek ↦ absurd (
              fresh j (ground (arith, ej, hj))
                (sym (old j (ne ej)) ∙ p ∙ new k (ground (arith, ek))))
          | inr ek ↦
              v.distinct j k (ground (arith, ej, hj)) (ground (arith, ek, hk))
                (sym (old j (ne ej)) ∙ p ∙ old k (ne ek))
        ]
      ];
    }
  where
    ne : {j : ℕ} → (l.log_file_count == j) ≡ false → l.log_file_count ≢ j
    ne h e = absurd (ground (arith, h, e))

pub find_or_create-Found :
    (max_path_len : ℕ) (name : List ℕ) (l : Logger)
    → IsValid l
    → l.log_file_count < 100
    → length name < max_path_len
    → Found name l (find_or_create max_path_len name l)
unfolding find_or_create
find_or_create-Found max_path_len name l v room short =
    elim (Option-cases (find_file name l.log_files l.log_file_count)) [
      | inr (i, e) ↦
          let (lt, same) = find_file-some name l.log_files l.log_file_count i e in
          subst (Found name l) (ground (arith, e)) (shared name l i v lt same)
      | inl e ↦
          let f : LogFile = record {
            file_name = platform_strcat (file_at l.log_file_count l).file_name name max_path_len;
            fp = false;
            first_open = false;
            ref_count = 1;
          } in
          let named : f.file_name ≡ name =
            ap (λ d. platform_strcat d name max_path_len) (v.blank l.log_file_count (omega arith))
            ∙ platform_strcat-nil name max_path_len short in
          subst (Found name l) (ground (arith, e, room)) (created name l f v room named e)
    ]
