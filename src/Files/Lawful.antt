-- ===== src/Files/Lawful.antt =====
-- The file system in memory keeps the promises of engine/fs/mod.rs.
use reldir.Base.{
  ◌≡◌, ◌≢◌, refl, sym, ◌∙◌, List, [], ◌∷◌, ◌++◌, All, Option, none, some, arith, Option-cases,
  Bool-cases, inl, inr, subst,
}
use reldir.Store.Corruption.{Bytes}
use reldir.Overlay.{FilePath, Entry, IoError, not_found, path_eq}
use reldir.Files.{
  IsFs, Result, ok, err, Held, file_of, dir_here, other_here, Keeps, Anywhere, Elsewhere, Apart,
}
use reldir.Files.Memory.{
  found, found-put_self, found-put_ne, Cells, faulty, faulty_by, metadata_op, meta_result, contents,
  entries_at, add_entry, create_op, remove_op, rename_op, unchanged, memory,
}

quietly :
    {A : Type 0} (op : Cells → Result IoError A × Cells) (P : FilePath → Type 0)
    → ((c : Cells) (q : FilePath) → P q → found q (op c).1 ≡ found q c)
    → Keeps memory P (faulty op)
quietly op P run = record {
  at = faulty_by op (λ c r c'. (q : FilePath) → P q → found q c' ≡ found q c) run (λ c q h. refl);
}

create-keeps :
    (p : FilePath) (h : Held) (c : Cells) (q : FilePath)
    → q ≢ p
    → found q (create_op p h c).1 ≡ found q c
create-keeps p h c q n = elim (Option-cases (found p c)) [
  | inl e ↦ rw (create_op, e) (found-put_ne p q (some h) c n)
  | inr (old, e) ↦ rw (create_op, e)
]

remove-keeps :
    (p : FilePath) (c : Cells) (q : FilePath) → q ≢ p → found q (remove_op p c).1 ≡ found q c
remove-keeps p c q n = elim (Option-cases (found p c)) [
  | inl e ↦ rw (remove_op, e)
  | inr (old, e) ↦ rw (remove_op, e) (found-put_ne p q none c n)
]

create-done :
    (p : FilePath) (h : Held) (c : Cells)
    → (create_op p h c).0 ≡ ok tt
    → found p (create_op p h c).1 ≡ some h
create-done p h c e = elim (Option-cases (found p c)) [
  | inl n ↦ rw (create_op, n) (found-put_self p (some h) c)
  | inr (old, o) ↦ absurd (ground (arith, o))
]

remove-done :
    (p : FilePath) (c : Cells) → (remove_op p c).0 ≡ ok tt → found p (remove_op p c).1 ≡ none
remove-done p c e = elim (Option-cases (found p c)) [
  | inl n ↦ rw (remove_op, n) n
  | inr (old, o) ↦ rw (remove_op, o) (found-put_self p none c)
]

remove-missing :
    (p : FilePath) (c : Cells)
    → (remove_op p c).0 ≡ err not_found
    → found p (remove_op p c).1 ≡ none
remove-missing p c e = elim (Option-cases (found p c)) [
  | inl n ↦ rw (remove_op, n) n
  | inr (old, o) ↦ rw (remove_op, o) (found-put_self p none c)
]

remove-only : (p q : FilePath) (c : Cells) → found q c ≡ none → found q (remove_op p c).1 ≡ none
remove-only p q c e = elim (Option-cases (found p c)) [
  | inl n ↦ rw (remove_op, n) e
  | inr (old, o) ↦
      rw (remove_op, o) (elim (Bool-cases (path_eq p q)) [ inl y ↦ rw y | inr m ↦ rw m e ])
]

dir-ne-file : (b : Bytes) → ¬ (some dir_here ≡ some (file_of b))
dir-ne-file b e = cc

meta_result-missing : (h : Option Held) → meta_result h ≡ err not_found → h ≡ none
meta_result-missing none e = refl
meta_result-missing (some h) e = cc

create_dir-no_file :
    (p : FilePath) (c : Cells) (b : Bytes)
    → found p (create_op p dir_here c).1 ≡ some (file_of b)
    → found p c ≡ some (file_of b)
create_dir-no_file p c b e = elim (Option-cases (found p c)) [
  | inl n ↦
      let made : found p (create_op p dir_here c).1 ≡ some dir_here =
        rw (create_op, n) (found-put_self p (some dir_here) c) in
      absurd (dir-ne-file b (sym made ∙ e))
  | inr (old, o) ↦
      let same : found p (create_op p dir_here c).1 ≡ found p c = rw (create_op, o) o in
      sym same ∙ e
]

-- Of a file, its bytes and no others; nothing is missing that is there.
contents-done : (h : Option Held) (b : Bytes) → contents h ≡ ok b → h ≡ some (file_of b)
contents-done none b e = cc
contents-done (some (file_of x)) b e = cc
contents-done (some dir_here) b e = cc
contents-done (some other_here) b e = cc

contents-missing : (h : Option Held) → contents h ≡ err not_found → h ≡ none
contents-missing none e = refl
contents-missing (some (file_of x)) e = cc
contents-missing (some dir_here) e = cc
contents-missing (some other_here) e = cc

rename-keeps :
    (from to : FilePath) (c : Cells) (q : FilePath)
    → Apart from to q
    → found q (rename_op from to c).1 ≡ found q c
rename-keeps from to c q n = elim (Option-cases (found from c)) [
  | inl e ↦ rw (rename_op, e)
  | inr (h, e) ↦
      rw (rename_op, e)
        (found-put_ne to q (some h) ((from, none) ∷ c) n.1 ∙ found-put_ne from q none c n.0)
]

rename-done :
    (from to : FilePath) (c : Cells) (b : Bytes)
    → found from c ≡ some (file_of b)
    → found to (rename_op from to c).1 ≡ some (file_of b)
rename-done from to c b e =
    rw (rename_op, e) (found-put_self to (some (file_of b)) ((from, none) ∷ c))

abbrev ChildOf : FilePath → Entry → Type 0
ChildOf p e = (name : Bytes) × (e.path ≡ p ++ name ∷ [])

add_entry-children :
    (p : FilePath) (n : Option Bytes) (h x : Option Held) (others : List Entry)
    → All (ChildOf p) others
    → All (ChildOf p) (add_entry p n h x others)
add_entry-children p none h x others i = i
add_entry-children p (some name) none x others i = i
add_entry-children p (some name) (some h) (some x) others i = i
add_entry-children p (some name) (some h) none others i = ((name, refl), i)

entries_at-children : (p : FilePath) (cells all : Cells) → All (ChildOf p) (entries_at p cells all)
entries_at-children p [] all = tt
entries_at-children p ((q, h) ∷ rest) all =
    add_entry-children p _ _ _ _ (entries_at-children p rest all)

pub memory-IsFs : IsFs memory
memory-IsFs = record {
  metadata_keeps = λ p. quietly (metadata_op p) Anywhere (λ c q h. refl);
  read_dir_keeps = λ p. quietly _ Anywhere (λ c q h. refl);
  read_keeps = λ p. quietly _ Anywhere (λ c q h. refl);
  volume_keeps = λ p. quietly _ Anywhere (λ c q h. refl);
  sync_files_keeps = λ ps d. quietly (unchanged tt) Anywhere (λ c q h. refl);
  sync_dir_keeps = λ p. quietly (unchanged tt) Anywhere (λ c q h. refl);
  create_new_keeps =
      λ p b. quietly (create_op p (file_of b)) (Elsewhere p) (create-keeps p (file_of b));
  create_synced_keeps =
      λ p b d. quietly (create_op p (file_of b)) (Elsewhere p) (create-keeps p (file_of b));
  remove_file_keeps = λ p. quietly (remove_op p) (Elsewhere p) (remove-keeps p);
  create_dir_keeps = λ p. quietly (create_op p dir_here) (Elsewhere p) (create-keeps p dir_here);
  remove_dir_keeps = λ p. quietly (remove_op p) (Elsewhere p) (remove-keeps p);
  metadata_missing = λ p.
      faulty_by (metadata_op p) (λ c r c'. r ≡ err not_found → found p c ≡ none)
        (λ c. meta_result-missing (found p c)) (λ c e. cc);
  create_dir_no_file = λ p w b.
      faulty_by (create_op p dir_here)
        (λ c r c'. found p c' ≡ some (file_of b) → found p c ≡ some (file_of b))
        (λ c. create_dir-no_file p c b) (λ c e. e) w;
  rename_keeps = λ from to w b q held.
      (quietly (rename_op from to) (Apart from to) (rename-keeps from to)).at w q;
  renamed = λ from to w b held.
      faulty_by (rename_op from to)
        (λ c r c'. found from c ≡ some (file_of b) → r ≡ ok tt → found to c' ≡ some (file_of b))
        (λ c e r. rename-done from to c b e) (λ c e r. cc) w held;
  create_done = λ p b.
      faulty_by (create_op p (file_of b)) (λ c r c'. r ≡ ok tt → found p c' ≡ some (file_of b))
        (create-done p (file_of b)) (λ c e. cc);
  create_synced_done = λ p b d.
      faulty_by (create_op p (file_of b)) (λ c r c'. r ≡ ok tt → found p c' ≡ some (file_of b))
        (create-done p (file_of b)) (λ c e. cc);
  read_done = λ p b.
      faulty_by _ (λ c r c'. r ≡ ok b → found p c ≡ some (file_of b))
        (λ c. contents-done (found p c) b) (λ c e. cc);
  read_missing = λ p.
      faulty_by _ (λ c r c'. r ≡ err not_found → found p c ≡ none)
        (λ c. contents-missing (found p c)) (λ c e. cc);
  remove_done = λ p.
      faulty_by (remove_op p) (λ c r c'. r ≡ ok tt → found p c' ≡ none) (remove-done p) (λ c e. cc);
  remove_missing = λ p.
      faulty_by (remove_op p) (λ c r c'. r ≡ err not_found → found p c' ≡ none) (remove-missing p)
        (λ c e. cc);
  remove_only = λ p q.
      faulty_by (remove_op p) (λ c r c'. found q c ≡ none → found q c' ≡ none) (remove-only p q)
        (λ c e. e);
  listed = λ p es.
      faulty_by _ (λ c r c'. r ≡ ok es → All (ChildOf p) es)
        (λ c e. subst (All (ChildOf p)) (cc) (entries_at-children p c c)) (λ c e. cc);
}
