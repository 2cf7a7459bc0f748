-- ===== src/Journal/Valid.antt =====
-- What `validate` (engine/journal.rs) makes sure of: the changes of a journal lie apart.
use reldir.Base.{
  ℕ, zero, suc, ◌+◌, ◌-◌, ◌*◌, ◌/◌, ◌%◌, ◌<◌, ◌≡◌, ◌≢◌, refl, sym, ap, ◌∙◌, subst, List, [], ◌∷◌,
  ◌++◌, All, All-split, Option, none, some, true, false, not, Bool, ◌&&◌, Bool-cases, inl, inr,
  arith, ltb, codes,
}
use mathlib.Core.List.{append_assoc}
use reldir.Store.Corruption.{Bytes}
use reldir.Store.Text.{bytes_eq, contains}
use reldir.Overlay.{FilePath, deleted, path_eq, starts_with, strip_prefix}
use reldir.Files.{Result, ok, err}
use reldir.Files.Memory.{path_eq_iff}
use reldir.RefPath.{decimal, decimal_digits}
use reldir.Journal.{
  Code, Image, JournalChange, Journal, Format, store, is_safe, governed_metadata, plain_relative,
  parent_and_name, db,
}
use reldir.Journal.Record.{
  Taken, consistent, with_number, validate_changes, validate, require, ◌>>=◌, ◌>>◌,
}
use reldir.Journal.Apply.{staged_name, fresh_name}
use reldir.Journal.Names.{child-injective, Digit, staged_name-Digit}
use reldir.Journal.Others.{Clear, ClearOf}
use reldir.Journal.AllSettled.{Spares, StagedClear, Separate}

-- The value of digits, the most significant first.
value_of : ℕ → Bytes → ℕ
value_of acc [] = acc
value_of acc (b ∷ bs) = value_of (acc * 10 + (b - b'0')) bs

value_of-digits :
    (rounds n : ℕ) (digits : Bytes)
    → n < rounds
    → value_of 0 (decimal_digits rounds n digits) ≡ value_of n digits
unfolding decimal_digits value_of
value_of-digits zero n digits h = absurd (omega arith)
value_of-digits (suc rounds) n digits h =
    let digit : n % 10 + b'0' - b'0' ≡ n % 10 = omega arith in
    elim (Bool-cases (ltb n 10)) [
      | inl y ↦
          let small : 0 * 10 + (n % 10 + b'0' - b'0') ≡ n = ground (arith, y) in
          rw y (ap (λ a. value_of a digits) small)
      | inr m ↦
          let whole : n / 10 * 10 + (n % 10 + b'0' - b'0') ≡ n = omega arith in
          let fewer : n / 10 < rounds = ground (arith, m) in
          rw (m, value_of-digits rounds (n / 10) ((n % 10 + b'0') ∷ digits) fewer, whole)
    ]

staged_name-value : (n : ℕ) → value_of 0 (staged_name n) ≡ n
unfolding staged_name decimal value_of
staged_name-value n = value_of-digits (suc n) n [] (omega arith)

staged_name-injective : (m n : ℕ) → staged_name m ≡ staged_name n → m ≡ n
staged_name-injective m n e = sym (staged_name-value m) ∙ ap (value_of 0) e ∙ staged_name-value n

staged_name-ne-fresh : (m n : ℕ) → staged_name m ≢ fresh_name n
unfolding fresh_name
staged_name-ne-fresh m n e =
    let digits : All Digit (staged_name n ++ codes ".fresh") =
      subst (λ b. All Digit b) e (staged_name-Digit m) in
    absurd (omega (arith, (All-split Digit (staged_name n) (codes ".fresh") digits).1.0))

append-cancel : (r p q : FilePath) → r ++ p ≡ r ++ q → p ≡ q
append-cancel [] p q e = e
append-cancel (c ∷ cs) p q e = append-cancel cs p q (cc)

-- A safe path is not that of a file in a transaction.
safe-ne-staged :
    (id x : Bytes) (path : FilePath)
    → is_safe path ≡ true
    → path ≢ db ∷ codes "transactions" ∷ id ∷ x ∷ []
unfolding is_safe governed_metadata path_eq starts_with strip_prefix bytes_eq parent_and_name
safe-ne-staged id x path s e = unsafe (plain_relative _) (subst (λ p. is_safe p ≡ true) e s)
  where
    unsafe : (b : Bool) → (b && false) ≡ true → ⊥
    unsafe true h = cc
    unsafe false h = cc

-- No earlier line took the number.
abbrev NumberFree : Option ℕ → List ℕ → Type 0
NumberFree none staged = Unit
NumberFree (some n) staged = contains n staged ≡ false

-- What a change may not share with those before it, and may not be.
record IsFresh (taken : Taken) (c : JournalChange) : Type 0 where
  safe : is_safe c.path ≡ true
  path_free : deleted c.path taken.paths ≡ false
  number_free : NumberFree c.n taken.staged

consistent-NumberFree :
    (n : Option ℕ) (pre post : Option Image) (staged : List ℕ)
    → consistent n pre post staged ≡ true
    → NumberFree n staged
unfolding consistent
consistent-NumberFree none pre post staged h = tt
consistent-NumberFree (some n) pre (some post) staged h = ground arith
consistent-NumberFree (some n) pre none staged h = absurd (no_true h)
  where
    no_true : false ≡ true → ⊥
    no_true e = cc

NumberFree-fewer :
    (n m : Option ℕ) (staged : List ℕ) → NumberFree n (with_number m staged) → NumberFree n staged
unfolding with_number contains
NumberFree-fewer none m staged h = tt
NumberFree-fewer (some n) none staged h = h
NumberFree-fewer (some n) (some m) staged h = ground arith

deleted-fewer :
    (x p : FilePath) (ps : List FilePath) → deleted x (p ∷ ps) ≡ false → deleted x ps ≡ false
unfolding deleted
deleted-fewer x p ps h = ground arith

with_change : JournalChange → Taken → Taken
with_change c taken = record { paths = c.path ∷ taken.paths; staged = with_number c.n taken.staged }

IsFresh-fewer :
    (taken : Taken) (c d : JournalChange) → IsFresh (with_change c taken) d → IsFresh taken d
unfolding with_change
IsFresh-fewer taken c d h = record {
  safe = h.safe;
  path_free = deleted-fewer d.path c.path taken.paths h.path_free;
  number_free = NumberFree-fewer d.n c.n taken.staged h.number_free;
}

all_fewer :
    (taken : Taken) (c : JournalChange) (ds : List JournalChange)
    → All (IsFresh (with_change c taken)) ds
    → All (IsFresh taken) ds
all_fewer taken c [] h = tt
all_fewer taken c (d ∷ ds) h = (IsFresh-fewer taken c d h.0, all_fewer taken c ds h.1)

require-ok :
    {A : Type 0} (b : Bool) (e : Code) (k : Result Code A) {a : A}
    → (require b e >> k) ≡ ok a
    → (b ≡ true) × (k ≡ ok a)
require-ok true e k h = (refl, h)
require-ok false e k h = cc

both_true : (a b : Bool) → (not a && b) ≡ true → (a ≡ false) × (b ≡ true)
both_true false b h = (refl, h)
both_true true b h = cc

-- What a step of the loop has tested.
step-IsFresh :
    (c : JournalChange) (cs : List JournalChange) (taken t : Taken)
    → validate_changes (c ∷ cs) taken ≡ ok t
    → IsFresh taken c × (validate_changes cs (with_change c taken) ≡ ok t)
unfolding validate_changes with_change
step-IsFresh c cs taken t h =
    let (safe, h') = require-ok (is_safe c.path) _ _ h in
    let (tested, rest) = require-ok _ _ _ h' in
    let (free, numbered) = both_true (deleted c.path taken.paths) _ tested in
    (
      record {
        safe = safe;
        path_free = free;
        number_free = consistent-NumberFree c.n c.pre c.post taken.staged numbered;
      },
      rest,
    )

validate_changes-IsFresh :
    (cs : List JournalChange) (taken t : Taken)
    → validate_changes cs taken ≡ ok t
    → All (IsFresh taken) cs
validate_changes-IsFresh [] taken t h = tt
validate_changes-IsFresh (c ∷ cs) taken t h =
    let (fresh, rest) = step-IsFresh c cs taken t h in
    (fresh, all_fewer taken c cs (validate_changes-IsFresh cs (with_change c taken) t rest))

path_free-ne : (c d : FilePath) (ps : List FilePath) → deleted d (c ∷ ps) ≡ false → c ≢ d
unfolding deleted
path_free-ne c d ps h e =
    let same : path_eq c d ≡ true = (path_eq_iff c d).1 e in absurd (ground arith)

module _ (root : FilePath) (id : Bytes) where
  abbrev dir : FilePath
  dir = store root ++ id ∷ []

  -- The targets of safe paths are not in the transaction.
  target-ne-staged :
      (path : FilePath) (x : Bytes) → is_safe path ≡ true → root ++ path ≢ dir ++ x ∷ []
  unfolding store
  target-ne-staged path x s e = safe-ne-staged id x path s (
      append-cancel root path _ (
        e
        ∙ append_assoc (root ++ db ∷ codes "transactions" ∷ []) (id ∷ []) (x ∷ [])
        ∙ append_assoc root (db ∷ codes "transactions" ∷ []) (id ∷ x ∷ [])))

  abbrev NumbersDiffer : Option ℕ → Option ℕ → Type 0
  NumbersDiffer none m = Unit
  NumbersDiffer (some n) none = Unit
  NumbersDiffer (some n) (some m) = n ≢ m

  target-ClearOf :
      (d c : FilePath) (n : Option ℕ) → is_safe d ≡ true → c ≢ d → ClearOf root dir (root ++ d) c n
  target-ClearOf d c none s a = λ e. a (sym (append-cancel root d c e))
  target-ClearOf d c (some n) s a = record {
    of_target = λ e. a (sym (append-cancel root d c e));
    of_staged = target-ne-staged d (staged_name n) s;
    of_fresh = target-ne-staged d (fresh_name n) s;
  }

  staged-Clear :
      (m n : ℕ) (c : FilePath)
      → is_safe c ≡ true
      → m ≢ n
      → Clear root dir (dir ++ staged_name m ∷ []) c n
  staged-Clear m n c s a = record {
    of_target = λ e. target-ne-staged c (staged_name m) s (sym e);
    of_staged = λ e. a (staged_name-injective m n (child-injective dir _ _ e));
    of_fresh = λ e. staged_name-ne-fresh m n (child-injective dir _ _ e);
  }

  staged-StagedClear :
      (m n : Option ℕ) (c : FilePath)
      → is_safe c ≡ true
      → NumbersDiffer m n
      → StagedClear root dir m c n
  staged-StagedClear none n c s a = tt
  staged-StagedClear (some m) none c s a = λ e. target-ne-staged c (staged_name m) s (sym e)
  staged-StagedClear (some m) (some n) c s a = staged-Clear m n c s a

  free-NumbersDiffer :
      (m n : Option ℕ) (staged : List ℕ)
      → NumberFree m (with_number n staged)
      → NumbersDiffer m n × NumbersDiffer n m
  unfolding with_number contains
  free-NumbersDiffer none none staged h = (tt, tt)
  free-NumbersDiffer none (some n) staged h = (tt, tt)
  free-NumbersDiffer (some m) none staged h = (tt, tt)
  free-NumbersDiffer (some m) (some n) staged h = (λ e. ground arith, λ e. ground arith)

  spare_each_other :
      (taken : Taken) (c d : JournalChange)
      → IsFresh taken c
      → IsFresh (with_change c taken) d
      → Spares root dir c d × Spares root dir d c
  unfolding with_change
  spare_each_other taken c d fc fd =
      let apart = path_free-ne c.path d.path taken.paths fd.path_free in
      let (dc, cd) = free-NumbersDiffer d.n c.n taken.staged fd.number_free in
      (
        (
          target-ClearOf d.path c.path c.n fd.safe apart,
          staged-StagedClear d.n c.n c.path fc.safe dc,
        ),
        (
          target-ClearOf c.path d.path d.n fc.safe (λ e. apart (sym e)),
          staged-StagedClear c.n d.n d.path fd.safe cd,
        ),
      )

  spare_all :
      (taken : Taken) (c : JournalChange) (ds : List JournalChange)
      → IsFresh taken c
      → All (IsFresh (with_change c taken)) ds
      → All (Spares root dir c) ds × All (λ (d : JournalChange). Spares root dir d c) ds
  spare_all taken c [] fc h = (tt, tt)
  spare_all taken c (d ∷ ds) fc h =
      let (x, y) = spare_each_other taken c d fc h.0 in
      let (xs, ys) = spare_all taken c ds fc h.1 in ((x, xs), (y, ys))

  validate_changes-Separate :
      (cs : List JournalChange) (taken t : Taken)
      → validate_changes cs taken ≡ ok t
      → Separate root dir cs
  validate_changes-Separate [] taken t h = tt
  validate_changes-Separate (c ∷ cs) taken t h =
      let (fresh, rest) = step-IsFresh c cs taken t h in
      (
        spare_all taken c cs fresh (validate_changes-IsFresh cs (with_change c taken) t rest),
        validate_changes-Separate cs (with_change c taken) t rest,
      )

  bind-ok :
      {A B : Type 0} (m : Result Code A) (f : A → Result Code B) {b : B}
      → (m >>= f) ≡ ok b
      → (a : A) × (m ≡ ok a)
  bind-ok (ok a) f h = (a, refl)
  bind-ok (err e) f h = cc

  -- The changes of a journal that is valid lie apart.
  pub validate-Separate :
      (format : Format) (journal : Journal)
      → validate format journal ≡ ok tt
      → Separate root dir journal.changes
  unfolding validate
  validate-Separate format journal h =
      let (ulid, h') = require-ok (format.is_ulid journal.id) _ _ h in
      let (taken, e) =
        bind-ok (validate_changes journal.changes (record { paths = []; staged = [] })) _ h' in
      validate_changes-Separate journal.changes (record { paths = []; staged = [] }) taken e
