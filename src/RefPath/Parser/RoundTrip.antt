-- ===== src/RefPath/Parser/RoundTrip.antt =====
-- A path that was printed is parsed into the same path (schema/path.rs).
use mathlib.Core.List.{append_assoc}
use reldir.Base.{
  ℕ, zero, suc, ◌+◌, ◌<◌, ◌≤◌, ◌≡◌, refl, sym, ap, subst, arith, true, false, List, [], ◌∷◌, ◌++◌,
  length, length-append, none, some, inl, inr, Bool-cases, codes,
}
use reldir.Store.Corruption.{Bytes}
use reldir.Json.{Value}
use reldir.Files.{ok, pure, ◌>>=◌}
use reldir.RefPath.{Step, member_step, each_step, where_step}
use reldir.RefPath.Parser.{
  Parse, Serde, in_name, starts_name, is_ascii_digit, is_identifier, strip, peek, name, write_name,
  write_literal, write_step, write_steps, display, suffixes, segments, path, parse,
}
use reldir.RefPath.Parser.Chars.{Stops, NotEmpty}
use reldir.RefPath.Parser.Reads.{
  Reads, Reads-pure, Reads-bind, Reads-eq, eat-Reads, eat-Misses, peek-Reads, peek-end, IsSerde,
  IsLiteral, name-write_name,
}
use reldir.RefPath.Parser.Literals.{filter-written}

-- What the steps of a path may hold: names that are not empty, and literals that can be compared.
abbrev pub IsStep : Serde → Step → Type 0
IsStep serde (member_step n) = NotEmpty n
IsStep serde each_step = Unit {0}
IsStep serde (where_step n v) = NotEmpty n × IsLiteral serde v

abbrev pub AllSteps : Serde → List Step → Type 0
AllSteps serde [] = Unit {0}
AllSteps serde (s ∷ ss) = IsStep serde s × AllSteps serde ss

-- A path begins with a member.
abbrev pub IsPath : Serde → List Step → Type 0
IsPath serde [] = ⊥
IsPath serde (member_step n ∷ ss) = NotEmpty n × AllSteps serde ss
IsPath serde (each_step ∷ ss) = ⊥
IsPath serde (where_step n v ∷ ss) = ⊥

-- The steps up to the next member, and those from it.
abbrev before_member : List Step → List Step
before_member [] = []
before_member (member_step n ∷ ss) = []
before_member (each_step ∷ ss) = each_step ∷ before_member ss
before_member (where_step n v ∷ ss) = where_step n v ∷ before_member ss

abbrev from_member : List Step → List Step
from_member [] = []
from_member (member_step n ∷ ss) = member_step n ∷ ss
from_member (each_step ∷ ss) = from_member ss
from_member (where_step n v ∷ ss) = from_member ss

before-append-from : (ss : List Step) → before_member ss ++ from_member ss ≡ ss
before-append-from [] = refl
before-append-from (member_step n ∷ ss) = refl
before-append-from (each_step ∷ ss) = ap (◌∷◌ each_step) (before-append-from ss)
before-append-from (where_step n v ∷ ss) = ap (◌∷◌ (where_step n v)) (before-append-from ss)

length-from_member : (ss : List Step) → length (from_member ss) ≤ length ss
length-from_member [] = omega arith
length-from_member (member_step n ∷ ss) = omega arith
length-from_member (each_step ∷ ss) = let h = length-from_member ss in omega arith
length-from_member (where_step n v ∷ ss) = let h = length-from_member ss in omega arith

-- Nothing, or a member first.
abbrev StartsMember : List Step → Type 0
StartsMember [] = Unit {0}
StartsMember (member_step n ∷ ss) = Unit {0}
StartsMember (each_step ∷ ss) = ⊥
StartsMember (where_step n v ∷ ss) = ⊥

from_member-StartsMember : (ss : List Step) → StartsMember (from_member ss)
from_member-StartsMember [] = tt
from_member-StartsMember (member_step n ∷ ss) = tt
from_member-StartsMember (each_step ∷ ss) = from_member-StartsMember ss
from_member-StartsMember (where_step n v ∷ ss) = from_member-StartsMember ss

dot_ends_name : in_name b'.' ≡ false
unfolding in_name starts_name is_ascii_digit
dot_ends_name = refl

bracket_ends_name : in_name b'[' ≡ false
unfolding in_name starts_name is_ascii_digit
bracket_ends_name = refl

peek-NotEmpty : (s : Bytes) → NotEmpty s → (c : ℕ) × Reads peek s s (some c)
peek-NotEmpty [] h = absurd h
peek-NotEmpty (c ∷ cs) h = (c, peek-Reads c cs)

append-NotEmpty : (s t : Bytes) → NotEmpty s → NotEmpty (s ++ t)
append-NotEmpty [] t h = absurd h
append-NotEmpty (c ∷ cs) t h = tt

module _ (serde : Serde) where
  from_member-AllSteps : (ss : List Step) → AllSteps serde ss → AllSteps serde (from_member ss)
  from_member-AllSteps [] h = tt
  from_member-AllSteps (member_step n ∷ ss) h = h
  from_member-AllSteps (each_step ∷ ss) h = from_member-AllSteps ss h.1
  from_member-AllSteps (where_step n v ∷ ss) h = from_member-AllSteps ss h.1

  abbrev written : List Step → Bytes
  written ss = write_steps serde true ss

  -- A step ends the name before it.
  written-Stops : (ss : List Step) → Stops in_name (written ss)
  unfolding write_steps write_step
  written-Stops [] = tt
  written-Stops (member_step n ∷ ss) = dot_ends_name
  written-Stops (each_step ∷ ss) = bracket_ends_name
  written-Stops (where_step n v ∷ ss) = bracket_ends_name

  length-written : (ss : List Step) → length ss ≤ length (written ss)
  unfolding write_steps write_step
  length-written [] = omega arith
  length-written (member_step n ∷ ss) =
      let h = length-written ss in
      let sum = length-append (write_name serde n) (written ss) in omega arith
  length-written (each_step ∷ ss) = let h = length-written ss in omega arith
  length-written (where_step n v ∷ ss) =
      let h = length-written ss in
      let sum =
        length-append (b'?' ∷ write_name serde n ++ b'=' ∷ write_literal serde v ++ b']' ∷ [])
          (written ss) in
      omega arith

  filter_text :
      (n : Bytes) (v : Value) (t : Bytes)
      → write_step serde true (where_step n v) ++ t
        ≡ codes "[?" ++ (write_name serde n ++ (b'=' ∷ (write_literal serde v ++ b']' ∷ t)))
  unfolding write_step
  filter_text n v t = simp append_assoc

  module _ (laws : IsSerde serde) where
    suffixes-written :
        (rounds : ℕ) (ss : List Step)
        → length ss < rounds
        → AllSteps serde ss
        → Reads (suffixes serde rounds) (written ss) (written (from_member ss)) (before_member ss)
    unfolding suffixes write_steps write_step strip
    suffixes-written zero ss r h = absurd (omega arith)
    suffixes-written (suc rounds) [] r h =
        Reads-bind _ _ _ _ _ false _ (eat-Misses (codes "[]") _ refl) (
          Reads-bind _ _ _ _ _ false _ (eat-Misses (codes "[?") _ refl)
            (Reads-bind _ _ _ _ _ none _ peek-end (Reads-pure [] [])))
    suffixes-written (suc rounds) (member_step n ∷ ss) r h =
        Reads-bind _ _ _ _ _ false _ (eat-Misses (codes "[]") _ refl) (
          Reads-bind _ _ _ _ _ false _ (eat-Misses (codes "[?") _ refl)
            (Reads-bind _ _ _ _ _ (some b'.') _ (peek-Reads b'.' _) (Reads-pure [] _)))
    suffixes-written (suc rounds) (each_step ∷ ss) r h =
        Reads-bind _ _ _ _ _ true _ (eat-Reads (codes "[]") (written ss)) (
          Reads-bind _ _ _ _ _ (before_member ss) _ (suffixes-written rounds ss (omega arith) h.1)
            (Reads-pure _ _))
    suffixes-written (suc rounds) (where_step n v ∷ ss) r ((some_name, literal), h) =
        Reads-eq _ _ _ _ _ (filter_text n v (written ss)) (
          Reads-bind _ _ _ _ _ false _ (eat-Misses (codes "[]") _ refl) (
            Reads-bind _ _ _ _ _ true _ (eat-Reads (codes "[?") _) (
              Reads-bind _ _ _ _ _ (where_step n v) _
                (filter-written serde laws n v (written ss) some_name literal)
                (Reads-bind _ _ _ _ _ (before_member ss) _
                  (suffixes-written rounds ss (omega arith) h) (Reads-pure _ _)))))

    -- A name, the steps that follow it, and then other members.
    after_name :
        (rounds : ℕ) (n : Bytes) (ss : List Step) (rest : Parse (List Step))
        → length ss < rounds
        → AllSteps serde ss
        → Reads rest (written (from_member ss)) [] (from_member ss)
        → NotEmpty n
        → Reads
            (do
              member ← name serde
              more ← suffixes serde rounds
              others ← rest
              pure (member_step member ∷ more ++ others))
            (write_name serde n ++ written ss)
            []
            (member_step n ∷ ss)
    after_name rounds n ss rest r all others some_name =
        Reads-bind _ _ _ _ _ n _
          (name-write_name serde laws n (written ss) some_name (written-Stops ss))
          (Reads-bind _ _ _ _ _ (before_member ss) _ (suffixes-written rounds ss r all) (
            Reads-bind _ _ _ _ _ (from_member ss) _ others (
              subst (λ x. Reads (pure (member_step n ∷ before_member ss ++ from_member ss)) [] [] x)
                (ap (◌∷◌ (member_step n)) (before-append-from ss)) (Reads-pure _ []))))

    segments-written :
        (rounds turns : ℕ) (ss : List Step)
        → length ss < rounds
        → length ss < turns
        → AllSteps serde ss
        → StartsMember ss
        → Reads (segments serde rounds turns) (written ss) [] ss
    unfolding segments write_steps write_step
    segments-written rounds zero ss r b all starts = absurd (omega arith)
    segments-written rounds (suc turns) [] r b all starts =
        Reads-bind _ _ _ _ _ none _ peek-end (Reads-pure [] [])
    segments-written rounds (suc turns) (member_step n ∷ ss) r b (some_name, all) starts =
        let shorter = length-from_member ss in
        Reads-bind _ _ _ _ _ (some b'.') _ (peek-Reads b'.' _) (
          Reads-bind _ _ _ _ _ true _ (eat-Reads (codes ".") (write_name serde n ++ written ss)) (
            after_name rounds n ss (segments serde rounds turns) (omega arith) all
              (segments-written rounds turns (from_member ss) (omega arith) (omega arith)
                (from_member-AllSteps ss all) (from_member-StartsMember ss))
              some_name))
    segments-written rounds (suc turns) (each_step ∷ ss) r b all starts = absurd starts
    segments-written rounds (suc turns) (where_step n v ∷ ss) r b all starts = absurd starts

    write_name-NotEmpty : (n : Bytes) → NotEmpty n → NotEmpty (write_name serde n)
    unfolding write_name
    write_name-NotEmpty n h = elim (Bool-cases (is_identifier n)) [
      | inl y ↦ rw y h
      | inr m ↦ rw m (subst NotEmpty (sym (laws.string_text n).1.0) tt)
    ]

    -- What `Display` prints of a path whose names are not empty and whose literals are no arrays
    -- or objects, `RefPath::parse` reads as that path.
    pub parse-display :
        (steps : List Step) → IsPath serde steps → parse serde (display serde steps) ≡ ok steps
    unfolding parse path write_steps write_step
    parse-display [] h = absurd h
    parse-display (member_step n ∷ ss) (some_name, all) =
        let text : Bytes = write_name serde n ++ written ss in
        let rounds : ℕ = suc (length text) in
        let sum : length text ≡ length (write_name serde n) + length (written ss) =
          length-append (write_name serde n) (written ss) in
        let steps = length-written ss in
        let shorter = length-from_member ss in
        let (c, first) =
          peek-NotEmpty text
            (append-NotEmpty (write_name serde n) (written ss) (write_name-NotEmpty n some_name)) in
        let whole : Reads (path serde rounds) text [] (member_step n ∷ ss) =
          Reads-bind _ _ _ _ _ (some c) _ first (
            after_name rounds n ss (segments serde rounds rounds) (omega arith) all
              (segments-written rounds rounds (from_member ss) (omega arith) (omega arith)
                (from_member-AllSteps ss all) (from_member-StartsMember ss))
              some_name) in
        ap (λ r. r.0) (whole.at 0)
    parse-display (each_step ∷ ss) h = absurd h
    parse-display (where_step n v ∷ ss) h = absurd h
