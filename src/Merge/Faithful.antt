-- ===== src/Merge/Faithful.antt =====
-- What a merge is held to: its conflicts lie where the three sides differ, and it holds a value
-- where both sides do.
use mathlib.Core.List.{append_assoc, append-nil}
use reldir.Base.{
  ◌≡◌, refl, sym, ◌∙◌, Bool, true, false, List, [], ◌∷◌, ◌++◌, Option, none, some, All, All-append,
}
use reldir.Store.Corruption.{Bytes}
use reldir.Json.{Value, get_member, option_eq}
use reldir.Pointer.{escape_pointer, extend}
use reldir.Pointer.Tokens.{pointer_of}
use reldir.Merge.{Conflict, members_of}
use reldir.Merge.Loop.{gathered}

-- The member at the end of these names.
unfoldable pub at : List Bytes → Option Value → Option Value
at [] v = v
at (k ∷ ks) v = at ks (get_member k (members_of v))

-- A conflict of a merge at `pointer` of these three sides into `merged`: its pointer leads to the
-- three values it holds, which all differ, and `merged` holds ours there.
pub record IsConflict (pointer : Bytes) (base ours theirs merged : Option Value)
    (conflict : Conflict) : Type 0 where
  pub names : List Bytes
  pub pointer-names : conflict.pointer ≡ pointer ++ pointer_of names
  pub at-base : at names base ≡ conflict.base
  pub at-ours : at names ours ≡ conflict.ours
  pub at-theirs : at names theirs ≡ conflict.theirs
  pub at-merged : at names merged ≡ conflict.ours
  pub ours_or_theirs : option_eq conflict.ours conflict.theirs ≡ false
  pub base_or_ours : option_eq conflict.base conflict.ours ≡ false
  pub base_or_theirs : option_eq conflict.base conflict.theirs ≡ false

unfoldable pub is_present : Option Value → Bool
is_present none = false
is_present (some v) = true

pub record IsFaithful (pointer : Bytes) (base ours theirs merged : Option Value)
    (found : List Conflict) : Type 0 where
  pub conflicts : All (IsConflict pointer base ours theirs merged) found
  pub present : is_present ours ≡ true → is_present theirs ≡ true → is_present merged ≡ true

-- A conflict of a member is one of the object.
pub member-IsConflict :
    (pointer name : Bytes) (b o t m : Option Value) (conflict : Conflict)
    → IsConflict
        (extend pointer name)
        (get_member name (members_of b))
        (get_member name (members_of o))
        (get_member name (members_of t))
        (get_member name (members_of m))
        conflict
    → IsConflict pointer b o t m conflict
unfolding at extend pointer_of
member-IsConflict p name b o t m conflict c = record {
  names = name ∷ c.names;
  pointer-names =
      c.pointer-names ∙ append_assoc p (b'/' ∷ escape_pointer name) (pointer_of c.names);
  at-base = c.at-base;
  at-ours = c.at-ours;
  at-theirs = c.at-theirs;
  at-merged = c.at-merged;
  ours_or_theirs = c.ours_or_theirs;
  base_or_ours = c.base_or_ours;
  base_or_theirs = c.base_or_theirs;
}

-- Three values that differ are a conflict of their merge into ours.
pub sides-IsConflict :
    (pointer : Bytes) (b o t : Option Value)
    → option_eq o t ≡ false
    → option_eq b o ≡ false
    → option_eq b t ≡ false
    → IsConflict pointer b o t o (record { pointer = pointer; base = b; ours = o; theirs = t })
unfolding at pointer_of
sides-IsConflict p b o t e f g = record {
  names = [];
  pointer-names = sym (append-nil p);
  at-base = refl;
  at-ours = refl;
  at-theirs = refl;
  at-merged = refl;
  ours_or_theirs = e;
  base_or_ours = f;
  base_or_theirs = g;
}

pub gathered-All :
    (P : Conflict → Type 0) (found_at : Bytes → List Conflict) (ks : List Bytes)
    → ((k : Bytes) → All P (found_at k))
    → All P (gathered found_at ks)
unfolding gathered
gathered-All P found_at [] h = tt
gathered-All P found_at (k ∷ ks) h =
    All-append P (found_at k) (gathered found_at ks) (h k) (gathered-All P found_at ks h)

pub All-each :
    (P Q : Conflict → Type 0) (cs : List Conflict)
    → ((c : Conflict) → P c → Q c)
    → All P cs
    → All Q cs
All-each P Q [] h a = tt
All-each P Q (c ∷ cs) h (a, rest) = (h c a, All-each P Q cs h rest)
