-- ===== src/RefPath/Occurrences.antt =====
-- `RefPath::occurrences` from outside.
use reldir.Base.{◌≡◌, sym, subst, ◌↔◌, refl, List, [], ◌∷◌, none, some, false}
use reldir.Store.Corruption.{Bytes}
use reldir.Json.{Members, object}
use reldir.RefPath.{Step, member_step, Occurrence, occurrences, walk, walk_step, is_null, member_of}
use reldir.RefPath.Selects.{Selects, Token, resolve, written, Selects-resolve}
use reldir.RefPath.Walk.{IsIn, walk_iff_Selects}

-- It is the walk from the row's root.
occurrences-walk :
    (column : Bytes) (rest : List Step) (row : Members)
    → occurrences (member_step column ∷ rest) row
      ≡ walk (member_step column ∷ rest) (object row) [] none
unfolding occurrences walk walk_step is_null member_of
occurrences-walk column rest row = refl

-- The occurrences of a path that begins with a member are exactly what the path selects in the row
-- from its root.
pub occurrences-Selects :
    (column : Bytes) (rest : List Step) (row : Members) (o : Occurrence)
    → IsIn o (occurrences (member_step column ∷ rest) row)
      ↔ Selects (member_step column ∷ rest) (object row) [] none o
occurrences-Selects column rest row o =
    let (found, back) = walk_iff_Selects (member_step column ∷ rest) (object row) [] none o in
    (
      λ h. found (subst (IsIn o) (occurrences-walk column rest row) h),
      λ s. subst (IsIn o) (sym (occurrences-walk column rest row)) (back s),
    )

-- Each occurrence of a path is where its pointer says, and is not null.
pub occurrences-resolve :
    (column : Bytes) (rest : List Step) (row : Members) (o : Occurrence)
    → IsIn o (occurrences (member_step column ∷ rest) row)
    → (ts : List Token) × ((o.pointer ≡ written ts)
        × ((resolve ts (object row) ≡ some o.value) × (is_null o.value ≡ false)))
occurrences-resolve column rest row o h =
    Selects-resolve (member_step column ∷ rest) (object row) [] none o
      ((occurrences-Selects column rest row o).0 h)
