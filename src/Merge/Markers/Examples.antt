-- ===== src/Merge/Markers/Examples.antt =====
-- A block with markers of git's usual size, and one with shorter markers, which is not found.
use reldir.Base.{◌≡◌, refl, arith, true, false, [], ◌∷◌, ◌++◌}
use reldir.Store.Text.{split, is_empty_text}
use reldir.Merge.Markers.{Labels, section_of, block, begins, expected, scan, has_conflict_markers}
use reldir.Merge.Markers.Found.{has_conflict_markers-block}

abbrev seven : Labels
seven = record { base = b'b' ∷ []; ours = b'o' ∷ []; theirs = b't' ∷ []; marker_size = 7 }

abbrev five : Labels
five = record { base = b'b' ∷ []; ours = b'o' ∷ []; theirs = b't' ∷ []; marker_size = 5 }

has_conflict_markers-block_example :
    has_conflict_markers ((b'{' ∷ []) ++ (block (b'1' ∷ []) [] (b'2' ∷ []) seven ++ b'}' ∷ []))
    ≡ true
has_conflict_markers-block_example =
    has_conflict_markers-block (b'1' ∷ []) [] (b'2' ∷ []) seven (b'{' ∷ []) (b'}' ∷ [])
      (omega arith)

not_found : has_conflict_markers (block (b'1' ∷ []) [] (b'2' ∷ []) five) ≡ false
unfolding has_conflict_markers block section_of is_empty_text split scan begins expected
not_found = refl
