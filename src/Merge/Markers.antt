-- ===== src/Merge/Markers.antt =====
-- git's conflict markers (merge.rs): a block around a conflict, and the test that a file holds one.
pub mod Found
pub mod Lines
mod Examples
use reldir.Base.{
  ℕ, zero, suc, Bool, true, false, ◌&&◌, ◌==◌, ltb, List, [], ◌∷◌, ◌++◌, replicate, if◌then◌else◌,
}
use reldir.Store.Corruption.{Bytes}
use reldir.Store.Text

pub record Labels : Type 0 where
  pub base : Bytes
  pub ours : Bytes
  pub theirs : Bytes
  pub marker_size : ℕ

-- A side's text on lines of its own.
unfoldable pub section_of : Bytes → Bytes
section_of text = if Text.is_empty_text text then [] else text ++ 0xa ∷ []

unfoldable pub block : Bytes → Bytes → Bytes → Labels → Bytes
block ours base theirs labels =
    0xa
    ∷ (replicate labels.marker_size b'<'
        ++ b' '
          ∷ (labels.ours
              ++ 0xa
                ∷ (section_of ours
                    ++ (replicate labels.marker_size b'|'
                        ++ b' '
                          ∷ (labels.base
                              ++ 0xa
                                ∷ (section_of base
                                    ++ (replicate labels.marker_size b'='
                                        ++ 0xa
                                          ∷ (section_of theirs
                                              ++ (replicate labels.marker_size b'>'
                                                  ++ b' ' ∷ (labels.theirs ++ 0xa ∷ []))))))))))

-- `str::starts_with`
unfoldable pub begins : Bytes → Bytes → Bool
begins [] line = true
begins (x ∷ xs) [] = false
begins (x ∷ xs) (y ∷ ys) = x == y && begins xs ys

-- `expected[stage]`
unfoldable pub expected : ℕ → Bytes
expected zero = replicate 7 b'<'
expected (suc zero) = replicate 7 b'='
expected (suc (suc stage)) = replicate 7 b'>'

unfoldable pub scan : ℕ → List Bytes → ℕ
scan stage [] = stage
scan stage (line ∷ lines) =
    let next = scan (suc stage) lines in
    let same = scan stage lines in
    if ltb stage 3 && begins (expected stage) line then next else same

-- `from_utf8_lossy` leaves ASCII characters as they are, and no line begins otherwise for a last one
-- that is empty, which `lines` leaves out.
unfoldable pub has_conflict_markers : Bytes → Bool
has_conflict_markers text = scan 0 (Text.split 0xa text) == 3
