-- ===== src/Merge/Markers/Found.antt =====
-- `has_conflict_markers` on a file that holds a `block` (merge.rs).
use reldir.Base.{
  ℕ, zero, suc, ◌≡◌, ◌≤◌, ◌<◌, refl, sym, subst, ap, ◌∙◌, arith, inl, inr, true, false, ◌==◌, ltb,
  [], ◌∷◌, ◌++◌, replicate, Bool-cases,
}
use mathlib.Core.List.{append_assoc, append-nil}
use reldir.Store.Corruption.{Bytes}
use reldir.Store.Text
use reldir.Store.Text.{push_head}
use reldir.Merge.Markers.{Labels, section_of, block, begins, expected, scan, has_conflict_markers}
use reldir.Merge.Markers.Lines.{
  scan-grows, scan-ends, stage_after, after-line, split-run, begins-replicate,
}

marker : ℕ → ℕ
marker zero = b'<'
marker (suc zero) = b'='
marker (suc (suc s)) = b'>'

expected-marker : (s : ℕ) → expected s ≡ replicate 7 (marker s)
unfolding expected marker
expected-marker zero = refl
expected-marker (suc zero) = refl
expected-marker (suc (suc s)) = refl

marker-inline : (s : ℕ) → marker s == 0xa ≡ false
unfolding marker
marker-inline zero = refl
marker-inline (suc zero) = refl
marker-inline (suc (suc s)) = refl

-- A run of a stage's marker takes that stage.
takes_stage :
    (s from n : ℕ) (t : Bytes)
    → s < 3
    → s ≤ from
    → 7 ≤ n
    → suc s ≤ stage_after from (replicate n (marker s) ++ t)
unfolding scan
takes_stage s from n t h i k = elim (Bool-cases (ltb s from)) [
  | inl y ↦
      let grown = scan-grows from (Text.split 0xa (replicate n (marker s) ++ t)) in
      ground (arith, y, grown)
  | inr m ↦
      let same : from ≡ s = ground (arith, m, i) in
      let (line, (lines, e)) = split-run n (marker s) t (marker-inline s) in
      let hit : begins (expected s) (replicate n (marker s) ++ line) ≡ true =
        rw (expected-marker s) (begins-replicate 7 n (marker s) line k) in
      let open_stage : ltb s 3 ≡ true = ground (arith, h) in
      rw (same, e, scan, open_stage, hit) (scan-grows (suc s) lines)
]

-- A line of a run and a label, and what follows it.
label-line :
    (s : ℕ) (run label rest : Bytes)
    → stage_after s (run ++ b' ' ∷ (label ++ 0xa ∷ rest))
      ≡ stage_after (stage_after s (run ++ b' ' ∷ label)) rest
label-line s run label rest =
    ap (stage_after s) (sym (append_assoc run (b' ' ∷ label) (0xa ∷ rest)))
    ∙ after-line s (run ++ b' ' ∷ label) rest

-- The text of a side leaves what follows on a line of its own.
section-line :
    (s : ℕ) (text rest : Bytes)
    → s ≤ 3
    → (s' : ℕ) × ((s ≤ s')
        × ((s' ≤ 3) × (stage_after s (section_of text ++ rest) ≡ stage_after s' rest)))
unfolding section_of
section-line s text rest h = elim (Bool-cases (Text.is_empty_text text)) [
  | inl y ↦ (s, (omega arith, (h, rw (section_of, y) refl)))
  | inr n ↦ (
    stage_after s text,
    (
      scan-grows s (Text.split 0xa text),
      (
        scan-ends s (Text.split 0xa text) h,
        rw (section_of, n)
            (ap (stage_after s) (append_assoc text (0xa ∷ []) rest) ∙ after-line s text rest),
      ),
    ),
  )
]

-- A block, and the text that follows it.
abbrev block_then : Bytes → Bytes → Bytes → Labels → Bytes → Bytes
block_then ours base theirs labels rest =
    0xa
    ∷ (replicate labels.marker_size b'<'
        ++ b' '
          ∷ (labels.ours
              ++ 0xa
                ∷ (section_of ours
                    ++ (replicate labels.marker_size b'|'
                        ++ b' '
                          ∷ (labels.base
                              ++ 0xa
                                ∷ (section_of base
                                    ++ (replicate labels.marker_size b'='
                                        ++ 0xa
                                          ∷ (section_of theirs
                                              ++ (replicate labels.marker_size b'>'
                                                  ++ b' ' ∷ (labels.theirs ++ 0xa ∷ rest))))))))))

block-then :
    (ours base theirs : Bytes) (labels : Labels) (rest : Bytes)
    → block ours base theirs labels ++ rest ≡ block_then ours base theirs labels rest
unfolding block
block-then ours base theirs labels rest = simp append_assoc

block_then-takes :
    (ours base theirs : Bytes) (labels : Labels) (before rest : Bytes)
    → 7 ≤ labels.marker_size
    → stage_after 0 (before ++ block_then ours base theirs labels rest) ≡ 3
unfolding marker
block_then-takes ours base theirs labels before rest h =
    let n = labels.marker_size in
    let s0 = stage_after 0 before in
    let u0 : s0 ≤ 3 = scan-ends 0 (Text.split 0xa before) (omega arith) in
    let first = replicate n b'<' ++ b' ' ∷ labels.ours in
    let s1 = stage_after s0 first in
    let l1 : 1 ≤ s1 = takes_stage 0 s0 n (b' ' ∷ labels.ours) (omega arith) (omega arith) h in
    let u1 : s1 ≤ 3 = scan-ends s0 (Text.split 0xa first) u0 in
    let r4 = replicate n b'>' ++ b' ' ∷ (labels.theirs ++ 0xa ∷ rest) in
    let r3 = replicate n b'=' ++ 0xa ∷ (section_of theirs ++ r4) in
    let r2 = replicate n b'|' ++ b' ' ∷ (labels.base ++ 0xa ∷ (section_of base ++ r3)) in
    let (s2, (g2, (u2, e2))) = section-line s1 ours r2 u1 in
    let second = replicate n b'|' ++ b' ' ∷ labels.base in
    let s3 = stage_after s2 second in
    let g3 : s2 ≤ s3 = scan-grows s2 (Text.split 0xa second) in
    let u3 : s3 ≤ 3 = scan-ends s2 (Text.split 0xa second) u2 in
    let (s4, (g4, (u4, e4))) = section-line s3 base r3 u3 in
    let third = replicate n b'=' in
    let s5 = stage_after s4 third in
    let l5 : 2 ≤ s5 =
      subst (λ t. 2 ≤ stage_after s4 t) (append-nil third)
        (takes_stage 1 s4 n [] (omega arith) (omega (arith, l1, g2, g3, g4)) h) in
    let u5 : s5 ≤ 3 = scan-ends s4 (Text.split 0xa third) u4 in
    let (s6, (g6, (u6, e6))) = section-line s5 theirs r4 u5 in
    let last = replicate n b'>' ++ b' ' ∷ labels.theirs in
    let s7 = stage_after s6 last in
    let l7 : 3 ≤ s7 =
      takes_stage 2 s6 n (b' ' ∷ labels.theirs) (omega arith) (omega (arith, l5, g6)) h in
    let u7 : s7 ≤ 3 = scan-ends s6 (Text.split 0xa last) u6 in
    let g8 : s7 ≤ stage_after s7 rest = scan-grows s7 (Text.split 0xa rest) in
    let u8 : stage_after s7 rest ≤ 3 = scan-ends s7 (Text.split 0xa rest) u7 in
    after-line 0 before (replicate n b'<' ++ b' ' ∷ (labels.ours ++ 0xa ∷ (section_of ours ++ r2)))
    ∙ label-line s0 (replicate n b'<') labels.ours (section_of ours ++ r2)
    ∙ e2
    ∙ label-line s2 (replicate n b'|') labels.base (section_of base ++ r3)
    ∙ e4
    ∙ after-line s4 third (section_of theirs ++ r4)
    ∙ e6
    ∙ label-line s6 (replicate n b'>') labels.theirs rest
    ∙ omega (arith, l7, g8, u8)

-- A text that holds a block with markers of seven characters or more is found to hold conflict
-- markers, whatever the sides and the labels are and wherever the block stands.
pub has_conflict_markers-block :
    (ours base theirs : Bytes) (labels : Labels) (before rest : Bytes)
    → 7 ≤ labels.marker_size
    → has_conflict_markers (before ++ (block ours base theirs labels ++ rest)) ≡ true
unfolding has_conflict_markers
has_conflict_markers-block ours base theirs labels before rest h =
    rw
      (
        has_conflict_markers,
        block-then ours base theirs labels rest,
        block_then-takes ours base theirs labels before rest h,
      )
      refl
