-- ===== src/Merge/Markers/Lines.antt =====
-- The pieces of a text at its line breaks, and `scan` over them (merge.rs).
use reldir.Base.{
  ℕ, zero, suc, ◌≡◌, ◌≤◌, refl, ap, ◌∙◌, arith, inl, inr, true, false, ◌==◌, List, [], ◌∷◌, ◌++◌,
  replicate, Bool-cases,
}
use reldir.Store.Corruption.{Bytes}
use reldir.Store.Text
use reldir.Store.Text.{push_head}
use reldir.Merge.Markers.{begins, scan}

-- The stage never falls, and never passes 3.
pub scan-grows : (s : ℕ) (ls : List Bytes) → s ≤ scan s ls
unfolding scan
scan-grows s [] = omega arith
scan-grows s (l ∷ ls) = ground (arith, scan-grows (suc s) ls, scan-grows s ls)

pub scan-ends : (s : ℕ) (ls : List Bytes) → s ≤ 3 → scan s ls ≤ 3
unfolding scan
scan-ends s [] h = h
scan-ends s (l ∷ ls) h = ground (arith, scan-ends (suc s) ls, scan-ends s ls)

scan-append : (s : ℕ) (ls ms : List Bytes) → scan s (ls ++ ms) ≡ scan (scan s ls) ms
unfolding scan
scan-append s [] ms = refl
scan-append s (l ∷ ls) ms = ground (arith, scan-append (suc s) ls ms, scan-append s ls ms)

-- There is a first piece.
split-head : (sep : ℕ) (t : Bytes) → (h : Bytes) × ((ps : List Bytes) × (Text.split sep t ≡ h ∷ ps))
unfolding Text.split push_head
split-head sep [] = ([], ([], refl))
split-head sep (b ∷ bs) = elim (Bool-cases (b == sep)) [
  | inl y ↦ ([], (Text.split sep bs, rw y refl))
  | inr n ↦ let (h, (ps, e)) = split-head sep bs in (b ∷ h, (ps, rw (n, e) refl))
]

push_head-append :
    (b : ℕ) (p : Bytes) (ps qs : List Bytes)
    → push_head b ((p ∷ ps) ++ qs) ≡ push_head b (p ∷ ps) ++ qs
unfolding push_head
push_head-append b p ps qs = refl

split-append :
    (sep : ℕ) (a b : Bytes) → Text.split sep (a ++ sep ∷ b) ≡ Text.split sep a ++ Text.split sep b
unfolding Text.split
split-append sep [] b = ground arith
split-append sep (x ∷ xs) b = elim (Bool-cases (x == sep)) [
  | inl y ↦ rw y (ap (λ ps. [] ∷ ps) (split-append sep xs b))
  | inr n ↦
      let (h, (ps, e)) = split-head sep xs in
      rw (n, split-append sep xs b, e) (push_head-append x h ps (Text.split sep b))
]

-- The stage after a text.
abbrev pub stage_after : ℕ → Bytes → ℕ
stage_after s text = scan s (Text.split 0xa text)

pub after-line :
    (s : ℕ) (a b : Bytes) → stage_after s (a ++ 0xa ∷ b) ≡ stage_after (stage_after s a) b
after-line s a b =
    ap (scan s) (split-append 0xa a b) ∙ scan-append s (Text.split 0xa a) (Text.split 0xa b)

-- A run of a character begins the first piece.
pub split-run :
    (n c : ℕ) (t : Bytes)
    → c == 0xa ≡ false
    → (h : Bytes) × ((ps : List Bytes) × (Text.split 0xa (replicate n c ++ t)
          ≡ (replicate n c ++ h) ∷ ps))
unfolding Text.split push_head
split-run zero c t e = split-head 0xa t
split-run (suc n) c t e = let (h, (ps, f)) = split-run n c t e in (h, (ps, rw (e, f) refl))

pub begins-replicate :
    (k n c : ℕ) (h : Bytes) → k ≤ n → begins (replicate k c) (replicate n c ++ h) ≡ true
unfolding begins
begins-replicate zero n c h i = refl
begins-replicate (suc k) zero c h i = absurd (omega (arith, i))
begins-replicate (suc k) (suc n) c h i = ground (arith, begins-replicate k n c h)
