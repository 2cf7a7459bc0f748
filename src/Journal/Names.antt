-- ===== src/Journal/Names.antt =====
-- The names in a transaction directory: staged files are numbered, so none is the journal's
-- (engine/journal.rs).
use reldir.Base.{
  ℕ, zero, suc, ◌+◌, ◌/◌, ◌%◌, ◌≤◌, ◌≡◌, ◌≢◌, [], ◌∷◌, ◌++◌, All, ltb, arith, Bool-cases, inl, inr,
  subst,
}
use reldir.Store.Corruption.{Bytes}
use reldir.Overlay.{FilePath}
use reldir.RefPath.{decimal, decimal_digits}
use reldir.Journal.Apply.{staged_name}
use reldir.Journal.Commit.{journal_name}

abbrev pub Digit : ℕ → Type 0
Digit b = (b'0' ≤ b) × (b ≤ b'9')

decimal_digits-Digit :
    (rounds n : ℕ) (digits : Bytes) → All Digit digits → All Digit (decimal_digits rounds n digits)
unfolding decimal_digits
decimal_digits-Digit zero n digits h = h
decimal_digits-Digit (suc rounds) n digits h =
    let here : All Digit ((n % 10 + b'0') ∷ digits) = ((omega arith, omega arith), h) in
    let more = decimal_digits-Digit rounds (n / 10) _ here in
    elim (Bool-cases (ltb n 10)) [ inl y ↦ rw y here | inr m ↦ rw m more ]

pub staged_name-Digit : (n : ℕ) → All Digit (staged_name n)
unfolding staged_name decimal
staged_name-Digit n = decimal_digits-Digit (suc n) n [] tt

pub staged_name-ne-journal : (n : ℕ) → staged_name n ≢ journal_name
staged_name-ne-journal n e =
    let digits : All Digit journal_name = subst (λ b. All Digit b) e (staged_name-Digit n) in
    absurd (omega (arith, digits.0))

-- A path below a directory is not the directory, and names tell entries apart.
pub below-ne : (dir : FilePath) (x : Bytes) (xs : FilePath) → dir ++ x ∷ xs ≢ dir
below-ne [] x xs e = cc
below-ne (c ∷ cs) x xs e = below-ne cs x xs (cc)

pub child-injective : (dir : FilePath) (a b : Bytes) → dir ++ a ∷ [] ≡ dir ++ b ∷ [] → a ≡ b
child-injective [] a b e = cc
child-injective (c ∷ cs) a b e = child-injective cs a b (cc)
