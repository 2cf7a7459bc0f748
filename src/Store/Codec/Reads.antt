-- ===== src/Store/Codec/Reads.antt =====
-- How the cursor's methods act on the bytes that are left.
use reldir.Base.{
  get_or, [], ◌∷◌, subst, ℕ, ◌-◌, ◌≡◌, ◌≢◌, refl, sym, ap, ◌∙◌, ◌++◌, arith, length, take, drop,
  length-drop, length-take, length-append, take-append-drop, drop-drop, drop-append, take-append,
  Bool-cases, ltb, inl, inr, false,
}
use reldir.Store.Corruption.{Bytes, Decoded, ok, err, out_of_fuel}
use reldir.Store.Codec.{Cursor, Reader, ◌>>=◌, remaining, advance, take_bytes, u8, pure}

abbrev pub rest : Cursor → Bytes
rest c = drop c.at c.bytes

-- `m` succeeds at `c` with `a`, and leaves `ys`.
abbrev after : {A B : Type 0} → (A → Reader B) → Decoded (A × Cursor) → Decoded (B × Cursor)
after f r = elim r [ ok (a, c') ↦ f a c' | err e ↦ err e | out_of_fuel ↦ out_of_fuel ]

pub record Reads {A : Type 0} (m : Reader A) (c : Cursor) (a : A) (ys : Bytes) : Type 0 where
  pub next : Cursor
  pub runs : m c ≡ ok (a, next)
  pub left : rest next ≡ ys

module _ {A B : Type 0} (m : Reader A) (f : A → Reader B) (c : Cursor) where
  pub Reads-bind :
      {a : A} {b : B} {ys zs : Bytes}
      → Reads m c a ys
      → ((c' : Cursor) → rest c' ≡ ys → Reads (f a) c' b zs)
      → Reads (m >>= f) c b zs
  Reads-bind r k =
      let k' = k r.next r.left in
      record { next = k'.next; runs = rw (r.runs, ◌>>=◌) k'.runs; left = k'.left }

  pub bind_ok :
      (b : B) (c'' : Cursor)
      → (m >>= f) c ≡ ok (b, c'')
      → (a : A) × (c' : Cursor) × (m c ≡ ok (a, c')) × (f a c' ≡ ok (b, c''))
  bind_ok b c'' h = go (m c) refl h
    where
      go :
          (r : Decoded (A × Cursor))
          → m c ≡ r
          → after f r ≡ ok (b, c'')
          → (a : A) × (c' : Cursor) × (m c ≡ ok (a, c')) × (f a c' ≡ ok (b, c''))
      go (ok (a, c')) e h = (a, c', e, h)
      go (err e) p h = cc
      go out_of_fuel p h = cc

module _ {A B : Type 0} (m : Reader A) (f : A → Reader B) (c : Cursor) where
  pub bind-ne-out_of_fuel :
      m c ≢ out_of_fuel
      → ((a : A) (c' : Cursor) → m c ≡ ok (a, c') → f a c' ≢ out_of_fuel)
      → (m >>= f) c ≢ out_of_fuel
  bind-ne-out_of_fuel hm hf = go (m c) refl
    where
      go : (r : Decoded (A × Cursor)) → m c ≡ r → after f r ≢ out_of_fuel
      go (ok (a, c')) e = hf a c' e
      go (err e) p = λ q. cc
      go out_of_fuel p = absurd (hm p)

-- The two ways out of a `do` block that succeeded: a first step, and `pure`.
pub bind_elim :
    {A B P : Type 0} (m : Reader A) (f : A → Reader B) (c : Cursor) (b : B) (c'' : Cursor)
    → (m >>= f) c ≡ ok (b, c'')
    → ((a : A) (c' : Cursor) → m c ≡ ok (a, c') → f a c' ≡ ok (b, c'') → P)
    → P
bind_elim m f c b c'' h k = let (a, c', took, more) = bind_ok m f c b c'' h in k a c' took more

pub pure_elim :
    {A : Type 0} (P : A → Cursor → Type 0) (a b : A) (c c' : Cursor)
    → ◌≡◌ {A = Decoded (A × Cursor)} (ok (a, c)) (ok (b, c'))
    → P a c
    → P b c'
pure_elim P a b c c' h p =
    let same : a ≡ b = cc h in
    let at_end : c ≡ c' = cc h in subst (P b) at_end (subst (λ x. P x c) same p)

pub remaining-eq-length : (c : Cursor) → remaining c ≡ length (rest c)
unfolding remaining
remaining-eq-length c = sym (length-drop c.at c.bytes)

pub take_bytes-Reads :
    (c : Cursor) (xs ys : Bytes) → rest c ≡ xs ++ ys → Reads (take_bytes (length xs)) c xs ys
unfolding take_bytes remaining
take_bytes-Reads c xs ys e =
    let enough : ltb (length c.bytes - c.at) (length xs) ≡ false =
      ground (arith, length-drop c.at c.bytes, ap length e, length-append xs ys) in
    record {
      next = advance c (length xs);
      runs = rw (enough, e, take-append xs ys);
      left = sym (drop-drop c.at (length xs) c.bytes) ∙ ap (drop (length xs)) e ∙ drop-append xs ys;
    }

pub take_bytes_ok :
    (n : ℕ) (c : Cursor) (xs : Bytes) (c' : Cursor)
    → take_bytes n c ≡ ok (xs, c')
    → (rest c ≡ xs ++ rest c') × (length xs ≡ n)
unfolding take_bytes remaining
take_bytes_ok n c xs c' h = elim (Bool-cases (ltb (length c.bytes - c.at) n)) [
  | inl short ↦ cc (rw short at h)
  | inr enough ↦
      let taken : ok (take n (rest c), advance c n) ≡ ok (xs, c') = rw enough at h in
      let xs_eq : take n (rest c) ≡ xs = cc taken in
      let c'_eq : advance c n ≡ c' = cc taken in
      (
        rw (← xs_eq, ← c'_eq)
            (sym (take-append-drop n (rest c))
              ∙ ap (λ t. take n (rest c) ++ t) (drop-drop c.at n c.bytes)),
        rw (← xs_eq) (ground (arith, length-take n (rest c), length-drop c.at c.bytes)),
      )
]

pub u8-Reads : (c : Cursor) (b : ℕ) (ys : Bytes) → rest c ≡ b ∷ ys → Reads u8 c b ys
unfolding u8
u8-Reads c b ys e =
    Reads-bind (take_bytes 1) _ c (take_bytes-Reads c (b ∷ []) ys e)
      λ c' l. record { next = c'; runs = refl; left = l }

one_byte : (xs : Bytes) (b : ℕ) → length xs ≡ 1 → get_or xs 0 0 ≡ b → xs ≡ b ∷ []
one_byte [] b h e = absurd (omega arith)
one_byte (x ∷ []) b h e = ap (λ (y : ℕ). y ∷ []) e
one_byte (x ∷ y ∷ xs) b h e = absurd (omega arith)

pub u8_ok : (c : Cursor) (b : ℕ) (c' : Cursor) → u8 c ≡ ok (b, c') → rest c ≡ b ∷ rest c'
unfolding u8
u8_ok c b c' h =
    let (xs, c₁, taken, same) = bind_ok (take_bytes 1) (λ xs. pure (get_or xs 0 0)) c b c' h in
    let (split, one) = take_bytes_ok 1 c xs c₁ taken in
    let at_end : c₁ ≡ c' = cc same in
    let first : get_or xs 0 0 ≡ b = cc same in split ∙ rw (← at_end, one_byte xs b one first)
