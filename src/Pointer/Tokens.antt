-- ===== src/Pointer/Tokens.antt =====
-- `pointer_tokens` and `split` on the pointers that the walks build with `extend`.
use reldir.Base.{ℕ, ◌≡◌, refl, sym, ap, ◌∙◌, arith, false, List, [], ◌∷◌, ◌++◌, map, none, some}
use mathlib.Core.List.{append_assoc, append-nil}
use reldir.Store.Corruption.{Bytes}
use reldir.Store.Text
use reldir.Store.Text.{contains, push_head}
use reldir.Pointer.{
  escape_pointer, unescape, trim_start, pointer_tokens, rsplit_once, split, extend,
}
use reldir.Pointer.Escape.{escape_chars, escape_pointer-chars, unescape-escape, contains-escape}

-- The pointer that holds these tokens (RFC 6901).
unfoldable pub pointer_of : List Bytes → Bytes
pointer_of [] = []
pointer_of (t ∷ ts) = (b'/' ∷ escape_pointer t) ++ pointer_of ts

pub extend-pointer_of :
    (ts : List Bytes) (t : Bytes) → extend (pointer_of ts) t ≡ pointer_of (ts ++ t ∷ [])
unfolding pointer_of extend
extend-pointer_of [] t = ap (◌∷◌ b'/') (sym (append-nil (escape_pointer t)))
extend-pointer_of (u ∷ us) t = ap (◌∷◌ b'/') (
    append_assoc (escape_pointer u) (pointer_of us) (b'/' ∷ escape_pointer t)
    ∙ ap (λ r. escape_pointer u ++ r) (extend-pointer_of us t))

-- A text without the separator is one piece.
split-one : (sep : ℕ) (t : Bytes) → contains sep t ≡ false → Text.split sep t ≡ t ∷ []
unfolding Text.split contains push_head
split-one sep [] e = refl
split-one sep (b ∷ bs) e = ground (arith, split-one sep bs)

split-then :
    (sep : ℕ) (t rest : Bytes)
    → contains sep t ≡ false
    → Text.split sep (t ++ sep ∷ rest) ≡ t ∷ Text.split sep rest
unfolding Text.split contains push_head
split-then sep [] rest e = ground arith
split-then sep (b ∷ bs) rest e = ground (arith, split-then sep bs rest)

tokens_back :
    (t : Bytes) (ts : List Bytes)
    → map unescape (Text.split b'/' (escape_pointer t ++ pointer_of ts)) ≡ t ∷ ts
unfolding pointer_of
tokens_back t [] =
    rw
      (
        append-nil (escape_pointer t),
        split-one b'/' (escape_pointer t) (contains-escape t),
        map,
        map,
      )
      (ap (λ x. x ∷ []) (unescape-escape t))
tokens_back t (u ∷ us) =
    rw (split-then b'/' (escape_pointer t) (escape_pointer u ++ pointer_of us) (contains-escape t))
      (ap (λ x. x ∷ map unescape (Text.split b'/' (escape_pointer u ++ pointer_of us)))
          (unescape-escape t)
        ∙ ap (◌∷◌ t) (tokens_back u us))

-- The name that begins a pointer keeps its place unless it is empty.
trim_start-escape :
    (c : ℕ) (cs rest : Bytes)
    → trim_start b'/' (escape_pointer (c ∷ cs) ++ rest) ≡ escape_pointer (c ∷ cs) ++ rest
unfolding escape_chars trim_start
trim_start-escape c cs rest = rw (escape_pointer-chars (c ∷ cs)) (grind arith)

-- `pointer_tokens` gives back the names a pointer was built from, provided the first is not empty.
pub pointer_tokens-pointer_of :
    (c : ℕ) (cs : Bytes) (ts : List Bytes)
    → pointer_tokens (pointer_of ((c ∷ cs) ∷ ts)) ≡ (c ∷ cs) ∷ ts
unfolding pointer_of pointer_tokens Text.is_empty_text trim_start
pointer_tokens-pointer_of c cs ts =
    rw (trim_start-escape c cs (pointer_of ts)) (tokens_back (c ∷ cs) ts)

rsplit_once-none : (sep : ℕ) (t : Bytes) → contains sep t ≡ false → rsplit_once sep t ≡ none
unfolding rsplit_once contains
rsplit_once-none sep [] e = refl
rsplit_once-none sep (b ∷ bs) e = ground (arith, rsplit_once-none sep bs)

rsplit_once-last :
    (sep : ℕ) (p t : Bytes) → contains sep t ≡ false → rsplit_once sep (p ++ sep ∷ t) ≡ some (p, t)
unfolding rsplit_once
rsplit_once-last sep [] t e = rw (rsplit_once-none sep t e) (ground arith)
rsplit_once-last sep (b ∷ bs) t e = rw (rsplit_once-last sep bs t e) refl

-- `split` undoes `extend`: the parent and the name come back, whatever they hold.
pub split-extend : (p name : Bytes) → split (extend p name) ≡ (p, name)
unfolding split extend
split-extend p name =
    rw
      (
        split,
        rsplit_once-last b'/' p (escape_pointer name) (contains-escape name),
        unescape-escape name,
      )
      refl
