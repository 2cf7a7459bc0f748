-- ===== src/RefPath/Parser.antt =====
-- Reference paths (schema/path.rs): the printer, `Display` of `RefPath`, and `Parser`. A text is its
-- bytes; what the code tests for is ASCII, which no byte of another character is.
pub mod Chars
pub mod Reads
pub mod Literals
pub mod RoundTrip
pub mod Sound
pub mod Accepts
pub mod Faults
mod Examples
use reldir.Base.{
  ℕ, zero, suc, ◌+◌, leb, Bool, true, false, ◌&&◌, ◌||◌, List, [], ◌∷◌, ◌++◌, length, Option, none,
  some, ◌==◌, if◌then◌else◌, codes,
}
use reldir.Store.Corruption.{Bytes}
use reldir.Json.{Value, null, bool, number, string, array, object}
use reldir.Files.{Result, ok, err, Act, pure, ◌>>=◌, ◌>>◌}
use reldir.RefPath.{Step, member_step, each_step, where_step}

-- `serde_json` at the places the code calls it: `to_string` of a text and of a value, and `from_str`
-- into them.
pub record Serde : Type 0 where
  pub print_string : Bytes → Bytes
  pub read_string : Bytes → Option Bytes
  pub print_value : Value → Bytes
  pub read_value : Bytes → Option Value

pub data Message : Type 0 where
  empty_path expected_step unequal open_filter bad_array_step : Message
  invalid_quoted empty_name unterminated_name expected_name : Message
  unterminated_string expected_literal invalid_number : Message
  out_of_rounds : Message

pub record PathError : Type 0 where
  pub offset : ℕ
  pub message : Message

-- `rest` is `self.text[self.at..]`.
pub record Parser : Type 0 where
  pub rest : Bytes
  pub at : ℕ

abbrev pub Parse : Type 0 → Type 0
Parse A = Act Parser PathError A

abbrev pub in_range : ℕ → ℕ → ℕ → Bool
in_range first last c = leb first c && leb c last

unfoldable pub is_ascii_digit : ℕ → Bool
is_ascii_digit c = in_range b'0' b'9' c

unfoldable pub starts_name : ℕ → Bool
starts_name c = in_range b'a' b'z' c || in_range b'A' b'Z' c || c == b'_'

unfoldable pub in_name : ℕ → Bool
in_name c = starts_name c || is_ascii_digit c

unfoldable pub in_number : ℕ → Bool
in_number c = is_ascii_digit c || c == b'-' || c == b'+' || c == b'.' || c == b'e' || c == b'E'

unfoldable pub all_of : (ℕ → Bool) → Bytes → Bool
all_of test [] = true
all_of test (c ∷ cs) = test c && all_of test cs

unfoldable pub is_identifier : Bytes → Bool
is_identifier [] = false
is_identifier (c ∷ cs) = starts_name c && all_of in_name cs

-- `text.replace('\'', "''")`
unfoldable pub double_quotes : Bytes → Bytes
double_quotes [] = []
double_quotes (c ∷ cs) =
    let rest = double_quotes cs in if c == b'\'' then c ∷ c ∷ rest else c ∷ rest

-- What the tests of the bytes at the front take: the longest part that passes, and what is left.
abbrev pub push_front : ℕ → Bytes × Bytes → Bytes × Bytes
push_front c (taken, left) = (c ∷ taken, left)

unfoldable pub span : (ℕ → Bool) → Bytes → Bytes × Bytes
span test [] = ([], [])
span test (c ∷ cs) = let more = push_front c (span test cs) in if test c then more else ([], c ∷ cs)

-- The loop of a quoted name, from behind its first quote: to the quote that ends it, and what is
-- left.
abbrev pub push_some : ℕ → Option (Bytes × Bytes) → Option (Bytes × Bytes)
push_some c none = none
push_some c (some pair) = some (push_front c pair)

unfoldable pub quoted_end : Bool → Bytes → Option (Bytes × Bytes)
quoted_end escaped [] = none
quoted_end true (c ∷ cs) = push_some c (quoted_end false cs)
quoted_end false (c ∷ cs) =
    let escape = push_some c (quoted_end true cs) in
    let plain = push_some c (quoted_end false cs) in
    if c == b'\\' then escape else if c == b'"' then some (c ∷ [], cs) else plain

unfoldable pub fail : {A : Type 0} → Message → Parse A
fail message p = (err (record { offset = p.at; message = message }), p)

unfoldable pub peek : Parse (Option ℕ)
peek p = elim p.rest [ [] ↦ (ok none, p) | c ∷ cs ↦ (ok (some c), p) ]

-- `str::strip_prefix`
unfoldable pub strip : Bytes → Bytes → Option Bytes
strip [] text = some text
strip (x ∷ xs) [] = none
strip (x ∷ xs) (y ∷ ys) = let rest = strip xs ys in if x == y then rest else none

-- A step forward over bytes that were read.
abbrev pub past : Parser → Bytes → Bytes → Parser
past p taken left = record { rest = left; at = p.at + length taken }

unfoldable pub eat : Bytes → Parse Bool
eat literal p = elim (strip literal p.rest) [
  | none ↦ (ok false, p)
  | some left ↦ (ok true, past p literal left)
]

-- The loop of a string literal, behind its first quote.
abbrev pub push_text : ℕ → Result PathError Bytes × Parser → Result PathError Bytes × Parser
push_text c (ok text, p) = (ok (c ∷ text), p)
push_text c (err e, p) = (err e, p)

unfoldable pub string_literal : Bytes → ℕ → Result PathError Bytes × Parser
string_literal [] at = fail unterminated_string (record { rest = []; at = at })
string_literal (c ∷ []) at =
    if c == b'\''
    then (ok [], record { rest = []; at = suc at })
    else fail unterminated_string (record { rest = []; at = suc at })
string_literal (c ∷ d ∷ cs) at =
    let plain = push_text c (string_literal (d ∷ cs) (suc at)) in
    let doubled = push_text b'\'' (string_literal cs (suc (suc at))) in
    if c == b'\''
    then (if d == b'\'' then doubled else (ok [], record { rest = d ∷ cs; at = suc at }))
    else plain

abbrev pub text_value : Result PathError Bytes × Parser → Result PathError Value × Parser
text_value (ok text, p) = (ok (string text), p)
text_value (err e, p) = (err e, p)

unfoldable pub string_value : Parse Value
string_value p = text_value (string_literal p.rest p.at)

-- The identifier at the front, which is not empty where `name` calls this.
unfoldable pub identifier : Parse Bytes
identifier p = let (taken, left) = span in_name p.rest in (ok taken, past p taken left)

module _ (serde : Serde) where
  unfoldable pub write_name : Bytes → Bytes
  write_name name = if is_identifier name then name else serde.print_string name

  unfoldable pub write_literal : Value → Bytes
  write_literal (string text) = b'\'' ∷ double_quotes text ++ b'\'' ∷ []
  write_literal value = serde.print_value value

  -- One turn of the loop of `fmt`; the flag says that it is not the first.
  unfoldable pub write_step : Bool → Step → Bytes
  write_step true (member_step name) = b'.' ∷ write_name name
  write_step false (member_step name) = write_name name
  write_step later each_step = codes "[]"
  write_step later (where_step name equals) =
      codes "[?" ++ write_name name ++ b'=' ∷ write_literal equals ++ b']' ∷ []

  unfoldable pub write_steps : Bool → List Step → Bytes
  write_steps later [] = []
  write_steps later (step ∷ steps) = write_step later step ++ write_steps true steps

  abbrev pub display : List Step → Bytes
  display steps = write_steps false steps

  -- The name between quotes that `end` found, of which `taken` is what follows the first.
  unfoldable pub quoted_name : Bytes → Bytes → Parse Bytes
  quoted_name taken left p = elim (serde.read_string (b'"' ∷ taken)) [
    | none ↦ fail invalid_quoted p
    | some [] ↦ fail empty_name p
    | some (c ∷ cs) ↦ (ok (c ∷ cs), past p (b'"' ∷ taken) left)
  ]

  unfoldable pub quoted : Bytes → Parse Bytes
  quoted body p = elim (quoted_end false body) [
    | none ↦ fail unterminated_name p
    | some (taken, left) ↦ quoted_name taken left p
  ]

  unfoldable pub name_at : Bytes → Parse Bytes
  name_at [] = fail expected_name
  name_at (c ∷ cs) =
      if c == b'"' then quoted cs else if starts_name c then identifier else fail expected_name

  unfoldable pub name : Parse Bytes
  name p = name_at p.rest p

  unfoldable pub number_value : Bytes → Bytes → Parse Value
  number_value [] left p = fail expected_literal p
  number_value (c ∷ cs) left p = elim (serde.read_value (c ∷ cs)) [
    | some (number text) ↦ (ok (number text), past p (c ∷ cs) left)
    | some null ↦ fail invalid_number p
    | some (bool b) ↦ fail invalid_number p
    | some (string text) ↦ fail invalid_number p
    | some (array items) ↦ fail invalid_number p
    | some (object members) ↦ fail invalid_number p
    | none ↦ fail invalid_number p
  ]

  unfoldable pub number_at : Parse Value
  number_at p = let (taken, left) = span in_number p.rest in number_value taken left p

  unfoldable pub literal : Parse Value
  literal = do
    quote ← eat (codes "'")
    if quote then string_value else (do
      truth ← eat (codes "true")
      if truth then pure (bool true) else (do
        lie ← eat (codes "false")
        if lie
            then pure (bool false)
            else (do nothing ← eat (codes "null"); if nothing then pure null else number_at)))

  -- What follows `[?`.
  unfoldable pub filter : Parse Step
  filter = do
    member ← name
    compares ← eat (codes "=")
    if compares
        then (do
          equals ← literal
          ends ← eat (codes "]")
          if ends then pure (where_step member equals) else fail open_filter)
        else fail unequal

  abbrev pub no_suffix : Option ℕ → Parse (List Step)
  no_suffix none = pure []
  no_suffix (some c) = if c == b'[' then fail bad_array_step else pure []

  -- The steps that `suffixes` pushes; `rounds` bounds the turns of its loop.
  unfoldable pub suffixes : ℕ → Parse (List Step)
  suffixes zero = fail out_of_rounds
  suffixes (suc rounds) = do
    each ← eat (codes "[]")
    if each then (do more ← suffixes rounds; pure (each_step ∷ more)) else (do
      filters ← eat (codes "[?")
      if filters
          then (do step ← filter; more ← suffixes rounds; pure (step ∷ more))
          else (do next ← peek; no_suffix next))

  -- The loop of `path`, and what it pushes; `turns` bounds its turns, `rounds` those of `suffixes`.
  unfoldable pub segments : ℕ → ℕ → Parse (List Step)
  segments rounds zero = fail out_of_rounds
  segments rounds (suc turns) = do
    next ← peek
    elim next [
      | none ↦ pure []
      | some c ↦ (do
        dot ← eat (codes ".")
        if dot
            then (do
              member ← name
              more ← suffixes rounds
              others ← segments rounds turns
              pure (member_step member ∷ more ++ others))
            else fail expected_step)
    ]

  unfoldable pub path : ℕ → Parse (List Step)
  path rounds = do
    next ← peek
    elim next [
      | none ↦ fail empty_path
      | some c ↦ (do
        member ← name
        more ← suffixes rounds
        others ← segments rounds rounds
        pure (member_step member ∷ more ++ others))
    ]

  -- `RefPath::parse`: a turn of a loop reads a byte, so that as many turns as the text has bytes,
  -- and one to see its end, are enough.
  unfoldable pub parse : Bytes → Result PathError (List Step)
  unfolding path
  parse text = (path (suc (length text)) (record { rest = text; at = 0 })).0
