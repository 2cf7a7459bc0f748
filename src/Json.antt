-- ===== src/Json.antt =====
-- serde_json's `Value` and `Map` as the crate builds them: numbers keep their lexeme
-- (`arbitrary_precision`), and members keep their order (`preserve_order`). Two maps are equal when
-- they hold the same members, in any order.
pub mod Laws
use Prim.Native.Nat.{max}
use reldir.Base.{
  ℕ, suc, Bool, true, false, ◌&&◌, List, [], ◌∷◌, Option, none, some, ◌==◌, if◌then◌else◌,
}
use reldir.Store.Corruption.{Bytes}
use reldir.Store.Text.{bytes_eq}

mutual
  pub data Value : Type 0 where
    null : Value
    bool : Bool → Value
    number : Bytes → Value
    string : Bytes → Value
    array : Items → Value
    object : Members → Value

  pub data Items : Type 0 where
    nil : Items
    cons : Value → Items → Items

  pub data Members : Type 0 where
    end : Members
    member : Bytes → Value → Members → Members

-- `Map::get`
unfoldable pub get_member : Bytes → Members → Option Value
get_member k end = none
get_member k (member j v ms) = if bytes_eq j k then some v else get_member k ms

-- `Map::insert`: in place where the name is there, at the end where it is not.
unfoldable pub insert_member : Bytes → Value → Members → Members
insert_member k v end = member k v end
insert_member k v (member j w ms) =
    if bytes_eq j k then member j v ms else member j w (insert_member k v ms)

unfoldable pub member_count : Members → ℕ
member_count end = 0
member_count (member k v ms) = suc (member_count ms)

-- `Map::keys`
unfoldable pub keys : Members → List Bytes
keys end = []
keys (member k v ms) = k ∷ keys ms

unfoldable pub has_key : Bytes → Members → Bool
has_key k end = false
has_key k (member j v ms) = if bytes_eq j k then true else has_key k ms

bool_eq : Bool → Bool → Bool
bool_eq true b = b
bool_eq false true = false
bool_eq false false = true

-- `==` of `Value`
unfoldable mutual
  unfolding bool_eq

  pub value_eq : Value → Value → Bool
  value_eq null null = true
  value_eq (bool a) (bool b) = bool_eq a b
  value_eq (number a) (number b) = bytes_eq a b
  value_eq (string a) (string b) = bytes_eq a b
  value_eq (array xs) (array ys) = items_eq xs ys
  value_eq (object ms) (object ns) = member_count ms == member_count ns && members_within ms ns
  value_eq _ _ = false

  pub items_eq : Items → Items → Bool
  items_eq nil nil = true
  items_eq (cons x xs) (cons y ys) = value_eq x y && items_eq xs ys
  items_eq _ _ = false

  pub members_within : Members → Members → Bool
  members_within end ns = true
  members_within (member k v ms) ns =
      elim (get_member k ns) [ none ↦ false | some w ↦ value_eq v w ] && members_within ms ns

-- `==` of `Option<&Value>`
unfoldable pub option_eq : Option Value → Option Value → Bool
option_eq none none = true
option_eq (some v) (some w) = value_eq v w
option_eq _ _ = false

-- How deep objects are nested in one another.
unfoldable mutual
  pub depth : Value → ℕ
  depth null = 0
  depth (bool b) = 0
  depth (number n) = 0
  depth (string s) = 0
  depth (array xs) = 0
  depth (object ms) = suc (members_depth ms)

  pub members_depth : Members → ℕ
  members_depth end = 0
  members_depth (member k v ms) = max (depth v) (members_depth ms)
