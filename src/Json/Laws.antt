-- ===== src/Json/Laws.antt =====
-- What `insert` leaves in a map, and how deep its values are nested.
use reldir.Base.{◌≡◌, ◌≤◌, refl, arith, some, if◌then◌else◌}
use reldir.Store.Corruption.{Bytes}
use reldir.Store.Text.{bytes_eq, bytes_eq_iff}
use reldir.Json.{Value, Members, end, member, get_member, insert_member, depth, members_depth}

pub get-insert :
    (k j : Bytes) (v : Value) (ms : Members)
    → get_member j (insert_member k v ms) ≡ (if bytes_eq k j then some v else get_member j ms)
unfolding get_member insert_member
get-insert k j v end = refl
get-insert k j v (member i w ms) =
    ground (arith, bytes_eq_iff k j, bytes_eq_iff i k, bytes_eq_iff i j, get-insert k j v ms)

-- A value that a map holds is nested no deeper than the map.
pub depth-get :
    (k : Bytes) (ms : Members) (v : Value) → get_member k ms ≡ some v → depth v ≤ members_depth ms
unfolding get_member depth
depth-get k end v e = cc
depth-get k (member j w ms) v e = ground (arith, depth-get k ms v)
