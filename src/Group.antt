-- ===== src/Group.antt =====
-- src/bridge/group.rs, and the names of requests in src/bridge/http_sync.rs: segments of a script, which
-- may be nested. A script is seen as its requests, its segments and an exception, in order.
pub mod Paths
use fusillade.Prelude.{Bool, true, false, List, [], ◌∷◌, ◌++◌, Option, Text, codes, get_or}

pub data Script : Type 0 where
  done : Script
  request : Option Text → Text → Script → Script
  segment : Text → Script → Script → Script
  throw : Script

unfoldable pub group_prefix : Text → Text
group_prefix [] = []
group_prefix (c ∷ cs) = (c ∷ cs) ++ codes "::"

-- The group after it; the group before it is kept by the caller.
unfoldable pub set_group : Text → Text → Text
set_group name [] = name
set_group name (c ∷ cs) = (c ∷ cs) ++ (codes "::" ++ name)

unfoldable pub metric_name : Text → Option Text → Text → Text
unfolding group_prefix
metric_name group name_tag url = group_prefix group ++ get_or name_tag url

-- the rest of a script behind a segment: nothing, if the segment threw
abbrev pub and_then :
    List Text × Text × Bool → (Text → List Text × Text × Bool) → List Text × Text × Bool
and_then (names, group, false) rest = (names, group, false)
and_then (names, group, true) rest =
    let (more, group', ended) = rest group in (names ++ more, group', ended)

-- The names under which the requests are recorded, the group after the script, and whether it came to
-- its end. A segment restores the group, whether its function threw or not.
unfoldable pub run : Script → Text → List Text × Text × Bool
unfolding set_group metric_name
run done group = ([], group, true)
run throw group = ([], group, false)
run (request name_tag url rest) group =
    let (names, group', ended) = run rest group in
    (metric_name group name_tag url ∷ names, group', ended)
run (segment name body rest) group =
    let (names, inside, ended) = run body (set_group name group) in
    and_then (names, group, ended) (run rest)
