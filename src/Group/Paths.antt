-- ===== src/Group/Paths.antt =====
-- The names of the requests by the segments around them.
use fusillade.Prelude.{
  ◌≢◌, Bool, true, false, List, [], ◌∷◌, ◌++◌, Text, codes, get_or, if◌then◌else◌,
}
use fusillade.Group.{Script, done, request, segment, throw}

-- Every segment has a name.
abbrev pub AreNamed : Script → Type 0
AreNamed done = Unit
AreNamed throw = Unit
AreNamed (request t u rest) = AreNamed rest
AreNamed (segment name body rest) = (name ≢ []) × AreNamed body × AreNamed rest

abbrev pub completes : Script → Bool
completes done = true
completes throw = false
completes (request t u rest) = completes rest
completes (segment name body rest) = if completes body then completes rest else false

-- A name below the segments of a path.
abbrev pub qualified : List Text → Text → Text
qualified [] n = n
qualified (p ∷ ps) n = p ++ (codes "::" ++ qualified ps n)

-- The requests that are made, each below its segments.
abbrev pub requests : List Text → Script → List Text
requests path done = []
requests path throw = []
requests path (request t u rest) = qualified path (get_or t u) ∷ requests path rest
requests path (segment name body rest) =
    requests (path ++ (name ∷ [])) body ++ (if completes body then requests path rest else [])

abbrev group_of : List Text → Text
group_of [] = []
group_of (p ∷ []) = p
group_of (p ∷ q ∷ ps) = p ++ (codes "::" ++ group_of (q ∷ ps))
