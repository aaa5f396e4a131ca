-- ===== src/Tests/Inputs.antt =====
-- The theorem on the segments of scripts at a concrete input.
use fusillade.Group.{Script, done, request, segment, throw}
use fusillade.Prelude.{none, some, codes}

abbrev checkout : Script
checkout =
    segment (codes "checkout")
      (request none (codes "/cart")
        (segment (codes "pay") (request (some (codes "card")) (codes "/pay") throw) done))
      (request none (codes "/") done)
