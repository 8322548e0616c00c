-- ===== src/Refs/Tests.antt =====
-- The references of a diamond: 1 links to 2 and 3, which both link to 4.
use mathlib.Core.Logic.{◌↔◌}
use js_ipfs.Prelude.{
  ◌≡◌, refl, ℕ, true, false, Option, some, List, [], ◌∷◌, nat_eq, nat_beq, if◌then◌else◌,
}
use js_ipfs.Refs.{Link, refs_stream, object_stream}
use js_ipfs.Refs.Order.{refs_stream-preorder}
use js_ipfs.Refs.Reach.{refs_stream-Reaches, Yields, Reaches, IsDistinct}

abbrev link : ℕ → Link ℕ ℕ
link c = record { name = 0; cid = c }

abbrev links : ℕ → List (Link ℕ ℕ)
links c =
    if nat_beq c 1
    then link 2 ∷ link 3 ∷ []
    else if nat_beq c 2
    then link 4 ∷ []
    else if nat_beq c 3
    then link 4 ∷ []
    else []

abbrev get_links : ℕ → Option (List (Link ℕ ℕ))
get_links c = some (links c)

refs_stream-preorder_example :
    (refs_stream get_links true 5 1 ≡ link 2 ∷ link 4 ∷ link 3 ∷ [])
    × ((object_stream get_links true 5 1).thrown ≡ false)
refs_stream-preorder_example = refs_stream-preorder get_links links (λ c. refl) true 5 1

refs_stream-Reaches_example :
    (Yields 4 (refs_stream get_links true 5 1) ↔ Reaches links 5 1 4)
    × IsDistinct (refs_stream get_links true 5 1)
refs_stream-Reaches_example = refs_stream-Reaches get_links links (λ c. refl) true 5 1 4
