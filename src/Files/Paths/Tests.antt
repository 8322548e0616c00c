-- ===== src/Files/Paths/Tests.antt =====
-- Runs of to-path-components.js and to-mfs-path.js.
use js_ipfs.Prelude.{◌≡◌, refl, [], ◌∷◌, codes, ok, err, trim, JsString, List}
use js_ipfs.Files.Paths.{to_path_components, normal_path, no_path, invalid_path, rooted}
use js_ipfs.Files.Paths.Components.{to_path_components-rooted}
use js_ipfs.Files.Paths.Normal.{normal_path-Outcome, Outcome}

splits :
    to_path_components (codes " /a//b\\/c/d^e ")
    ≡ codes "a" ∷ codes "b\\/c" ∷ codes "d" ∷ codes "e" ∷ []
unfolding to_path_components trim
splits = refl

normalises : normal_path (codes " //a///b/ ") ≡ ok (codes "/a/b")
unfolding normal_path trim
normalises = refl

refuses : normal_path (codes "a/b") ≡ err invalid_path
unfolding normal_path trim
refuses = refl

refuses_blank : normal_path (codes "  ") ≡ err no_path
unfolding normal_path trim
refuses_blank = refl

abbrev parts : List JsString
parts = codes "a" ∷ codes "b\\/c" ∷ []

to_path_components-rooted_example : to_path_components (rooted parts) ≡ parts
unfolding trim
to_path_components-rooted_example =
    to_path_components-rooted parts ((refl, λ e. cc), ((refl, λ e. cc), tt)) refl

normal_path-Outcome_example : Outcome (trim (codes " //a/b/ ")) (normal_path (codes " //a/b/ "))
normal_path-Outcome_example = normal_path-Outcome (codes " //a/b/ ")
