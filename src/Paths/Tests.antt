-- ===== src/Paths/Tests.antt =====
-- The path rules at concrete paths.
use skills_sdk.Prelude.{◌≡◌, ◌↔◌, refl, codes, true, false, [], ◌∷◌}
use skills_sdk.Paths.Split.{split}
use skills_sdk.Paths.Laws.{IsPortable, require_portable_relative_path_iff}
use skills_sdk.Paths.{ok, PurePosixPath, require_portable_relative_path, is_portable, slash}

abbrev readme : PurePosixPath
readme = record { root = []; parts = codes "docs" ∷ codes "README.md" ∷ [] }

accepted : require_portable_relative_path "docs/README.md" ≡ ok readme
unfolding require_portable_relative_path
accepted = refl

refused :
    (is_portable "/etc" ≡ false)
    × (is_portable "a/../b" ≡ false)
    × (is_portable "a//b" ≡ false)
    × (is_portable "./a" ≡ false)
    × (is_portable "a/" ≡ false)
    × (is_portable "C:/a" ≡ false)
    × (is_portable "." ≡ false)
    × (is_portable "  " ≡ false)
    × (is_portable "a\\b" ≡ false)
    × (is_portable "a/b:c" ≡ true)
unfolding is_portable
refused = (refl, refl, refl, refl, refl, refl, refl, refl, refl, refl)

require_portable_relative_path_iff_example :
    (require_portable_relative_path "docs/README.md" ≡ ok readme) ↔ (
      IsPortable (codes "docs/README.md")
      × (readme ≡ record { root = []; parts = split slash (codes "docs/README.md") }))
require_portable_relative_path_iff_example =
    require_portable_relative_path_iff "docs/README.md" readme
