-- ===== src/Filename/Tests.antt =====
-- File names for internal/handlers/download.go.
use webridge.Prelude.{◌≡◌, refl, [], ◌∷◌, Text}
use webridge.Filename.{sanitize_filename}

abbrev wild : Text
wild = 97 ∷ 34 ∷ 13 ∷ 10 ∷ 98 ∷ []

tamed : sanitize_filename wild ≡ 97 ∷ 39 ∷ 98 ∷ []
unfolding sanitize_filename
tamed = refl
