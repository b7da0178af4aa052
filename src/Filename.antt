-- ===== src/Filename.antt =====
-- `sanitizeFilename` of internal/handlers/download.go, on bytes.
pub mod Safe
mod Tests
use webridge.Prelude.{
  ℕ, Bool, not, List, [], ◌∷◌, map, keep, take, length, ltb, eqb, if◌then◌else◌, Text,
}

abbrev pub quote_free : ℕ → ℕ
quote_free c = if eqb c 34 then 39 else c

abbrev pub is_not : ℕ → ℕ → Bool
is_not b c = not (eqb c b)

-- `"` becomes `'`, newlines and carriage returns go, and 255 bytes stay.
unfoldable pub sanitize_filename : Text → Text
sanitize_filename name =
    let clean = keep (is_not 13) (keep (is_not 10) (map quote_free name)) in
    if ltb 255 (length clean) then take 255 clean else clean
