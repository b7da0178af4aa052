-- ===== src/Ui.antt =====
-- `UIHandler` of internal/handlers/ui.go and `Healthz` of internal/handlers/health.go. The embedded files,
-- and what `http.FileServer` answers of them, are parameters.
pub mod Title
mod Tests
use webridge.Prelude.{
  ℕ, zero, suc, ◌+◌, ◌-◌, Bool, true, false, ◌||◌, List, [], ◌∷◌, ◌++◌, length, drop, if◌then◌else◌,
  Text, text, ◌==◌,
}
use webridge.Prelude.Table.{Table, insert}
use webridge.Strings.{has_prefix}
use webridge.Config.{UiConfig}

-- `strings.ReplaceAll` for an old text that is not empty: the loop looks for `old` from the left; `skip`
-- bytes of an occurrence are still to be passed over.
replace_from : ℕ → Text → Text → Text → Text
replace_from skip [] old new = []
replace_from (suc skip) (c ∷ s) old new = replace_from skip s old new
replace_from zero (c ∷ s) old new =
    let passed = replace_from (length old - 1) s old new in
    let kept = replace_from zero s old new in
    if has_prefix (c ∷ s) old then new ++ passed else c ∷ kept

unfoldable pub replace_all : Text → Text → Text → Text
unfolding replace_from
replace_all s old new = replace_from zero s old new

abbrev pub marker : Text
marker = text "{{TITLE}}"

pub record Page : Type 0 where
  pub status : ℕ
  pub header : Table Text
  pub body : Text

-- `http.NotFound`
abbrev pub not_found : Page
not_found = record {
  status = 404;
  header = (text "Content-Type", text "text/plain; charset=utf-8") ∷ [];
  body = text "404 page not found\n";
}

-- `file_server` adds to the header that it is given.
module _ (index_html : Text) (file_server : Text → Table Text → Page) where
  abbrev pub index_page : Text → Page
  index_page title = record {
    status = 200;
    header = insert (text "Cache-Control") (text "no-cache, no-store, must-revalidate") (
        insert (text "Content-Type") (text "text/html; charset=utf-8")
          ((text "Cache-Control", text "no-cache") ∷ []));
    body = replace_all index_html marker title;
  }

  unfoldable pub ui_handler : UiConfig → Text → Page
  ui_handler cfg path =
      if cfg.enabled
      then (if path == text "/" || path == text "/index.html"
          then index_page cfg.title
          else file_server path ((text "Cache-Control", text "no-cache") ∷ []))
      else not_found

-- `Healthz`; the body as encoding/json writes it, less the line break at its end.
unfoldable pub healthz : Page
healthz = record {
  status = 200;
  header = (text "Content-Type", text "application/json") ∷ [];
  body = text "{\"status\":\"ok\"}";
}
