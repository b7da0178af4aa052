-- ===== src/Ui/Tests.antt =====
-- A page of internal/handlers/ui.go with two markers.
use webridge.Prelude.{◌≡◌, refl, true, false, List, [], ◌∷◌, Text, text, ◌==◌, pos, arith}
use webridge.Prelude.Table.{Table}
use webridge.Strings.{has_prefix}
use webridge.Config.{UiConfig}
use webridge.Ui.{Page, marker, not_found, replace_all, ui_handler, healthz}
use webridge.Ui.Title.{weave, ui_handler-weave}

abbrev files : Text → Table Text → Page
files path header = record { status = 200; header = header; body = path }

abbrev cfg : UiConfig
cfg = record { enabled = true; title = text "<b>Files</b>"; max_url_length = pos 2048 }

abbrev head : Text
head = text "<h1>"

abbrev tail : List Text
tail = text "</h1><p>" ∷ text "</p>" ∷ []

ui_handler-weave_example :
    (ui_handler (weave marker head tail) files cfg (text "/")).body
    ≡ weave (text "<b>Files</b>") head tail
unfolding text ◌==◌
ui_handler-weave_example =
    ui_handler-weave files cfg (text "/") head tail
      (ground arith, (ground arith, (ground arith, (ground arith, tt))))
      (
        (
          ground arith,
          (
            ground arith,
            (
              ground arith,
              (ground arith, (ground arith, (ground arith, (ground arith, (ground arith, tt))))),
            ),
          ),
        ),
        ((ground arith, (ground arith, (ground arith, (ground arith, tt)))), tt),
      )
      refl refl

in_between : replace_all (text "a{{TITLE}}{b") marker (text "T") ≡ text "aT{b"
unfolding replace_all has_prefix text
in_between = refl

disabled : ui_handler (text "<p>") files (record cfg { enabled = false }) (text "/") ≡ not_found
unfolding ui_handler
disabled = refl

healthy : healthz.status ≡ 200
unfolding healthz
healthy = refl
