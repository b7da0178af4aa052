-- ===== src/Ui/Title.antt =====
-- Where the title of the configuration goes in the page of internal/handlers/ui.go.
use webridge.Prelude.{
  zero, ◌≡◌, ◌≢◌, refl, ap, ◌∙◌, true, ◌||◌, List, [], ◌∷◌, ◌++◌, All, Text, text, ◌==◌, arith,
}
use webridge.Prelude.Table.{Table}
use webridge.Strings.{has_prefix}
use webridge.Config.{UiConfig}
use webridge.Ui.{replace_from, replace_all, marker, Page, ui_handler}

-- Parts of a page with a text between each two of them.
abbrev pub weave : Text → Text → List Text → Text
weave between part [] = part
weave between part (next ∷ parts) = part ++ (between ++ weave between next parts)

abbrev pub IsPlain : Text → Type 0
IsPlain = All (λ c. c ≢ b'{')

replace_from-plain :
    (part rest new : Text)
    → IsPlain part
    → replace_from zero (part ++ rest) marker new ≡ part ++ replace_from zero rest marker new
unfolding replace_from has_prefix text
replace_from-plain [] rest new h = refl
replace_from-plain (c ∷ part) rest new (p, h) = ground (arith, replace_from-plain part rest new h)

replace_from-marker :
    (rest new : Text)
    → replace_from zero (marker ++ rest) marker new ≡ new ++ replace_from zero rest marker new
unfolding replace_from has_prefix text
replace_from-marker rest new = refl

replace_from-nil : (part new : Text) → IsPlain part → replace_from zero part marker new ≡ part
unfolding replace_from has_prefix text
replace_from-nil [] new h = refl
replace_from-nil (c ∷ part) new (p, h) = ground (arith, replace_from-nil part new h)

replace_from-weave :
    (part : Text) (parts : List Text) (new : Text)
    → IsPlain part
    → All IsPlain parts
    → replace_from zero (weave marker part parts) marker new ≡ weave new part parts
replace_from-weave part [] new h all = replace_from-nil part new h
replace_from-weave part (next ∷ parts) new h (p, all) =
    replace_from-plain part (marker ++ weave marker next parts) new h
    ∙ ap (λ t. part ++ t)
        (replace_from-marker (weave marker next parts) new
          ∙ ap (λ t. new ++ t) (replace_from-weave next parts new p all))

-- Where the user interface is enabled, the page at / and at /index.html has the title at each marker, as
-- it stands in the configuration, and is unchanged elsewhere, for a file with no brace outside of the
-- markers.
pub ui_handler-weave :
    (file_server : Text → Table Text → Page) (cfg : UiConfig) (path part : Text) (parts : List Text)
    → IsPlain part
    → All IsPlain parts
    → cfg.enabled ≡ true
    → (path == text "/" || path == text "/index.html") ≡ true
    → (ui_handler (weave marker part parts) file_server cfg path).body ≡ weave cfg.title part parts
unfolding ui_handler replace_all
ui_handler-weave file_server cfg path part parts h all e p =
    ground (arith, replace_from-weave part parts cfg.title h all)
