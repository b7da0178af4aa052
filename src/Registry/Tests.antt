-- ===== src/Registry/Tests.antt =====
-- Lookups in a registry of two providers, for internal/providers/registry.go.
use webridge.Prelude.{◌≡◌, refl, Option, some, [], ◌∷◌, Text, text, ◌==◌}
use webridge.Prelude.Table.{lookup, insert}
use webridge.Strings.{to_lower, lower_byte, has_suffix, has_prefix, before, drop_dot}
use webridge.Registry.{
  Provider, Registry, get_provider_names, no_provider, new_registry, register, host_name,
  resolve_provider,
}
use webridge.Registry.Names.{at_most, place, sort_strings, providers_handler}

abbrev swiss : Provider
swiss = record { name = text "st"; hosts = text "swisstransfer.com" ∷ [] }

abbrev pixel : Provider
pixel = record { name = text "px"; hosts = text "pixeldrain.com" ∷ [] }

abbrev two : Registry
two = record {
  providers = (text "st", swiss) ∷ (text "px", pixel) ∷ [];
  host_map = (text "swisstransfer.com", swiss) ∷ (text "pixeldrain.com", pixel) ∷ [];
}

-- An URL of the tests is its host.
abbrev parse : Text → Option Text
parse t = some t

abbrev url : Text
url = text "WWW.pixeldrain.com:443"

two_registered : register (register new_registry swiss) pixel ≡ two
unfolding register insert to_lower lower_byte text ◌==◌
two_registered = refl

look_alike : resolve_provider parse two (text "evilpixeldrain.com") ≡ no_provider
unfolding resolve_provider host_name to_lower lower_byte before drop_dot has_suffix has_prefix
    lookup text ◌==◌
look_alike = refl

names_sorted : providers_handler two ≡ text "px" ∷ text "st" ∷ []
unfolding providers_handler sort_strings place at_most get_provider_names text
names_sorted = refl
