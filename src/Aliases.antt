-- ===== src/Aliases.antt =====
-- backend/app/llm/model_alias_config.py: the model alias configuration, its validation when it is
-- loaded from a YAML document, and the lookup of a requested model. The YAML parser is not modelled:
-- `load_model_alias_config` starts from the document that `yaml.safe_load` returned.
use conexus.Prelude.{Bool, false, ◌||◌, Option, none, some, List, [], ◌∷◌, ◌++◌, if◌then◌else◌}
use conexus.Text.{Text, codes, text_eq, strip, lower, starts_with_any, is_blank}

-- A YAML value, as far as the loader looks into it.
mutual
  pub data Yaml : Type 0 where
    null : Yaml
    str : Text → Yaml
    mapping : YamlItems → Yaml
    other : Yaml

  pub data YamlItems : Type 0 where
    end : YamlItems
    item : Yaml → Yaml → YamlItems → YamlItems

abbrev pub Aliases : Type 0
Aliases = List (Text × Text × Text)

pub record ModelAliasConfig : Type 0 where
  pub default_primary_model : Text
  pub default_fallback_model : Text
  pub aliases : Aliases

pub data ModelAliasConfigError : Type 0 where
  not_a_string blank_field not_a_mapping duplicate_alias : ModelAliasConfigError

pub data Loaded {ℓ} (A : Type ℓ) : Type ℓ where
  ok : A → Loaded A
  err : ModelAliasConfigError → Loaded A

infixl 5 ◌>>=◌
abbrev pub ◌>>=◌ {ℓ κ} : {A : Type ℓ} {B : Type κ} → Loaded A → (A → Loaded B) → Loaded B
ok a >>= f = f a
err e >>= f = err e

unfoldable pub concrete_anthropic_prefixes : List Text
concrete_anthropic_prefixes = codes "claude-" ∷ codes "anthropic-" ∷ []

unfoldable pub concrete_openai_prefixes : List Text
concrete_openai_prefixes = codes "gpt-" ∷ codes "o1-" ∷ codes "openai-" ∷ []

-- `_require_non_blank`
unfoldable pub require_non_blank : Yaml → Loaded Text
require_non_blank (str s) = if is_blank (strip s) then err blank_field else ok (strip s)
require_non_blank _ = err not_a_string

-- `doc.get(key)`
unfoldable pub yaml_get : Text → YamlItems → Yaml
yaml_get k end = null
yaml_get k (item (str j) v rest) = if text_eq j k then v else yaml_get k rest
yaml_get k (item _ v rest) = yaml_get k rest

unfoldable pub as_mapping : Yaml → Loaded YamlItems
as_mapping (mapping m) = ok m
as_mapping _ = err not_a_mapping

-- `x in seen`
unfoldable pub text_in : Text → List Text → Bool
text_in s [] = false
text_in s (t ∷ ts) = text_eq t s || text_in s ts

-- The loop over `aliases_raw.items()`, with the names seen so far and the aliases collected.
unfoldable pub load_aliases : List Text → Aliases → YamlItems → Loaded Aliases
unfolding require_non_blank yaml_get as_mapping text_in
load_aliases seen acc end = ok acc
load_aliases seen acc (item name value rest) = do
  alias_name ← require_non_blank name
  let normalized = lower (strip alias_name)
  fields ← if text_in normalized seen then err duplicate_alias else as_mapping value
  anthropic_model ← require_non_blank (yaml_get (codes "anthropic") fields)
  openai_model ← require_non_blank (yaml_get (codes "openai") fields)
  load_aliases (normalized ∷ seen) (acc ++ (alias_name, anthropic_model, openai_model) ∷ []) rest

unfoldable pub load_model_alias_config : Yaml → Loaded ModelAliasConfig
unfolding load_aliases
load_model_alias_config doc = do
  fields ← as_mapping doc
  primary ← require_non_blank (yaml_get (codes "default_primary_model") fields)
  fallback ← require_non_blank (yaml_get (codes "default_fallback_model") fields)
  aliases_raw ← as_mapping (yaml_get (codes "aliases") fields)
  aliases ← load_aliases [] [] aliases_raw
  ok (record {
    default_primary_model = primary;
    default_fallback_model = fallback;
    aliases = aliases;
  })

-- `m in cfg.aliases`, `cfg.aliases[m]`
unfoldable pub get_alias : Text → Aliases → Option (Text × Text)
get_alias m [] = none
get_alias m ((name, a, o) ∷ rest) = if text_eq name m then some (a, o) else get_alias m rest

-- The loop that compares without regard to case.
unfoldable pub get_alias_folded : Text → Aliases → Option (Text × Text)
get_alias_folded m [] = none
get_alias_folded m ((name, a, o) ∷ rest) =
    if text_eq (lower name) m then some (a, o) else get_alias_folded m rest

unfoldable pub match_alias_models : ModelAliasConfig → Text → Option (Text × Text)
unfolding get_alias get_alias_folded
match_alias_models cfg requested_model =
    let m = strip requested_model in
    elim (get_alias m cfg.aliases) [
      | some pair ↦ some pair
      | none ↦ get_alias_folded (lower m) cfg.aliases
    ]

-- `list(dict.fromkeys((a, o)))`
unfoldable pub dedup : Text → Text → List Text
dedup a o = if text_eq a o then a ∷ [] else a ∷ o ∷ []

unfoldable pub resolve_pricing_model_candidates : Text → ModelAliasConfig → List Text
unfolding dedup starts_with_any
resolve_pricing_model_candidates requested_model cfg =
    let m = strip requested_model in
    elim (match_alias_models cfg requested_model) [
      | some (a, o) ↦ dedup a o
      | none ↦
          if starts_with_any m concrete_anthropic_prefixes
          then m ∷ []
          else if starts_with_any m concrete_openai_prefixes
          then m ∷ []
          else m ∷ []
    ]
