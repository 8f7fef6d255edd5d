-- ===== src/Tests/Providing.antt =====
-- Two configurations of providers, one of which is disabled.
use conexus.Prelude.{◌≡◌, refl, none, [], List}
use conexus.Text.{codes}
use conexus.Table.{find_row}
use conexus.Table.Keys.{Distinct}
use conexus.Providers.{
  ProviderConfig, create_provider_config, disable_provider_config, insert_newest, order_newest,
  list_enabled_provider_configs, mask_api_key, first_chars, last_chars, replace_from,
  sanitize_error,
}
use conexus.Providers.Disabling.{disabled_not_listed}
use conexus.Tests.{program, noon}

providing : Unit {0}
unfolding program create_provider_config disable_provider_config insert_newest order_newest
    list_enabled_provider_configs mask_api_key first_chars last_chars replace_from sanitize_error
providing = tt

abbrev one_config : List ProviderConfig
one_config =
    (create_provider_config (λ s. s) 1 noon (codes "openai") (codes "sk-123456789") none []).1

abbrev two_configs : List ProviderConfig
two_configs =
    (create_provider_config (λ s. s) 2 noon (codes "anthropic") (codes "short") none one_config).1

two_configs-Distinct : Distinct ProviderConfig.id two_configs
unfolding providing
two_configs-Distinct = (refl, (refl, tt))

masked_key : mask_api_key (codes "sk-123456789") ≡ codes "sk-1...6789"
unfolding providing
masked_key = refl

redacted_error :
    sanitize_error (λ t. t) (codes "bad key abab!") (codes "ab") none none
    ≡ codes "bad key [redacted][redacted]!"
unfolding providing
redacted_error = refl

disabled_not_listed_example :
    find_row ProviderConfig.id 1
      (list_enabled_provider_configs (disable_provider_config noon 1 two_configs))
    ≡ none
disabled_not_listed_example = disabled_not_listed noon 1 two_configs two_configs-Distinct
