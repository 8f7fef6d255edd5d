-- ===== src/Providers/Disabling.antt =====
-- A provider configuration that was disabled.
use conexus.Prelude.{
  ℕ, ◌≡◌, refl, false, none, List, [], ◌∷◌, ◌==◌, ==_iff, arith, Bool-cases, inl, inr,
}
use conexus.Clock.{DateTime}
use conexus.Table.{find_row, select_where, update_row}
use conexus.Table.Keys.{Distinct}
use conexus.Providers.{
  ProviderConfig, is_enabled, insert_newest, order_newest, list_enabled_provider_configs, disabled,
  disable_provider_config,
}

insert-lacks :
    (id : ℕ) (row : ProviderConfig) (xs : List ProviderConfig)
    → (row.id == id) ≡ false
    → find_row ProviderConfig.id id xs ≡ none
    → find_row ProviderConfig.id id (insert_newest row xs) ≡ none
unfolding insert_newest find_row
insert-lacks id row [] other h = ground (arith, other)
insert-lacks id row (x ∷ xs) other h = ground (arith, other, h, insert-lacks id row xs other)

order-lacks :
    (id : ℕ) (xs : List ProviderConfig)
    → find_row ProviderConfig.id id xs ≡ none
    → find_row ProviderConfig.id id (order_newest xs) ≡ none
unfolding order_newest find_row
order-lacks id [] h = refl
order-lacks id (x ∷ xs) h = elim (Bool-cases (x.id == id)) [
  | inl same ↦ ground (arith, h, same)
  | inr other ↦
      insert-lacks id x (order_newest xs) other (order-lacks id xs (ground (arith, h, other)))
]

select-lacks :
    (id : ℕ) (xs : List ProviderConfig)
    → find_row ProviderConfig.id id xs ≡ none
    → find_row ProviderConfig.id id (select_where is_enabled xs) ≡ none
unfolding select_where find_row
select-lacks id [] h = refl
select-lacks id (x ∷ xs) h = ground (arith, h, select-lacks id xs)

disabled-lacks :
    (now : DateTime) (id : ℕ) (rows : List ProviderConfig)
    → Distinct ProviderConfig.id rows
    → find_row ProviderConfig.id id
        (select_where is_enabled (update_row ProviderConfig.id id (disabled now) rows))
      ≡ none
unfolding select_where find_row update_row
disabled-lacks now id [] d = refl
disabled-lacks now id (x ∷ xs) d = elim (Bool-cases (x.id == id)) [
  | inl same ↦ rw same (select-lacks id xs (rw ((==_iff x.id id).0 same) at d.0))
  | inr other ↦ rw other (ground (arith, other, disabled-lacks now id xs d.1))
]

-- While the configurations have distinct ids, one that was disabled is not among the enabled ones
-- that are listed.
pub disabled_not_listed :
    (now : DateTime) (id : ℕ) (rows : List ProviderConfig)
    → Distinct ProviderConfig.id rows
    → find_row ProviderConfig.id id
        (list_enabled_provider_configs (disable_provider_config now id rows))
      ≡ none
unfolding list_enabled_provider_configs disable_provider_config
disabled_not_listed now id rows d = order-lacks id _ (disabled-lacks now id rows d)
