-- ===== src/ProjectKeys/Verifying.antt =====
-- A key that was issued is accepted with its own secret, until it is revoked.
use conexus.Prelude.{ap, ℕ, ◌≡◌, refl, true, false, Option, none, some, ◌∙◌}
use conexus.Text.{Text, text_eq, is_blank}
use conexus.Text.Laws.{text_eq_refl}
use conexus.Text.Splitting.{lacks, split-append, split-lacks}
use conexus.Clock.{DateTime}
use conexus.Table.{find_row, find_where}
use conexus.Table.Laws.{find_where-append, update_row-append}
use conexus.Models.{Project, ProjectApiKey, Db}
use conexus.ProjectKeys.{
  IssuedKey, touch, parse_parts, parse_key, plaintext_of, new_key, joined, create_api_key,
  verify_row, verify_api_key, revoke_api_key,
}

-- Hexadecimal texts have no underscore.
parse_key-plaintext :
    (prefix secret : Text)
    → lacks b'_' prefix ≡ true
    → lacks b'_' secret ≡ true
    → is_blank prefix ≡ false
    → is_blank secret ≡ false
    → parse_key (plaintext_of prefix secret) ≡ some (prefix, secret)
unfolding parse_key parse_parts text_eq
parse_key-plaintext prefix secret no_prefix no_secret p s =
    rw (split-append b'_' prefix secret no_prefix, split-lacks b'_' secret no_secret, p, s) refl

-- What is looked up for a key that was parsed.
verify_of_found :
    (hash_secret : Text → Text) (now : DateTime) (token prefix secret : Text) (project : Project)
    (k : ProjectApiKey) (db : Db)
    → parse_key token ≡ some (prefix, secret)
    → find_where (joined prefix db) db.api_keys ≡ some k
    → find_row Project.id k.project_id db.projects ≡ some project
    → verify_api_key hash_secret now token db ≡ verify_row hash_secret now secret project k db
unfolding verify_api_key
verify_of_found hash_secret now token prefix secret project k db parsed found known =
    rw (verify_api_key, parsed, found, known) refl

module _ (hash_secret : Text → Text) (id : ℕ) (now : DateTime) (project : Project)
    (label : Option Text) (prefix secret : Text) (db : Db)
    (known : find_row Project.id project.id db.projects ≡ some project)
    (free : find_where (joined prefix db) db.api_keys ≡ none) where
  abbrev key : ProjectApiKey
  key = new_key hash_secret id now project label prefix secret

  abbrev created : IssuedKey × Db
  created = create_api_key hash_secret id now project label prefix secret db

  is_joined :
      (k : ProjectApiKey)
      → k.prefix ≡ prefix
      → k.project_id ≡ project.id
      → joined prefix db k ≡ true
  is_joined k at_prefix at_project = rw (at_prefix, text_eq_refl prefix, at_project, known) refl

  found_created : find_where (joined prefix created.1) created.1.api_keys ≡ some key
  unfolding create_api_key
  found_created =
      find_where-append (joined prefix db) db.api_keys key free (is_joined key refl refl)

  found_revoked :
      (later : DateTime)
      → find_row ProjectApiKey.id id db.api_keys ≡ none
      → find_where (joined prefix db) (revoke_api_key later id created.1).api_keys
        ≡ some (record key { revoked_at = some later })
  unfolding create_api_key revoke_api_key
  found_revoked later new =
      let gone : ProjectApiKey → ProjectApiKey = λ k. record k { revoked_at = some later } in
      rw (update_row-append ProjectApiKey.id id gone db.api_keys key new refl) (
        find_where-append (joined prefix db) db.api_keys (gone key) free
          (is_joined (gone key) refl refl))

  -- With a hexadecimal prefix and secret, for a known project, a new id, and a prefix of no key yet:
  -- the plaintext of the new key is accepted and gives back the project and the key, a secret of
  -- another hash is not, and once the key is revoked the plaintext is not accepted any more.
  pub issued_key_verifies :
      (later : DateTime) (wrong : Text)
      → find_row ProjectApiKey.id id db.api_keys ≡ none
      → lacks b'_' prefix ≡ true
      → lacks b'_' secret ≡ true
      → lacks b'_' wrong ≡ true
      → is_blank prefix ≡ false
      → is_blank secret ≡ false
      → is_blank wrong ≡ false
      → text_eq (hash_secret secret) (hash_secret wrong) ≡ false
      → ((verify_api_key hash_secret later created.0.plaintext created.1).0
          ≡ some (project, touch later created.0.api_key))
        × (verify_api_key hash_secret later (plaintext_of prefix wrong) created.1
            ≡ (none, created.1))
        × ((verify_api_key hash_secret later created.0.plaintext
              (revoke_api_key later id created.1)).0
            ≡ none)
  unfolding create_api_key verify_row revoke_api_key
  issued_key_verifies later wrong new no_prefix no_secret no_wrong p s w differs =
      let parsed = parse_key-plaintext prefix secret no_prefix no_secret p s in
      let parsed' = parse_key-plaintext prefix wrong no_prefix no_wrong p w in
      let revoked = revoke_api_key later id created.1 in
      (
        ap (λ (o : Option (Project × ProjectApiKey) × Db). o.0)
              (verify_of_found hash_secret later created.0.plaintext prefix secret project key
                created.1 parsed found_created known)
            ∙ rw (text_eq_refl (hash_secret secret)) refl,
        verify_of_found hash_secret later (plaintext_of prefix wrong) prefix wrong project key
              created.1 parsed' found_created known
            ∙ rw differs refl,
        ap (λ (o : Option (Project × ProjectApiKey) × Db). o.0)
            (verify_of_found hash_secret later created.0.plaintext prefix secret project
              (record key { revoked_at = some later }) revoked parsed (found_revoked later new)
              known),
      )
