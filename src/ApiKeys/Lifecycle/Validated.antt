-- ===== src/ApiKeys/Lifecycle/Validated.antt =====
-- What a new key is good for.
use Prim.Native.String.{count}
use network_mcp.Base.{
  ◌≡◌, ◌≢◌, refl, ◌∙◌, ap, ℕ, zero, suc, ◌+◌, ◌*◌, Bool, true, false, not, leb, String,
  str_discrete, Option, none, some, List, Time, arith, if◌then◌else◌, Bool-cases, inl, inr,
}
use network_mcp.Base.Text.{prepend, is_some, drop_prefix-prepend}
use network_mcp.Dict.Laws.{get-put_self, get-put_ne}
use network_mcp.ApiKeys.{
  ApiKey, ApiKeyManager, is_past, is_expired, expiry, first_chars, new_key, add_key, generate_key,
  validate_key, validate_id, validate_found,
}
use network_mcp.ApiKeys.Lifecycle.{key_at, id_at}

-- The last instant of a key that is made now, and whether it is good at a later time.
abbrev pub end_of : Time → Option ℕ → Option Time
end_of now none = none
end_of now (some zero) = none
end_of now (some (suc days)) = some (now + suc days * 86_400_000_000_000)

abbrev until : Option Time → Time → Bool
until none later = true
until (some last) later = leb later last

abbrev pub lasts : Time → Option ℕ → Time → Bool
lasts now ttl_days later = until (end_of now ttl_days) later

expiry-end_of : (now : Time) (ttl_days : Option ℕ) → expiry now ttl_days ≡ end_of now ttl_days
unfolding expiry
expiry-end_of now none = refl
expiry-end_of now (some zero) = refl
expiry-end_of now (some (suc days)) = ground arith

past_until : (later : Time) (o : Option Time) → is_past later o ≡ not (until o later)
unfolding is_past
past_until later none = refl
past_until later (some last) = ground arith

expires_with :
    (now later : Time) (ttl_days : Option ℕ)
    → is_past later (expiry now ttl_days) ≡ not (lasts now ttl_days later)
expires_with now later ttl_days =
    ap (is_past later) (expiry-end_of now ttl_days) ∙ past_until later (end_of now ttl_days)

module _ (hash_key : String → String) where
  -- A key that is held under its hash, active and not expired, is valid.
  validate_held :
      (later : Time) (token h i : String) (key : ApiKey) (m : ApiKeyManager)
      → hash_key (prepend m.prefix token) ≡ h
      → id_at h m ≡ some i
      → key_at i m ≡ some key
      → key.is_active ≡ true
      → is_expired later key ≡ false
      → (validate_key hash_key later (prepend m.prefix token) m).1
        ≡ some (record key { last_used = some later })
  unfolding validate_key validate_id validate_found is_some
  validate_held later token h i key m same index held active young =
      rw (drop_prefix-prepend m.prefix token)
        (rw same (rw index (rw held (rw active (rw young refl)))))

  -- A key that is held under its hash and has expired is not valid.
  validate_expired :
      (later : Time) (token h i : String) (key : ApiKey) (m : ApiKeyManager)
      → hash_key (prepend m.prefix token) ≡ h
      → id_at h m ≡ some i
      → key_at i m ≡ some key
      → key.is_active ≡ true
      → is_expired later key ≡ true
      → (validate_key hash_key later (prepend m.prefix token) m).1 ≡ none
  unfolding validate_key validate_id validate_found is_some
  validate_expired later token h i key m same index held active old =
      rw (drop_prefix-prepend m.prefix token)
        (rw same (rw index (rw held (rw active (rw old refl)))))

  -- Whatever the manager held before, the raw text of a new key is valid for the given number of
  -- days, the last instant included, and not after them; without a number of days, or with 0, it is
  -- valid for ever. What is returned has the id (the prefix and eight characters of the token), the
  -- hash of the raw text, the name, scopes and tenant that were asked for, the times of the creation
  -- and of the expiry, and the time of the use.
  pub generate_key-validate_key :
      (now later : Time) (token name : String) (scopes : List String) (tenant_id : Option String)
      (ttl_days : Option ℕ) (m : ApiKeyManager)
      → let (m', raw_key, _) = generate_key hash_key now token name scopes tenant_id ttl_days m in
        (validate_key hash_key later raw_key m').1 ≡ (
          if lasts now ttl_days later
          then some (record {
            key_id = first_chars (count m.prefix + 8) (prepend m.prefix token);
            key_hash = hash_key (prepend m.prefix token);
            name = name;
            scopes = scopes;
            tenant_id = tenant_id;
            created_at = now;
            expires_at = end_of now ttl_days;
            last_used = some later;
            is_active = true;
          })
          else none)
  unfolding generate_key add_key new_key is_expired
  generate_key-validate_key now later token name scopes tenant_id ttl_days m =
      let (m', raw_key, key) = generate_key hash_key now token name scopes tenant_id ttl_days m in
      let index = get-put_self str_discrete (hash_key raw_key) key.key_id m.hash_index in
      let held = get-put_self str_discrete key.key_id key m.keys in
      elim (Bool-cases (lasts now ttl_days later)) [
        | inl young ↦ rw young (
            validate_held later token (hash_key raw_key) key.key_id key m' refl index held refl
              (expires_with now later ttl_days ∙ ap not young)
            ∙ ap (λ (e : Option Time). some (record key { expires_at = e; last_used = some later }))
                (expiry-end_of now ttl_days))
        | inr old ↦ rw old (
            validate_expired later token (hash_key raw_key) key.key_id key m' refl index held refl
              (expires_with now later ttl_days ∙ ap not old))
      ]

  -- A new key that gets the id of an older one (the prefix and eight characters of the token) takes its
  -- place: the raw text of the older key, revoked or not, is then valid as the new key, with the new
  -- key's scopes and tenant.
  pub generate_key_collides :
      (now later : Time) (token other name : String) (scopes : List String)
      (tenant_id : Option String) (ttl_days : Option ℕ) (m : ApiKeyManager)
      → let (m', raw_key, key) = generate_key hash_key now token name scopes tenant_id ttl_days m in
        id_at (hash_key (prepend m.prefix other)) m ≡ some key.key_id
        → hash_key raw_key ≢ hash_key (prepend m.prefix other)
        → is_expired later key ≡ false
        → (validate_key hash_key later (prepend m.prefix other) m').1
          ≡ some (record key { last_used = some later })
  unfolding generate_key add_key new_key
  generate_key_collides now later token other name scopes tenant_id ttl_days m index apart young =
      let (m', raw_key, key) = generate_key hash_key now token name scopes tenant_id ttl_days m in
      validate_held later other (hash_key (prepend m.prefix other)) key.key_id key m' refl
        (get-put_ne str_discrete (hash_key raw_key) (hash_key (prepend m.prefix other)) key.key_id
            m.hash_index apart
          ∙ index)
        (get-put_self str_discrete key.key_id key m.keys) refl young
