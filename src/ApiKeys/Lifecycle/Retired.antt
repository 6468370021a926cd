-- ===== src/ApiKeys/Lifecycle/Retired.antt =====
-- A key that is revoked or rotated.
use network_mcp.Base.{
  ◌≡◌, refl, ℕ, false, not, String, str_discrete, Option, none, some, List, Time, if_split,
}
use mathlib.Core.Path.{subst⁻¹}
use network_mcp.Base.Text.{drop_prefix, is_some}
use network_mcp.Dict.Laws.{get-put_self}
use network_mcp.ApiKeys.{
  ApiKey, ApiKeyManager, new_key, generate_key, validate_key, validate_id, validate_found,
  revoke_key, deactivate, rotate_key, rotate_found,
}
use network_mcp.ApiKeys.Lifecycle.{
  key_at, id_at, IsOther, IsDead, Step, generate, validate, revoke, rotate, Reach, here, next,
  add_key-IsDead, validate_key-IsDead, deactivate-IsDead,
}

module _ (hash_key : String → String) where
  generate_key-IsDead :
      (h i : String) (now : Time) (token name : String) (scopes : List String)
      (tenant_id : Option String) (ttl_days : Option ℕ) (m : ApiKeyManager)
      → IsOther hash_key h i token m
      → IsDead h i m
      → IsDead h i (generate_key hash_key now token name scopes tenant_id ttl_days m).0
  unfolding generate_key new_key
  generate_key-IsDead h i now token name scopes tenant_id ttl_days m other d =
      add_key-IsDead hash_key h i _ m other.other_id other.other_hash d

  rotate_found-IsDead :
      (h i : String) (now : Time) (token j : String) (m : ApiKeyManager) (o : Option ApiKey)
      → IsOther hash_key h i token m
      → IsDead h i (deactivate hash_key j m o).0
      → IsDead h i (rotate_found hash_key now token j m o).0
  unfolding rotate_found
  rotate_found-IsDead h i now token j m none other d = unfold deactivate in d
  rotate_found-IsDead h i now token j m (some key) other d =
      generate_key-IsDead h i now token key.name key.scopes key.tenant_id none _
        (record { other_id = other.other_id; other_hash = other.other_hash }) d

  Step-IsDead :
      (h i : String) {m n : ApiKeyManager} → Step hash_key h i m n → IsDead h i m → IsDead h i n
  Step-IsDead h i {m} (generate now token name scopes tenant_id ttl_days other) d =
      generate_key-IsDead h i now token name scopes tenant_id ttl_days m other d
  Step-IsDead h i {m} (validate now raw_key) d = validate_key-IsDead hash_key h i now raw_key m d
  Step-IsDead h i {m} (revoke j) d = unfold revoke_key in deactivate-IsDead hash_key h i j m _ d
  Step-IsDead h i {m} (rotate now token j other) d =
      unfold rotate_key in
      rotate_found-IsDead h i now token j m _ other (deactivate-IsDead hash_key h i j m _ d)

  Reach-IsDead :
      (h i : String) {m n : ApiKeyManager} → Reach hash_key h i m n → IsDead h i m → IsDead h i n
  Reach-IsDead h i here d = d
  Reach-IsDead h i (next r s) d = Step-IsDead h i s (Reach-IsDead h i r d)

  -- How a key is taken out of use.
  pub data Retired (h i : String) (m : ApiKeyManager) : ApiKeyManager → Type 0 where
    revoked : Retired h i m (revoke_key hash_key i m).0
    rotated :
        (now : Time) (token : String)
        → IsOther hash_key h i token m
        → Retired h i m (rotate_key hash_key now token i m).0

  deactivated-IsDead :
      (h i : String) (m : ApiKeyManager) (key : ApiKey)
      → id_at h m ≡ some i
      → IsDead h i (deactivate hash_key i m (some key)).0
  unfolding deactivate
  deactivated-IsDead h i m key index = record {
    index = index;
    key = record key { is_active = false };
    held = get-put_self str_discrete i (record key { is_active = false }) m.keys;
    inactive = refl;
  }

  Retired-IsDead :
      (h i : String) (m m' : ApiKeyManager) (key : ApiKey)
      → id_at h m ≡ some i
      → key_at i m ≡ some key
      → Retired h i m m'
      → IsDead h i m'
  Retired-IsDead h i m _ key index held revoked =
      unfold revoke_key in
      subst⁻¹ (λ o. IsDead h i (deactivate hash_key i m o).0) held
        (deactivated-IsDead h i m key index)
  Retired-IsDead h i m _ key index held (rotated now token other) =
      unfold rotate_key in
      subst⁻¹ (λ o. IsDead h i (rotate_found hash_key now token i m o).0) held
        (rotate_found-IsDead h i now token i m (some key) other
          (deactivated-IsDead h i m key index))

  validate_key-dead :
      (now : Time) (raw_key i : String) (m : ApiKeyManager)
      → IsDead (hash_key raw_key) i m
      → validate_key hash_key now raw_key m ≡ (m, none)
  unfolding validate_key validate_id validate_found
  validate_key-dead now raw_key i m d =
      if_split (λ x. x ≡ (m, none)) (not (is_some (drop_prefix m.prefix raw_key))) (λ e. refl)
        (λ e. rw d.index (rw d.held (rw d.inactive refl)))

  -- A key that the manager holds under its hash is revoked or rotated: after that, whatever is
  -- called, the key is never valid again, and a call with it changes nothing, as long as no new key
  -- (that of the rotation included) gets its id, which is the prefix and eight characters of the
  -- token, or its hash.
  pub Reach-Retired :
      {m m' n : ApiKeyManager} (raw_key i : String) (key : ApiKey) (now : Time)
      → id_at (hash_key raw_key) m ≡ some i
      → key_at i m ≡ some key
      → Retired (hash_key raw_key) i m m'
      → Reach hash_key (hash_key raw_key) i m' n
      → validate_key hash_key now raw_key n ≡ (n, none)
  Reach-Retired {m} {m'} {n} raw_key i key now index held retired r =
      validate_key-dead now raw_key i n (
        Reach-IsDead (hash_key raw_key) i r
          (Retired-IsDead (hash_key raw_key) i m m' key index held retired))
