-- ===== src/ApiKeys/Lifecycle.antt =====
-- The keys of a manager over its operations.
pub mod Retired
pub mod Validated
use Prim.Native.String.{count}
use network_mcp.Base.{
  ◌≡◌, ◌≢◌, refl, sym, ap, ◌∙◌, ℕ, ◌+◌, Bool, true, false, not, String, str_discrete, Option, none,
  some, List, Time, if_split, if_true, Option-cases, inl, inr,
}
use mathlib.Core.Path.{subst, subst⁻¹}
use mathlib.Core.Option.{some-injective}
use network_mcp.Base.Text.{prepend, drop_prefix, is_some, drop_prefix-prepend}
use network_mcp.Dict
use network_mcp.Dict.Laws.{get-put_self, get-put_ne}
use network_mcp.ApiKeys.{
  ApiKey, ApiKeyManager, is_past, is_expired, new_key, add_key, generate_key, validate_key,
  validate_id, validate_found, revoke_key, deactivate, rotate_key, rotate_found, expiry,
  first_chars,
}

abbrev pub key_at : String → ApiKeyManager → Option ApiKey
key_at i m = Dict.get str_discrete i m.keys

abbrev pub id_at : String → ApiKeyManager → Option String
id_at h m = Dict.get str_discrete h m.hash_index

-- The hash leads to a key that is not active.
pub record IsDead (h i : String) (m : ApiKeyManager) : Type 0 where
  pub index : id_at h m ≡ some i
  pub key : ApiKey
  pub held : key_at i m ≡ some key
  pub inactive : key.is_active ≡ false

module _ (hash_key : String → String) where
  -- The key that is made with this token has neither this hash nor this id.
  pub record IsOther (h i token : String) (m : ApiKeyManager) : Type 0 where
    pub other_id : first_chars (count m.prefix + 8) (prepend m.prefix token) ≢ i
    pub other_hash : hash_key (prepend m.prefix token) ≢ h

  -- One call; a new key gets neither the hash h nor the id i.
  pub data Step (h i : String) (m : ApiKeyManager) : ApiKeyManager → Type 0 where
    generate :
        (now : Time) (token name : String) (scopes : List String) (tenant_id : Option String)
        (ttl_days : Option ℕ)
        → IsOther h i token m
        → Step h i m (generate_key hash_key now token name scopes tenant_id ttl_days m).0
    validate : (now : Time) (raw_key : String) → Step h i m (validate_key hash_key now raw_key m).0
    revoke : (key_id : String) → Step h i m (revoke_key hash_key key_id m).0
    rotate :
        (now : Time) (token key_id : String)
        → IsOther h i token m
        → Step h i m (rotate_key hash_key now token key_id m).0

  pub data Reach (h i : String) (m : ApiKeyManager) : ApiKeyManager → Type 0 where
    here : Reach h i m m
    next : {n o : ApiKeyManager} → Reach h i m n → Step h i n o → Reach h i m o

  pub add_key-IsDead :
      (h i : String) (key : ApiKey) (m : ApiKeyManager)
      → key.key_id ≢ i
      → key.key_hash ≢ h
      → IsDead h i m
      → IsDead h i (add_key hash_key key m)
  unfolding add_key
  add_key-IsDead h i key m other_id other_hash d = record {
    index = get-put_ne str_discrete key.key_hash h key.key_id m.hash_index other_hash ∙ d.index;
    key = d.key;
    held = get-put_ne str_discrete key.key_id i key m.keys other_id ∙ d.held;
    inactive = d.inactive;
  }

  -- A key is written back, and an inactive one stays inactive.
  pub write-IsDead :
      (h i j : String) (key : ApiKey) (m : ApiKeyManager)
      → (j ≡ i → key.is_active ≡ false)
      → IsDead h i m
      → IsDead h i (record m { keys = Dict.put str_discrete j key m.keys })
  write-IsDead h i j key m f d = elim (str_discrete j i) [
    | yes e ↦ record {
      index = d.index;
      key = key;
      held =
          subst (λ k. key_at k (record m { keys = Dict.put str_discrete j key m.keys }) ≡ some key)
            e (get-put_self str_discrete j key m.keys);
      inactive = f e;
    }
    | no n ↦ record {
      index = d.index;
      key = d.key;
      held = get-put_ne str_discrete j i key m.keys n ∙ d.held;
      inactive = d.inactive;
    }
  ]

  same_key :
      (h i j : String) (key : ApiKey) (m : ApiKeyManager)
      → IsDead h i m
      → key_at j m ≡ some key
      → j ≡ i
      → key.is_active ≡ false
  same_key h i j key m d held e =
      subst (λ (k : ApiKey). k.is_active ≡ false)
        (some-injective _ _ (sym d.held ∙ sym (ap (λ k. key_at k m) e) ∙ held)) d.inactive

  validate_found-IsDead :
      (h i : String) (now : Time) (j : String) (m : ApiKeyManager) (o : Option ApiKey)
      → key_at j m ≡ o
      → IsDead h i m
      → IsDead h i (validate_found hash_key now j m o).0
  unfolding validate_found
  validate_found-IsDead h i now j m none held d = d
  validate_found-IsDead h i now j m (some key) held d =
      if_split (λ (x : ApiKeyManager × Option ApiKey). IsDead h i x.0) (not key.is_active) (λ e. d)
        (λ e.
          if_split (λ (x : ApiKeyManager × Option ApiKey). IsDead h i x.0) (is_expired now key)
            (λ f. d)
            (λ f.
              write-IsDead h i j (record key { last_used = some now }) m
                (same_key h i j key m d held) d))

  validate_id-IsDead :
      (h i : String) (now : Time) (m : ApiKeyManager) (o : Option String)
      → IsDead h i m
      → IsDead h i (validate_id hash_key now m o).0
  unfolding validate_id
  validate_id-IsDead h i now m none d = d
  validate_id-IsDead h i now m (some j) d = validate_found-IsDead h i now j m _ refl d

  pub validate_key-IsDead :
      (h i : String) (now : Time) (raw_key : String) (m : ApiKeyManager)
      → IsDead h i m
      → IsDead h i (validate_key hash_key now raw_key m).0
  unfolding validate_key
  validate_key-IsDead h i now raw_key m d =
      if_split (λ (x : ApiKeyManager × Option ApiKey). IsDead h i x.0)
        (not (is_some (drop_prefix m.prefix raw_key))) (λ e. d)
        (λ e. validate_id-IsDead h i now m _ d)

  pub deactivate-IsDead :
      (h i j : String) (m : ApiKeyManager) (o : Option ApiKey)
      → IsDead h i m
      → IsDead h i (deactivate hash_key j m o).0
  unfolding deactivate
  deactivate-IsDead h i j m none d = d
  deactivate-IsDead h i j m (some key) d =
      write-IsDead h i j (record key { is_active = false }) m (λ e. refl) d
