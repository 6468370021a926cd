-- ===== src/ApiKeys/Tests.antt =====
-- A key from its creation to its end, and the theorems at concrete inputs. A text is its own hash.
use network_mcp.Base.{
  ◌≡◌, ◌≢◌, refl, Bool, true, String, none, some, [], ◌∷◌, false, str_discrete, if◌then◌else◌,
}
use network_mcp.Base.Text.{prepend, is_some, drop_prefix}
use mathlib.Core.Path.{subst}
use network_mcp.Dict
use network_mcp.ApiKeys.{
  ApiKey, ApiKeyManager, generate_key, new_key, add_key, first_chars, validate_key, revoke_key,
  deactivate,
}
use network_mcp.ApiKeys.Lifecycle.{key_at, id_at, IsOther, here, next, generate}
use network_mcp.ApiKeys.Lifecycle.Retired.{revoked, Reach-Retired}
use network_mcp.ApiKeys.Lifecycle.Validated.{lasts, end_of, generate_key-validate_key}

abbrev same : String → String
same s = s

abbrev no_keys : ApiKeyManager
no_keys = record { prefix = "nmcp_"; keys = []; hash_index = [] }

abbrev first : ApiKeyManager × String × ApiKey
first = generate_key same 5 "11112222aa" "ci" ("network:read" ∷ []) none none no_keys

generate_key-validate_key_example : (validate_key same 9 first.1 first.0).1 ≡ (
    if lasts 5 none 9
    then some (record {
      key_id = first_chars 13 "nmcp_11112222aa";
      key_hash = "nmcp_11112222aa";
      name = "ci";
      scopes = "network:read" ∷ [];
      tenant_id = none;
      created_at = 5;
      expires_at = end_of 5 none;
      last_used = some 9;
      is_active = true;
    })
    else none)
unfolding prepend
generate_key-validate_key_example =
    generate_key-validate_key same 5 9 "11112222aa" "ci" ("network:read" ∷ []) none none no_keys

first_index : id_at "nmcp_11112222aa" first.0 ≡ some "nmcp_11112222"
unfolding generate_key add_key new_key first_chars prepend Dict.put Dict.get str_discrete
first_index = refl

first_held : key_at "nmcp_11112222" first.0 ≡ some first.2
unfolding generate_key add_key new_key first_chars prepend Dict.put Dict.get str_discrete
first_held = refl

abbrev revoked_first : ApiKeyManager
revoked_first = (revoke_key same "nmcp_11112222" first.0).0

abbrev Holds : Bool → Type 0
Holds true = Unit
Holds false = ⊥

second-IsOther : IsOther same "nmcp_11112222aa" "nmcp_11112222" "33334444bb" revoked_first
unfolding is_some drop_prefix revoke_key deactivate generate_key add_key new_key first_chars prepend
    Dict.put Dict.get str_discrete
second-IsOther = record {
  other_id = λ e. subst (λ s. Holds (is_some (drop_prefix "nmcp_3" s))) e tt;
  other_hash = λ e. subst (λ s. Holds (is_some (drop_prefix "nmcp_3" s))) e tt;
}

abbrev second : ApiKeyManager × String × ApiKey
second = generate_key same 6 "33334444bb" "cd" ("network:write" ∷ []) none none revoked_first

Reach-Retired_example : validate_key same 9 "nmcp_11112222aa" second.0 ≡ (second.0, none)
Reach-Retired_example =
    Reach-Retired same {m = first.0} {m' = revoked_first} "nmcp_11112222aa" "nmcp_11112222" first.2
      9 first_index first_held revoked
      (next here (generate 6 "33334444bb" "cd" ("network:write" ∷ []) none none second-IsOther))

-- A token that starts like that of the first key.
abbrev third : ApiKeyManager × String × ApiKey
third = generate_key same 7 "11112222zz" "ops" ("network:admin" ∷ []) none none revoked_first

old_index : id_at "nmcp_11112222aa" revoked_first ≡ some third.2.key_id
unfolding revoke_key deactivate generate_key add_key new_key first_chars prepend Dict.put Dict.get
    str_discrete
old_index = refl

hashes_apart : ◌≢◌ {A = String} "nmcp_11112222zz" "nmcp_11112222aa"
unfolding is_some drop_prefix
hashes_apart e = subst (λ s. Holds (is_some (drop_prefix "nmcp_11112222z" s))) e tt
