-- ===== src/Rbac.antt =====
-- src/network_mcp/rbac.py, check_scope of src/network_mcp/middleware.py, and is_feature_enabled of
-- src/network_mcp/feature_flags.py. A set of scopes is a list, of which only membership counts. The
-- library functions of Python that the source calls are the fields of Python.
pub mod Scopes
pub mod Hierarchy
pub mod Authorization
mod Tests
use network_mcp.Base.{
  ◌≡◌, Bool, true, false, not, ◌&&◌, ◌||◌, String, str_discrete, Option, none, some, List, [], ◌∷◌,
  ◌++◌, ite, if◌then◌else◌, in_list,
}
use network_mcp.Dict
use network_mcp.Dict.{Dict}
use Scopes.{scope_read, scope_write, scope_admin, tool_scopes, scope_hierarchy}

-- fnmatch.fnmatch(name, pattern), s.split(), s.strip(), and s.split("@", 1)[1] if "@" in s.
pub record Python : Type 0 where
  pub fnmatch : String → String → Bool
  pub split : String → List String
  pub strip : String → String
  pub after_at : String → Option String

-- A value of a claim, as far as the code looks at it: a text, a list with its texts, or another.
pub data Claim : Type 0 where
  text : String → Claim
  items : List String → Claim
  other : Claim

abbrev pub Claims : Type 0
Claims = Dict String Claim

unfoldable pub is_blank : Python → String → Bool
is_blank py s = ite (str_discrete (py.strip s) "") true false

unfoldable pub first_match : Python → String → Dict String String → Option String
first_match py tool_name [] = none
first_match py tool_name ((pattern, scope) ∷ rest) =
    let later = first_match py tool_name rest in
    if py.fnmatch tool_name pattern then some scope else later

unfoldable pub get_required_scope : Python → String → Option String
unfolding first_match tool_scopes
get_required_scope py tool_name = first_match py tool_name tool_scopes

unfoldable pub or_itself : String → Option (List String) → List String
or_itself scope (some implied) = implied
or_itself scope none = scope ∷ []

-- What one scope expands to.
unfoldable pub implied : String → List String
unfolding or_itself scope_hierarchy
implied scope = or_itself scope (Dict.get str_discrete scope scope_hierarchy)

unfoldable pub expand_scopes : List String → List String
unfolding implied
expand_scopes [] = []
expand_scopes (scope ∷ scopes) = implied scope ++ expand_scopes scopes

unfoldable pub scope_words : Python → Option Claim → List String
unfolding is_blank
scope_words py none = []
scope_words py (some (text s)) = if is_blank py s then [] else py.split s
scope_words py (some (items xs)) = []
scope_words py (some other) = []

unfoldable pub texts_of : Option Claim → List String
texts_of none = []
texts_of (some (text s)) = []
texts_of (some (items xs)) = xs
texts_of (some other) = []

unfoldable pub extract_scopes_from_token : Python → Claims → List String
unfolding scope_words texts_of
extract_scopes_from_token py claims =
    scope_words py (Dict.get str_discrete "scope" claims)
    ++ texts_of (Dict.get str_discrete "scopes" claims)
    ++ texts_of (Dict.get str_discrete "permissions" claims)

-- The text of a claim without the blanks around it, if there is one that is not blank.
unfoldable pub stripped : Python → Option Claim → Option String
unfolding is_blank
stripped py none = none
stripped py (some (text s)) = if is_blank py s then none else some (py.strip s)
stripped py (some (items xs)) = none
stripped py (some other) = none

unfoldable pub domain_of : Python → Option String → Option String
unfolding stripped
domain_of py none = none
domain_of py (some domain) = stripped py (some (text domain))

unfoldable pub sub_domain : Python → Option Claim → Option String
unfolding domain_of
sub_domain py none = none
sub_domain py (some (text sub)) = domain_of py (py.after_at sub)
sub_domain py (some (items xs)) = none
sub_domain py (some other) = none

unfoldable or_else : Option String → Option String → Option String
or_else (some s) t = some s
or_else none t = t

unfoldable pub extract_tenant_id : Python → Claims → Option String
unfolding or_else sub_domain
extract_tenant_id py claims = or_else (stripped py (Dict.get str_discrete "tenant_id" claims)) (
    or_else (stripped py (Dict.get str_discrete "org_id" claims))
      (sub_domain py (Dict.get str_discrete "sub" claims)))

-- A flag of the settings, and the flags; none stands for an exception on the way to them.
pub record FeatureFlag : Type 0 where
  pub enabled : Bool
  pub tenants : List String

unfoldable pub tenant_listed : Option String → List String → Bool
unfolding in_list
tenant_listed tenant_id [] = true
tenant_listed none (t ∷ ts) = false
tenant_listed (some tenant_id) (t ∷ ts) = in_list tenant_id (t ∷ ts)

unfoldable pub flag_enabled : Option FeatureFlag → Option String → Bool
unfolding tenant_listed
flag_enabled none tenant_id = false
flag_enabled (some flag) tenant_id =
    if flag.enabled then tenant_listed tenant_id flag.tenants else false

unfoldable pub is_feature_enabled : Dict String FeatureFlag → String → Option String → Bool
unfolding flag_enabled
is_feature_enabled flags feature_name tenant_id =
    flag_enabled (Dict.get str_discrete feature_name flags) tenant_id

-- The texts that check_authorization returns, with what they name.
pub data Message : Type 0 where
  feature_disabled : Message
  no_scope_required : Message
  has_scope : String → Message
  forbidden : String → List String → Message

unfoldable pub bypassed : Option FeatureFlag → Option String → Bool
unfolding flag_enabled
bypassed none tenant_id = false
bypassed (some flag) tenant_id = not (flag_enabled (some flag) tenant_id)

unfoldable pub rbac_bypassed : Option (Dict String FeatureFlag) → Option String → Bool
unfolding bypassed
rbac_bypassed none tenant_id = false
rbac_bypassed (some flags) tenant_id = bypassed (Dict.get str_discrete "rbac" flags) tenant_id

unfoldable pub check_required : List String → Option String → Bool × Message
unfolding in_list expand_scopes
check_required user_scopes none = (true, no_scope_required)
check_required user_scopes (some required) =
    if in_list required (expand_scopes user_scopes)
    then (true, has_scope required)
    else (false, forbidden required user_scopes)

unfoldable pub check_authorization :
    Python → Option (Dict String FeatureFlag) → String → Claims → Bool × Message
unfolding rbac_bypassed check_required get_required_scope extract_scopes_from_token
    extract_tenant_id
check_authorization py flags tool_name claims =
    if rbac_bypassed flags (extract_tenant_id py claims)
    then (true, feature_disabled)
    else check_required (extract_scopes_from_token py claims) (get_required_scope py tool_name)

-- check_scope of the middleware: none is its None, and a value is the error that names the scopes.
unfoldable pub check_scope : List String → String → Option (String × List String)
unfolding in_list
check_scope token_scopes required =
    if in_list scope_admin token_scopes
    then none
    else if ite (str_discrete required scope_read) true false
        && (in_list scope_read token_scopes || in_list scope_write token_scopes)
    then none
    else if ite (str_discrete required scope_write) true false && in_list scope_write token_scopes
    then none
    else some (required, token_scopes)

-- TenantDeviceFilter: the tenants of every device of the inventory.
abbrev pub TenantDeviceFilter : Type 0
TenantDeviceFilter = Dict String (List String)

unfoldable pub tenants_of : Option (List String) → List String
tenants_of none = []
tenants_of (some tenants) = tenants

-- The constructor: the `tenants` of a device, or none if the device has no such key or attribute.
unfoldable pub init_filter : Dict String (Option (List String)) → TenantDeviceFilter
unfolding tenants_of
init_filter [] = []
init_filter ((name, tenants) ∷ devices) = (name, tenants_of tenants) ∷ init_filter devices

unfoldable pub allowed_in : Option (List String) → String → Bool
unfolding in_list
allowed_in none tenant_id = true
allowed_in (some []) tenant_id = true
allowed_in (some (t ∷ ts)) tenant_id = in_list tenant_id (t ∷ ts)

unfoldable pub is_allowed : TenantDeviceFilter → String → Option String → Bool
unfolding allowed_in
is_allowed filter device none = true
is_allowed filter device (some tenant_id) =
    if ite (str_discrete tenant_id "") true false
    then true
    else allowed_in (Dict.get str_discrete device filter) tenant_id
