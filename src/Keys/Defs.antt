-- ===== src/Keys/Defs.antt =====
-- `create_api_key` and `revoke_api_key` of backend/src/identity/application/services.py on the rows of
-- `PostgresAPIKeyRepository` (backend/src/identity/infrastructure/repositories.py), and
-- `get_current_enterprise_from_api_key` of backend/src/identity/api/dependencies.py.
-- `hmac secret raw` is the hexadecimal HMAC-SHA256; `env` is JWT_SECRET_KEY of the environment; the raw key
-- and its id are random, and arguments here. An operation that raises before its commit changes no row.
use cadencia_a2a_platform.Prelude.{
  ℕ, Bool, true, false, not, ◌&&◌, ◌||◌, Option, none, some, List, [], ◌∷◌, ◌++◌, map, ltb, ◌==◌,
  if◌then◌else◌, length,
}
use cadencia_a2a_platform.Prelude.Texts.{Text, codes, text_eq}
use cadencia_a2a_platform.Errors.{DomainError, not_found, policy_violation, Result, ok, err}

pub data UserRole : Type 0 where
  admin member buyer seller treasury_manager compliance_officer auditor : UserRole

pub record User : Type 0 where
  pub id : ℕ
  pub updated_at : ℕ
  pub enterprise_id : ℕ
  pub email : Text
  pub password : Text
  pub full_name : Option Text
  pub role : UserRole
  pub last_login : Option ℕ
  pub is_active : Bool

-- The columns of `api_keys` that the code sets.
pub record ApiKey : Type 0 where
  pub id : ℕ
  pub enterprise_id : ℕ
  pub name : Text
  pub key_hash : Text
  pub is_active : Bool

pub record Store : Type 0 where
  pub users : List User
  pub keys : List ApiKey

-- `broke` is an exception of the database.
pub data Reply : Type 0 where
  created : ℕ → Text → Option Text → Reply
  revoked broke : Reply
  raised : DomainError → Reply

unfoldable pub get_by_id : ℕ → List User → Option User
get_by_id user [] = none
get_by_id user (u ∷ us) = let rest = get_by_id user us in if u.id == user then some u else rest

abbrev pub belongs : ℕ → Option User → Bool
belongs enterprise none = false
belongs enterprise (some u) = u.enterprise_id == enterprise

abbrev pub creating_secret : Option Text → Text
creating_secret none = codes "dev-secret-change-in-production"
creating_secret (some secret) = secret

abbrev pub checking_secret : Option Text → Text
checking_secret none = codes "dev-insecure-secret-change-me"
checking_secret (some secret) = secret

abbrev pub name_of : Option Text → Text
name_of none = codes "API Key"
name_of (some []) = codes "API Key"
name_of (some (c ∷ label)) = c ∷ label

-- `id` is the primary key, `key_hash` is unique, and a name has at most 100 characters.
unfoldable pub has_id : ℕ → List ApiKey → Bool
has_id key [] = false
has_id key (r ∷ rs) = (r.id == key) || has_id key rs

unfoldable pub has_hash : Text → List ApiKey → Bool
has_hash hash [] = false
has_hash hash (r ∷ rs) = text_eq r.key_hash hash || has_hash hash rs

unfoldable pub save : ApiKey → Store → Option Store
unfolding has_id has_hash
save r s =
    if has_id r.id s.keys || has_hash r.key_hash s.keys || ltb 100 (length r.name)
    then none
    else some (record s { keys = s.keys ++ r ∷ [] })

abbrev pub created_reply : ℕ → Text → Option Text → Store → Option Store → Reply × Store
created_reply key raw label s none = (broke, s)
created_reply key raw label s (some t) = (created key raw label, t)

unfoldable pub create_api_key :
    (Text → Text → Text) → Option Text → ℕ → Text → ℕ → ℕ → Option Text → Store → Reply × Store
unfolding get_by_id save
create_api_key hmac env key raw user enterprise label s =
    let row : ApiKey = record {
      id = key;
      enterprise_id = enterprise;
      name = name_of label;
      key_hash = hmac (creating_secret env) raw;
      is_active = true;
    } in
    if not (belongs enterprise (get_by_id user s.users))
    then (raised policy_violation, s)
    else created_reply key raw label s (save row s)

abbrev pub is_row : ℕ → ℕ → ApiKey → Bool
is_row key enterprise r = (r.id == key) && (r.enterprise_id == enterprise)

unfoldable pub rows_of : ℕ → ℕ → List ApiKey → List ApiKey
rows_of key enterprise [] = []
rows_of key enterprise (r ∷ rs) =
    let rest = rows_of key enterprise rs in if is_row key enterprise r then r ∷ rest else rest

unfoldable pub switch_off : ℕ → ℕ → List ApiKey → List ApiKey
switch_off key enterprise [] = []
switch_off key enterprise (r ∷ rs) =
    (if is_row key enterprise r then record r { is_active = false } else r)
    ∷ switch_off key enterprise rs

-- `scalar_one_or_none` raises where there are two rows.
abbrev pub revoking : ℕ → ℕ → List ApiKey → Store → Reply × Store
revoking key enterprise [] s = (raised not_found, s)
revoking key enterprise (r ∷ []) s = (revoked, record s { keys = switch_off key enterprise s.keys })
revoking key enterprise (r ∷ t ∷ rs) s = (broke, s)

unfoldable pub revoke_api_key : ℕ → ℕ → ℕ → Store → Reply × Store
unfolding get_by_id rows_of switch_off
revoke_api_key key user enterprise s =
    if not (belongs enterprise (get_by_id user s.users))
    then (raised policy_violation, s)
    else revoking key enterprise (rows_of key enterprise s.keys) s

-- What a request with a header `X-API-Key` gets: the key's id, enterprise and name, 401, or an exception.
pub data Entry : Type 0 where
  known : ℕ → ℕ → Text → Entry
  unauthorized failed : Entry

unfoldable pub get_by_hash : Text → List ApiKey → List ApiKey
get_by_hash hash [] = []
get_by_hash hash (r ∷ rs) =
    let rest = get_by_hash hash rs in
    if text_eq r.key_hash hash && r.is_active then r ∷ rest else rest

abbrev pub entry : List ApiKey → Entry
entry [] = unauthorized
entry (r ∷ []) = known r.id r.enterprise_id r.name
entry (r ∷ t ∷ rs) = failed

unfoldable pub enter : (Text → Text → Text) → Option Text → Option Text → Store → Entry
unfolding get_by_hash
enter hmac env none s = unauthorized
enter hmac env (some []) s = unauthorized
enter hmac env (some (c ∷ raw)) s =
    entry (get_by_hash (hmac (checking_secret env) (c ∷ raw)) s.keys)

-- A request, with the random choices of the code.
pub data Request : Type 0 where
  create_it : ℕ → Text → ℕ → ℕ → Option Text → Request
  revoke_it : ℕ → ℕ → ℕ → Request

unfoldable pub serve : (Text → Text → Text) → Option Text → Request → Store → Reply × Store
unfolding create_api_key revoke_api_key
serve hmac env (create_it key raw user enterprise label) s =
    create_api_key hmac env key raw user enterprise label s
serve hmac env (revoke_it key user enterprise) s = revoke_api_key key user enterprise s

unfoldable pub run : (Text → Text → Text) → Option Text → List Request → Store → Store
unfolding serve
run hmac env [] s = s
run hmac env (q ∷ qs) s = run hmac env qs (serve hmac env q s).1

-- `list_by_enterprise`, and `list_api_keys` of the service, which returns the rows without their hashes.
unfoldable pub list_by_enterprise : ℕ → List ApiKey → List ApiKey
list_by_enterprise enterprise [] = []
list_by_enterprise enterprise (r ∷ rs) =
    let rest = list_by_enterprise enterprise rs in
    if r.enterprise_id == enterprise then r ∷ rest else rest

abbrev pub metadata : ApiKey → ℕ × Text × Bool
metadata r = (r.id, r.name, r.is_active)

unfoldable pub list_api_keys : ℕ → ℕ → Store → Result (List (ℕ × Text × Bool))
unfolding get_by_id list_by_enterprise
list_api_keys user enterprise s =
    if not (belongs enterprise (get_by_id user s.users))
    then err policy_violation
    else ok (map metadata (list_by_enterprise enterprise s.keys))
