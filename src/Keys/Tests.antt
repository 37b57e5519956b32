-- ===== src/Keys/Tests.antt =====
-- The theorems on API keys at a store with one user (backend/src/identity).
use cadencia_a2a_platform.Prelude.{◌≡◌, refl, true, false, none, some, List, [], ◌∷◌, ◌++◌}
use cadencia_a2a_platform.Prelude.Texts.{Text, codes}
use cadencia_a2a_platform.Keys.Defs.{
  create_api_key, revoke_api_key, enter, run, Store, member, known, unauthorized, Request,
  create_it, revoke_it, list_by_enterprise, list_api_keys, User,
}
use cadencia_a2a_platform.Keys.Outsiders.{outsiders_change_nothing}
use cadencia_a2a_platform.Errors.{ok}
use cadencia_a2a_platform.Keys.Creating.{created_key_enters}
use cadencia_a2a_platform.Keys.Revoking.{is_let_in, key_stays_revoked}

abbrev hmac : Text → Text → Text
hmac secret raw = secret ++ codes ":" ++ raw

abbrev store : Store
store = record {
  users =
      record {
        id = 1;
        updated_at = 0;
        enterprise_id = 2;
        email = codes "a@b.in";
        password = [];
        full_name = none;
        role = member;
        last_login = none;
        is_active = true;
      }
      ∷ [];
  keys = [];
}

abbrev with_key : Store
unfolding create_api_key
with_key = (create_api_key hmac (some (codes "s")) 7 (codes "raw") 1 2 none store).1

created_key_enters_example :
    enter hmac (some (codes "s")) (some (codes "raw")) with_key ≡ known 7 2 (codes "API Key")
unfolding enter create_api_key
created_key_enters_example =
    created_key_enters hmac (codes "s") 7 114 (codes "aw") 1 2 none store refl

abbrev later : List Request
later =
    create_it 8 (codes "other") 1 2 none ∷ revoke_it 8 1 2 ∷ create_it 9 (codes "raw") 1 2 none ∷ []

key_stays_revoked_example :
    is_let_in 7 2 (
      enter hmac
        (some (codes "s"))
        (some (codes "raw"))
        (run hmac (some (codes "s")) later (revoke_api_key 7 1 2 with_key).1))
    ≡ false
unfolding create_api_key revoke_api_key
key_stays_revoked_example =
    key_stays_revoked hmac (some (codes "s")) (some (codes "raw")) 7 1 2 later with_key refl

-- Where JWT_SECRET_KEY is not set, the key that was just created does not get in.
defaults_differ :
    enter hmac none (some (codes "raw")) (create_api_key hmac none 7 (codes "raw") 1 2 none store).1
    ≡ unauthorized
unfolding enter create_api_key
defaults_differ = refl

-- A user of enterprise 3, who asks for a key of it, and for changes of the keys of enterprise 2.
abbrev stranger : User
stranger = record {
  id = 5;
  updated_at = 0;
  enterprise_id = 3;
  email = codes "c@d.in";
  password = [];
  full_name = none;
  role = member;
  last_login = none;
  is_active = true;
}

abbrev two_users : Store
two_users = record with_key { users = stranger ∷ with_key.users }

abbrev strange : List Request
strange = create_it 8 (codes "x") 5 3 none ∷ revoke_it 7 5 2 ∷ create_it 9 (codes "y") 5 2 none ∷ []

outsiders_change_nothing_example :
    list_by_enterprise 2 (run hmac (some (codes "s")) strange two_users).keys
    ≡ list_by_enterprise 2 two_users.keys
unfolding create_api_key
outsiders_change_nothing_example =
    outsiders_change_nothing hmac (some (codes "s")) 2 strange two_users refl

one_key_listed : list_api_keys 1 2 two_users ≡ ok ((7, codes "API Key", true) ∷ [])
unfolding list_api_keys create_api_key
one_key_listed = refl
