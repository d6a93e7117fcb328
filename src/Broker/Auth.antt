-- ===== src/Broker/Auth.antt =====
-- broker/auth.go and broker/auth_chain.go: authenticators, and access control by topic patterns.
-- bcrypt is a package outside the repository: its two functions are parameters.
pub mod Covers
pub mod Chain
use shark_mqtt.Prelude.{
  ℕ, Bool, true, false, not, ◌&&◌, ◌||◌, Option, none, some, List, [], ◌∷◌, ◌++◌, Str, codes, ◌==◌,
  str_eq, if◌then◌else◌, length, any, nat_eq, ◌⊎◌, inl, inr,
}
use shark_mqtt.Prelude.Map.{Map, lookup, insert}
use shark_mqtt.Protocol.Topic.{hash, plus, is_system, split_topic}

pub data AuthError : Type 0 where
  auth_failed user_not_found auth_unavailable not_authorized : AuthError
  -- any other error of an authenticator or of bcrypt
  other : Str → AuthError

-- `error`, where `none` is `nil`. The arguments are client id, username and password.
abbrev pub Authenticator : Type 0
Authenticator = Str → Str → Str → Option AuthError

pub record Acl : Type 0 where
  pub publish_topics : List Str
  pub subscribe_topics : List Str

pub record StaticAuth : Type 0 where
  pub credentials : Map Str Str
  pub acls : Map Str Acl
  pub bcrypt_cost : ℕ

unfoldable pub new_static_auth : ℕ → StaticAuth
new_static_auth default_cost = record { credentials = []; acls = []; bcrypt_cost = default_cost }

unfoldable pub set_bcrypt_cost : ℕ → StaticAuth → StaticAuth
set_bcrypt_cost cost s = record s { bcrypt_cost = cost }

unfoldable pub add_credentials : Str → Str → StaticAuth → StaticAuth
add_credentials username password s = record s {
  credentials = insert username password s.credentials;
}

unfoldable pub add_acl : Str → Acl → StaticAuth → StaticAuth
add_acl username acl s = record s { acls = insert username acl s.acls }

-- `strings.HasPrefix`
abbrev pub has_prefix : Str → Str → Bool
has_prefix s [] = true
has_prefix [] (p ∷ ps) = false
has_prefix (b ∷ s) (p ∷ ps) = b == p && has_prefix s ps

unfoldable pub is_bcrypt_hash : Str → Bool
is_bcrypt_hash stored =
    has_prefix stored (codes "$2a$")
    || has_prefix stored (codes "$2b$")
    || has_prefix stored (codes "$2y$")

module _ (generate : Str → ℕ → Str ⊎ AuthError) where
  -- The result is `error`.
  unfoldable pub set_hashed_password : Str → Str → StaticAuth → StaticAuth × Option AuthError
  set_hashed_password username password s = elim (generate password s.bcrypt_cost) [
    | inl hash ↦ (record s { credentials = insert username hash s.credentials }, none)
    | inr err ↦ (s, some err)
  ]

module _ (compare_hash : Str → Str → Bool) where
  -- The tests on the password that is stored for the user.
  unfoldable pub check_password : Str → Str → Option AuthError
  check_password expected password =
      if is_bcrypt_hash expected
      then (if compare_hash expected password then none else some auth_failed)
      else if password == expected
      then none
      else some auth_failed

  unfoldable pub static_authenticate : StaticAuth → Authenticator
  static_authenticate s client_id username password = elim (lookup username s.credentials) [
    | none ↦ some user_not_found
    | some expected ↦ check_password expected password
  ]

-- The loop of `aclCovers` at `ap[i:]` and `rp[i:]`.
unfoldable pub covers_levels : List Str → List Str → Bool
covers_levels [] rp = length rp == 0
covers_levels (a ∷ ap) [] = a == hash
covers_levels (a ∷ ap) (r ∷ rp) =
    let rest = covers_levels ap rp in
    if a == hash
    then true
    else if r == hash
    then false
    else if r == plus
    then (if not (a == plus) then false else rest)
    else if not (a == plus) && not (a == r)
    then false
    else rest

abbrev pub starts_system : List Str → Bool
starts_system [] = false
starts_system (r ∷ _) = is_system r

abbrev pub starts_wild : List Str → Bool
starts_wild [] = false
starts_wild (a ∷ _) = a == plus || a == hash

unfoldable pub acl_covers : Str → Str → Bool
acl_covers acl_pattern requested =
    let ap = split_topic acl_pattern in
    let rp = split_topic requested in
    if length ap == 0
    then false
    else if starts_system rp && starts_wild ap
    then false
    else covers_levels ap rp

unfoldable pub can_publish : StaticAuth → Str → Str → Bool
can_publish s username topic = elim (lookup username s.acls) [
  | none ↦ false
  | some acl ↦ any (λ pattern. acl_covers pattern topic) acl.publish_topics
]

unfoldable pub can_subscribe : StaticAuth → Str → Str → Bool
can_subscribe s username topic = elim (lookup username s.acls) [
  | none ↦ false
  | some acl ↦ any (λ pattern. acl_covers pattern topic) acl.subscribe_topics
]

-- `AllowAllAuth` and `DenyAllAuth`.
unfoldable pub allow_all : Authenticator
allow_all client_id username password = none

unfoldable pub allow_all_can_publish : Str → Str → Bool
allow_all_can_publish username topic = if has_prefix topic (codes "$") then false else true

unfoldable pub allow_all_can_subscribe : Str → Str → Bool
allow_all_can_subscribe username topic = true

unfoldable pub deny_all : Authenticator
deny_all client_id username password = some auth_failed

unfoldable pub deny_all_can_publish : Str → Str → Bool
deny_all_can_publish username topic = false

unfoldable pub deny_all_can_subscribe : Str → Str → Bool
deny_all_can_subscribe username topic = false

abbrev pub is_user_not_found : AuthError → Bool
is_user_not_found user_not_found = true
is_user_not_found _ = false

-- `ChainAuth.Authenticate`: the loop carries `lastErr`.
unfoldable pub chain_from : Option AuthError → List Authenticator → Authenticator
chain_from last [] client_id username password = last
chain_from last (auth ∷ auths) client_id username password =
    elim (auth client_id username password) [
      | none ↦ none
      | some err ↦
          let next = chain_from (some err) auths client_id username password in
          if not (is_user_not_found err) then some err else next
    ]

unfoldable pub chain_authenticate : List Authenticator → Authenticator
chain_authenticate auths client_id username password =
    if length auths == 0
    then some auth_unavailable
    else chain_from none auths client_id username password
