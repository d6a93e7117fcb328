-- ===== src/Broker/Auth/Chain.antt =====
-- `ChainAuth` fails closed.
use shark_mqtt.Prelude.{
  ◌≡◌, refl, false, not, Option, none, some, List, [], ◌∷◌, ◌++◌, Str, arith, if◌then◌else◌, length,
  All, ◌≢◌, ◌==◌, nat_eq, ℕ, suc,
}
use shark_mqtt.Broker.Auth.{
  Authenticator, AuthError, user_not_found, is_user_not_found, chain_from, chain_authenticate,
}

-- An authenticator that does not know the user.
abbrev pub NotFound : Str → Str → Str → Authenticator → Type 0
NotFound c u p auth = auth c u p ≡ some user_not_found

abbrev pub Decides : Option AuthError → Type 0
Decides none = Unit
Decides (some e) = is_user_not_found e ≡ false

chain_from-first :
    (last : Option AuthError) (before after : List Authenticator) (auth : Authenticator)
    (c u p : Str)
    → All (NotFound c u p) before
    → Decides (auth c u p)
    → chain_from last (before ++ auth ∷ after) c u p ≡ auth c u p
unfolding chain_from
chain_from-first last [] after auth c u p h d = go (auth c u p) d
  where
    go :
        (o : Option AuthError)
        → Decides o
        → ◌≡◌ {A = Option AuthError}
            (elim o [
              | none ↦ none
              | some err ↦
                  if not (is_user_not_found err)
                  then some err
                  else chain_from (some err) after c u p
            ])
            o
    go none d = refl
    go (some err) d = rw d
chain_from-first last (b ∷ before) after auth c u p h d =
    rw h.0 (chain_from-first (some user_not_found) before after auth c u p h.1 d)

-- The first authenticator that accepts, or that fails with anything but "user not found", decides:
-- the ones behind it are not asked.
pub chain-first :
    (before after : List Authenticator) (auth : Authenticator) (c u p : Str)
    → All (NotFound c u p) before
    → Decides (auth c u p)
    → chain_authenticate (before ++ auth ∷ after) c u p ≡ auth c u p
unfolding chain_authenticate
chain-first before after auth c u p h d =
    rw (nonempty before) (chain_from-first none before after auth c u p h d)
  where
    nonempty : (xs : List Authenticator) → (length (xs ++ auth ∷ after) == 0) ≡ false
    nonempty [] = ground arith
    nonempty (x ∷ xs) = ground arith

chain_from_unknown :
    (last : Option AuthError) (auths : List Authenticator) (c u p : Str)
    → last ≢ none
    → All (NotFound c u p) auths
    → chain_from last auths c u p ≢ none
unfolding chain_from
chain_from_unknown last [] c u p n h = n
chain_from_unknown last (a ∷ auths) c u p n h =
    rw h.0 (chain_from_unknown (some user_not_found) auths c u p (λ e. cc) h.1)

-- If no authenticator knows the user, the chain refuses; the empty chain refuses too.
pub chain_unknown :
    (auths : List Authenticator) (c u p : Str)
    → All (NotFound c u p) auths
    → chain_authenticate auths c u p ≢ none
unfolding chain_authenticate chain_from
chain_unknown [] c u p h = λ e. cc
chain_unknown (a ∷ auths) c u p h =
    rw (h.0, not_empty (length auths))
      (chain_from_unknown (some user_not_found) auths c u p (λ e. cc) h.1)
  where
    not_empty : (n : ℕ) → (suc n == 0) ≡ false
    not_empty n = ground arith
