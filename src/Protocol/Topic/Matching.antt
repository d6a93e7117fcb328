-- ===== src/Protocol/Topic/Matching.antt =====
-- `match_levels` decides the matching relation of MQTT section 4.7.
use shark_mqtt.Prelude.{
  ◌≡◌, refl, List, [], ◌∷◌, Str, true, Bool, ◌==◌, str_eq, str_beq_iff, arith, ◌&&◌, ◌||◌, not,
  length, nat_eq, Bool-cases, inl, inr, ◌↔◌,
}
use shark_mqtt.Protocol.Topic.{hash, plus, match_levels}

-- The relation between a filter's levels and a topic's.
pub data Matches : List Str → List Str → Type 0 where
  done : Matches [] []
  multi : {p : Str} {ts : List Str} → p ≡ hash → Matches (p ∷ []) ts
  single : {p t : Str} {ps ts : List Str} → p ≡ plus → Matches ps ts → Matches (p ∷ ps) (t ∷ ts)
  literal : {p t : Str} {ps ts : List Str} → p ≡ t → Matches ps ts → Matches (p ∷ ps) (t ∷ ts)

-- A "#" level stands last only.
unfoldable pub hash_last : List Str → Bool
hash_last [] = true
hash_last (p ∷ ps) = (not (p == hash) || length ps == 0) && hash_last ps

pub match_levels→Matches :
    (ps ts : List Str) → hash_last ps ≡ true → match_levels ps ts ≡ true → Matches ps ts
unfolding match_levels hash_last
match_levels→Matches [] [] h m = done
match_levels→Matches [] (t ∷ ts) h m = absurd (ground arith)
match_levels→Matches (p ∷ []) [] h m = multi ((str_beq_iff p hash).0 m)
match_levels→Matches (p ∷ q ∷ ps) [] h m = absurd (ground arith)
match_levels→Matches (p ∷ ps) (t ∷ ts) h m = elim (Bool-cases (p == hash)) [
  | inl e ↦ only_hash ps e h
  | inr e ↦ elim (Bool-cases (p == plus)) [
    | inl f ↦
        single ((str_beq_iff p plus).0 f) (match_levels→Matches ps ts (ground arith) (ground arith))
    | inr f ↦
        literal ((str_beq_iff p t).0 (ground arith))
          (match_levels→Matches ps ts (ground arith) (ground arith))
  ]
]
  where
    only_hash :
        (qs : List Str) → (p == hash) ≡ true → hash_last (p ∷ qs) ≡ true → Matches (p ∷ qs) (t ∷ ts)
    only_hash [] e g = multi ((str_beq_iff p hash).0 e)
    only_hash (q ∷ qs) e g = absurd (ground arith)

Matches→match_levels : {ps ts : List Str} → Matches ps ts → match_levels ps ts ≡ true
unfolding match_levels
Matches→match_levels done = refl
Matches→match_levels (multi {p = p} {ts = []} e) = (str_beq_iff p hash).1 e
Matches→match_levels (multi {p = p} {ts = t ∷ ts} e) = ground (arith, str_beq_iff p hash)
Matches→match_levels (single {p = p} {t = t} {ps = ps} {ts = ts} e m) =
    ground (arith, str_beq_iff p plus, Matches→match_levels m)
Matches→match_levels (literal {p = p} {t = t} {ps = ps} {ts = ts} e m) =
    ground (arith, str_beq_iff p t, Matches→match_levels m)

-- On filters whose "#" stands last, `match_levels` decides the matching relation.
pub match_levels_iff :
    (ps ts : List Str) → hash_last ps ≡ true → (match_levels ps ts ≡ true) ↔ Matches ps ts
match_levels_iff ps ts h = (match_levels→Matches ps ts h, Matches→match_levels)
