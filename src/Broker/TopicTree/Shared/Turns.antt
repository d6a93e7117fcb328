-- ===== src/Broker/TopicTree/Shared/Turns.antt =====
-- The rotation of a shared group's members in broker/topic_tree.go.
use shark_mqtt.Prelude.{
  ℕ, zero, suc, ◌+◌, ◌≡◌, ◌≢◌, ◌⊎◌, ◌∙◌, refl, sym, ap, true, Option, none, some, List, [], ◌∷◌,
  ◌++◌, Str, All, length, ◌==◌, nat_eq, str_eq, str_beq_iff, arith, Bool-cases, inl, inr, beq_refl,
  append_assoc, append-nil, none-ne-some, some-eq-some, length-append,
}
use mathlib.Core.Path.{subst}
use shark_mqtt.Broker.TopicTree.Found.{Subscriber}
use shark_mqtt.Broker.TopicTree.Shared.{str_ltb, behind, first_of, select}
use shark_mqtt.Broker.TopicTree.Shared.Order.{IsSorted, str_ltb_irrefl, str_ltb_total, below-All}

-- `n` selections in a row among the same members.
unfoldable pub turns : ℕ → Str → Subscriber → List Subscriber → List Str
turns zero last m ms = []
turns (suc n) last m ms = let sel = select last m ms in sel ∷ turns n sel m ms

unfoldable pub ids : List Subscriber → List Str
ids [] = []
ids (m ∷ ms) = m.client_id ∷ ids ms

abbrev pub Named : List Subscriber → Type 0
Named = All (λ m. m.client_id ≢ [])

-- Who was selected last after the members of a list took their turns.
unfoldable last_in : Str → List Subscriber → Str
last_in c [] = c
last_in c (m ∷ ms) = last_in m.client_id ms

pub middle-All :
    (P : Subscriber → Type 0) (pre : List Subscriber) (x : Subscriber) (post : List Subscriber)
    → All P (pre ++ x ∷ post)
    → P x
middle-All P [] x post h = h.0
middle-All P (p ∷ pre) x post h = middle-All P pre x post h.1

-- The members behind one of a sorted list.
behind_lem :
    (pre : List Subscriber) (x : Subscriber) (post : List Subscriber)
    → IsSorted (pre ++ x ∷ post)
    → behind x.client_id (pre ++ x ∷ post) ≡ some post
unfolding behind
behind_lem [] x post h = rw (str_ltb_irrefl x.client_id) (rw (beq_refl x.client_id) refl)
behind_lem (p ∷ pre) x post h =
    let e : str_ltb p.client_id x.client_id ≡ true =
      middle-All (λ n. str_ltb p.client_id n.client_id ≡ true) pre x post h.0 in
    rw e (behind_lem pre x post h.1)

-- The selection after a member of the group.
select_next :
    (pre : List Subscriber) (x : Subscriber) (post : List Subscriber) (m : Subscriber)
    (ms : List Subscriber)
    → m ∷ ms ≡ pre ++ x ∷ post
    → IsSorted (m ∷ ms)
    → x.client_id ≢ []
    → select x.client_id m ms ≡ (first_of m post).client_id
unfolding select
select_next pre x post m ms e h n =
    let b : behind x.client_id (m ∷ ms) ≡ some post =
      rw e (behind_lem pre x post (subst IsSorted e h)) in
    go x.client_id n b
  where
    go :
        (c : Str)
        → c ≢ []
        → behind c (m ∷ ms) ≡ some post
        → select c m ms ≡ (first_of m post).client_id
    go [] n b = absurd (n refl)
    go (a ∷ c) n b = rw b (ground arith)

-- The members of a stretch behind the one that was selected last take their turns.
turns_ahead :
    (mid pre : List Subscriber) (x : Subscriber) (rest : List Subscriber) (m : Subscriber)
    (ms : List Subscriber) (n : ℕ)
    → m ∷ ms ≡ pre ++ x ∷ (mid ++ rest)
    → IsSorted (m ∷ ms)
    → Named (m ∷ ms)
    → turns (length mid + n) x.client_id m ms ≡ ids mid ++ turns n (last_in x.client_id mid) m ms
unfolding turns ids last_in
turns_ahead [] pre x rest m ms n e h k =
    let none_left : 0 + n ≡ n = omega arith in rw none_left refl
turns_ahead (y ∷ mid) pre x rest m ms n e h k =
    let named : x.client_id ≢ [] =
      middle-All (λ p. p.client_id ≢ []) pre x (y ∷ (mid ++ rest)) (subst Named e k) in
    let next : select x.client_id m ms ≡ y.client_id =
      select_next pre x (y ∷ (mid ++ rest)) m ms e h named in
    let count : length (y ∷ mid) + n ≡ suc (length mid + n) = omega arith in
    let further : m ∷ ms ≡ (pre ++ x ∷ []) ++ y ∷ (mid ++ rest) =
      e ∙ sym (append_assoc pre (x ∷ []) (y ∷ (mid ++ rest))) in
    rw count (
      rw next
        (ap (λ l. y.client_id ∷ l) (turns_ahead mid (pre ++ x ∷ []) y rest m ms n further h k)))

-- Behind the last member stands the first one.
select_wrap :
    (mid pre : List Subscriber) (x : Subscriber) (m : Subscriber) (ms : List Subscriber)
    → m ∷ ms ≡ pre ++ x ∷ mid
    → IsSorted (m ∷ ms)
    → Named (m ∷ ms)
    → select (last_in x.client_id mid) m ms ≡ m.client_id
unfolding last_in
select_wrap [] pre x m ms e h k =
    select_next pre x [] m ms e h (middle-All (λ p. p.client_id ≢ []) pre x [] (subst Named e k))
select_wrap (y ∷ mid) pre x m ms e h k =
    select_wrap mid (pre ++ x ∷ []) y m ms (e ∙ sym (append_assoc pre (x ∷ []) (y ∷ mid))) h k

split_head :
    (pre : List Subscriber) (x : Subscriber) (post : List Subscriber) (m : Subscriber)
    (ms : List Subscriber)
    → m ∷ ms ≡ pre ++ x ∷ post
    → (q : List Subscriber) × (pre ++ x ∷ [] ≡ m ∷ q) × (ms ≡ q ++ post) × (length q ≡ length pre)
split_head [] x post m ms e = ([], cc, cc, refl)
split_head (p ∷ pre) x post m ms e =
    let tail : ms ≡ pre ++ x ∷ post = cc in
    (
      pre ++ x ∷ [],
      cc,
      tail ∙ sym (append_assoc pre (x ∷ []) post),
      length-append pre (x ∷ []) ∙ omega arith,
    )

pub select_first :
    (last : Str) (m : Subscriber) (ms : List Subscriber)
    → behind last (m ∷ ms) ≡ none
    → select last m ms ≡ m.client_id
unfolding select
select_first last m ms e = rw e (ground arith)

-- What `behind` finds.
pub behind_inv :
    (c : Str) (ms post : List Subscriber)
    → behind c ms ≡ some post
    → (pre : List Subscriber) × (x : Subscriber) × (ms ≡ pre ++ x ∷ post) × (x.client_id ≡ c)
unfolding behind
behind_inv c [] post e = absurd (none-ne-some e)
behind_inv c (m ∷ ms) post e = elim (Bool-cases (str_ltb m.client_id c)) [
  | inl b ↦
      let (pre, x, f, g) = behind_inv c ms post (rw b at e) in (m ∷ pre, x, ap (λ l. m ∷ l) f, g)
  | inr b ↦ elim (Bool-cases (m.client_id == c)) [
    | inl d ↦
        ([], m, ap (λ l. m ∷ l) (some-eq-some (rw b at rw d at e)), (str_beq_iff m.client_id c).0 d)
    | inr d ↦ absurd (ground (arith, b, d, e))
  ]
]

pub ids-append : (ms ns : List Subscriber) → ids (ms ++ ns) ≡ ids ms ++ ids ns
unfolding ids
ids-append [] ns = refl
ids-append (m ∷ ms) ns = ap (λ l. m.client_id ∷ l) (ids-append ms ns)

-- A whole round that starts at the first member, and one that starts behind a member.
first_round :
    (last : Str) (m : Subscriber) (ms : List Subscriber) (q post : List Subscriber)
    → ms ≡ q ++ post
    → select last m ms ≡ m.client_id
    → IsSorted (m ∷ ms)
    → Named (m ∷ ms)
    → turns (suc (length q)) last m ms ≡ m.client_id ∷ ids q
unfolding turns
first_round last m ms q post e s h k =
    let count : length q + 0 ≡ length q = omega arith in
    let ahead : turns (length q + 0) m.client_id m ms ≡ ids q ++ [] =
      turns_ahead q [] m post m ms 0 (ap (λ l. m ∷ l) e) h k in
    rw s (ap (λ l. m.client_id ∷ l) (rw count at ahead ∙ append-nil (ids q)))

-- The members up to the one that was selected last; none of them if that is no member.
abbrev pub EndsWith : Str → List Subscriber → List Subscriber → Type 0
EndsWith last front ms =
    ((front ≡ []) × All (λ m. m.client_id ≢ last) ms)
    ⊎ ((pre : List Subscriber) × (x : Subscriber) × (front ≡ pre ++ x ∷ []) × (x.client_id ≡ last))

abbrev pub IsRotation : Str → List Str → List Subscriber → Type 0
IsRotation last sels ms =
    (front : List Subscriber) × (back : List Subscriber) × (ms ≡ front ++ back)
    × (sels ≡ ids (back ++ front))
    × EndsWith last front ms

-- Who is behind nobody of a sorted list is not in it.
later-All :
    (last : Str) (ms : List Subscriber)
    → All (λ n. str_ltb last n.client_id ≡ true) ms
    → All (λ n. n.client_id ≢ last) ms
later-All last [] h = tt
later-All last (n ∷ ms) h = (λ e. cc (h.0, e, str_ltb_irrefl last), later-All last ms h.1)

behind-none :
    (last : Str) (ms : List Subscriber)
    → IsSorted ms
    → behind last ms ≡ none
    → All (λ m. m.client_id ≢ last) ms
unfolding behind
behind-none last [] h e = tt
behind-none last (m ∷ ms) h e = elim (Bool-cases (str_ltb m.client_id last)) [
  | inl b ↦ (λ k. cc (b, k, str_ltb_irrefl last), behind-none last ms h.1 (rw b at e))
  | inr b ↦ elim (Bool-cases (m.client_id == last)) [
    | inl d ↦ absurd (ground (arith, b, d, e))
    | inr d ↦
        let ne : m.client_id ≢ last = λ k. ground (arith, d, k, str_beq_iff m.client_id last) in
        (
          ne,
          later-All last ms
              (below-All last m.client_id ms (str_ltb_total m.client_id last b ne) h.0),
        )
  ]
]

-- The case where nobody stands behind `last`, and the one where `x` was selected last.
start_round :
    (last : Str) (m : Subscriber) (ms : List Subscriber)
    → select last m ms ≡ m.client_id
    → IsSorted (m ∷ ms)
    → Named (m ∷ ms)
    → All (λ n. n.client_id ≢ last) (m ∷ ms)
    → IsRotation last (turns (length (m ∷ ms)) last m ms) (m ∷ ms)
start_round last m ms s h k a = (
  [],
  m ∷ ms,
  refl,
  first_round last m ms ms [] (sym (append-nil ms)) s h k
      ∙ (unfold ids in ap (λ l. m.client_id ∷ ids l) (sym (append-nil ms))),
  inl (refl, a),
)

later_round :
    (pre : List Subscriber) (x : Subscriber) (post : List Subscriber) (m : Subscriber)
    (ms : List Subscriber)
    → m ∷ ms ≡ pre ++ x ∷ post
    → IsSorted (m ∷ ms)
    → Named (m ∷ ms)
    → IsRotation x.client_id (turns (length (m ∷ ms)) x.client_id m ms) (m ∷ ms)
unfolding ids
later_round pre x post m ms e h k =
    let (q, to_x, tail, count) = split_head pre x post m ms e in
    let whole : length (m ∷ ms) ≡ length post + suc (length q) =
      ap length e ∙ length-append pre (x ∷ post) ∙ omega (arith, count) in
    let ahead : turns (length post + suc (length q)) x.client_id m ms
        ≡ ids post ++ turns (suc (length q)) (last_in x.client_id post) m ms =
      turns_ahead post pre x [] m ms (suc (length q)) (rw (append-nil post) e) h k in
    let rest : turns (suc (length q)) (last_in x.client_id post) m ms ≡ m.client_id ∷ ids q =
      first_round (last_in x.client_id post) m ms q post tail (select_wrap post pre x m ms e h k) h
        k in
    (
      m ∷ q,
      post,
      ap (λ l. m ∷ l) tail,
      rw whole (ahead ∙ (rw rest (sym (ids-append post (m ∷ q))))),
      inr (pre, x, sym to_x, refl),
    )

-- A round of as many selections as a group has members selects them all, each as often as it is
-- there, in their order from the one behind the member that was selected last.
pub turns-IsRotation :
    (last : Str) (m : Subscriber) (ms : List Subscriber)
    → IsSorted (m ∷ ms)
    → Named (m ∷ ms)
    → IsRotation last (turns (length (m ∷ ms)) last m ms) (m ∷ ms)
turns-IsRotation last m ms h k = go (behind last (m ∷ ms)) refl
  where
    go :
        (o : Option (List Subscriber))
        → behind last (m ∷ ms) ≡ o
        → IsRotation last (turns (length (m ∷ ms)) last m ms) (m ∷ ms)
    go none e = start_round last m ms (select_first last m ms e) h k (behind-none last (m ∷ ms) h e)
    go (some post) e =
        let (pre, x, f, g) = behind_inv last (m ∷ ms) post e in
        subst (λ c. IsRotation c (turns (length (m ∷ ms)) c m ms) (m ∷ ms)) g
          (later_round pre x post m ms f h k)
