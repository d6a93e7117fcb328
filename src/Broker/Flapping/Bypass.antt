-- ===== src/Broker/Flapping/Bypass.antt =====
-- How an entry of broker/flapping.go stops counting: a full buffer with a dead prefix that is not
-- compacted.
use shark_mqtt.Prelude.{
  ℕ, zero, suc, ◌+◌, ◌-◌, ◌*◌, ◌≤◌, ◌<◌, ◌≡◌, ◌∙◌, refl, ap, Bool, true, false, not, ◌&&◌, none,
  some, List, [], ◌∷◌, length, drop, ltb, leb, nat_eq, arith,
}
use shark_mqtt.Broker.Flapping.{
  FlappingConfig, FlappingEntry, expired, set_at, advance, stamp, record_entry,
}
use shark_mqtt.Broker.Flapping.Window.{recorded}

set_at_lem :
    (i x : ℕ) (ys : List ℕ)
    → i < length ys
    → (zs : List ℕ) × (set_at i x ys ≡ some zs)
      × (length zs ≡ length ys)
      × (drop i zs ≡ x ∷ drop (suc i) ys)
unfolding set_at
set_at_lem i x [] h = absurd (omega arith)
set_at_lem zero x (y ∷ ys) h = (x ∷ ys, refl, refl, refl)
set_at_lem (suc i) x (y ∷ ys) h =
    let (zs, e, l, d) = set_at_lem i x ys (omega arith) in (y ∷ zs, rw e refl, ap suc l, d)

-- The buffer is full and has a dead prefix of less than half of it; the oldest attempt that the entry
-- remembers is `first`.
abbrev pub IsStuck : ℕ → FlappingEntry → Type 0
IsStuck first e =
    (0 < e.head)
    × (e.head * 2 < length e.stamps)
    × (length e.stamps ≡ e.capacity)
    × ((rest : List ℕ) × (recorded e ≡ first ∷ rest))

advance_stuck :
    (cutoff first : ℕ) (e : FlappingEntry) → cutoff ≤ first → IsStuck first e → advance cutoff e ≡ e
unfolding advance
advance_stuck cutoff first e h (p, q, f, (rest, o)) =
    let none_expired : expired cutoff (recorded e) ≡ 0 = rw o (unfold expired in ground arith) in
    let stays : e.head + 0 ≡ e.head = omega arith in
    let sparse : leb (length e.stamps) (e.head * 2) ≡ false = ground arith in
    rw (none_expired, stays, sparse, advance) (ground arith)

stamp-IsStuck :
    (max now first : ℕ) (e : FlappingEntry)
    → e.capacity ≡ max + 1
    → IsStuck first e
    → (e' : FlappingEntry) × (stamp max now e ≡ some (e', false))
      × IsStuck now e'
      × (e'.capacity ≡ max + 1)
unfolding stamp
stamp-IsStuck max now first e c (p, q, f, (rest, o)) =
    let (zs, z, l, d) = set_at_lem e.head now e.stamps (omega arith) in
    let full : ltb (length e.stamps) e.capacity ≡ false = ground arith in
    let under : ltb max (length zs - e.head) ≡ false = ground arith in
    (
      record e { stamps = zs; last_seen = now },
      rw (full, z, under, stamp) refl,
      (p, omega arith, omega arith, (drop (suc e.head) e.stamps, d)),
      c,
    )

-- Attempts each of which comes no later than the window after the one before; the first of them, than
-- the window after `last`.
abbrev pub Close : ℕ → ℕ → List ℕ → Type 0
Close window last [] = Unit
Close window last (t ∷ ts) = (t - window ≤ last) × Close window t ts

-- Every one of the attempts is let through.
unfoldable pub all_pass : FlappingConfig → List ℕ → FlappingEntry → Bool
all_pass cfg [] e = true
all_pass cfg (t ∷ ts) e = elim (record_entry cfg t e) [
  | none ↦ false
  | some (e', exceeded) ↦ not exceeded && all_pass cfg ts e'
]

-- Once the buffer of an entry is full and has a dead prefix of less than half of it, any number of
-- attempts is let through, however many of them are in one window, as long as the first of them comes
-- within the window of the oldest attempt that the entry remembers, and each later one within the
-- window of the one before it.
pub all_pass_lem :
    (cfg : FlappingConfig) (first : ℕ) (ts : List ℕ) (e : FlappingEntry)
    → e.capacity ≡ cfg.max_connects + 1
    → IsStuck first e
    → Close cfg.sliding_window first ts
    → all_pass cfg ts e ≡ true
unfolding all_pass record_entry
all_pass_lem cfg first [] e c s h = refl
all_pass_lem cfg first (t ∷ ts) e c s h =
    let (e', r, s', c') = stamp-IsStuck cfg.max_connects t first e c s in
    let passed : record_entry cfg t e ≡ some (e', false) =
      ap (stamp cfg.max_connects t) (advance_stuck (t - cfg.sliding_window) first e h.0 s) ∙ r in
    rw (passed, all_pass) (all_pass_lem cfg t ts e' c' s' h.1)
