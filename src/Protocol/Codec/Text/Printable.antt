-- ===== src/Protocol/Codec/Text/Printable.antt =====
-- What the UTF-8 check of protocol/codec.go keeps out of a string.
use shark_mqtt.Prelude.{
  ℕ, zero, suc, ◌+◌, ◌-◌, ◌*◌, ◌%◌, ◌≤◌, ◌≡◌, ◌≢◌, refl, Bool, true, false, ◌&&◌, none, [], ◌∷◌,
  Str, take, All, ltb, ◌==◌, nat_eq, if◌then◌else◌, arith,
}
use shark_mqtt.Protocol.Codec.Text.{
  between, tail_byte, second_byte, decode_rune, valid_from, is_control, control_free, validate_utf8,
}

-- Neither a byte below the space nor DEL.
abbrev pub Printable : ℕ → Type 0
Printable b = (0x20 ≤ b) × (b ≢ 0x7F)

abbrev High : ℕ → Type 0
High b = 0x80 ≤ b

-- A rune that passes: its first byte is printable, its further bytes are not ASCII.
abbrev Passes : ℕ → Str → ℕ × ℕ → Type 0
Passes b s (rune, width) =
    (rune == 0xFFFD && width == 1) ≡ false
    → is_control rune ≡ false
    → Printable b × All High (take (width - 1) s)

Passes-if :
    (b : ℕ) (s : Str) (test : Bool) (p q : ℕ × ℕ)
    → (test ≡ true → Passes b s p)
    → (test ≡ false → Passes b s q)
    → Passes b s (if test then p else q)
Passes-if b s true p q hp hq = hp refl
Passes-if b s false p q hp hq = hq refl

rune_lem : (b : ℕ) (s : Str) → Passes b s (decode_rune (b ∷ s))
unfolding decode_rune
rune_lem b [] = λ v h. ground arith
rune_lem b (c ∷ []) = λ v h. ground arith
rune_lem b (c ∷ d ∷ []) = λ v h. ground arith
rune_lem b (c ∷ d ∷ e ∷ s) =
    Passes-if b (c ∷ d ∷ e ∷ s) (ltb b 0x80) (b, 1) _ (λ x v h. ground arith)
      (λ x.
        Passes-if b (c ∷ d ∷ e ∷ s) (between 0xC2 0xDF b && tail_byte c) (b % 32 * 64 + c % 64, 2) _
          (λ y v h. ground arith)
          (λ y.
            Passes-if b (c ∷ d ∷ e ∷ s) (between 0xE0 0xEF b && second_byte b c && tail_byte d)
              (b % 16 * 4096 + c % 64 * 64 + d % 64, 3) _ (λ z v h. ground arith)
              (λ z.
                Passes-if b (c ∷ d ∷ e ∷ s)
                  (between 0xF0 0xF4 b && second_byte b c && tail_byte d && tail_byte e)
                  (b % 8 * 262144 + c % 64 * 4096 + d % 64 * 64 + e % 64, 4) _
                  (λ w v h. ground arith) (λ w v h. ground arith))))

walk_lem :
    (skip : ℕ) (s : Str)
    → All High (take skip s)
    → valid_from skip s ≡ true
    → control_free skip s ≡ true
    → All Printable s
unfolding valid_from control_free
walk_lem skip [] h v c = tt
walk_lem (suc skip) (b ∷ s) (hb, hs) v c = ((omega arith, λ e. omega arith), walk_lem skip s hs v c)
walk_lem zero (b ∷ s) h v c =
    let (p, hs) = rune_lem b s (ground arith) (ground arith) in
    (p, walk_lem ((decode_rune (b ∷ s)).1 - 1) s hs (ground arith) (ground arith))

-- A string that passes the check has no byte below the space and no DEL.
pub validate_utf8-Printable : (s : Str) → validate_utf8 s ≡ none → All Printable s
unfolding validate_utf8
validate_utf8-Printable s h = walk_lem 0 s tt (ground arith) (ground arith)
