-- ===== src/Validation/Uuid.antt =====
-- `validUUID` against a description by bytes.
use clinks.Prelude.{
  ℕ, zero, suc, ◌+◌, ◌≤◌, ◌<◌, ◌≡◌, refl, ◌≢◌, ◌↔◌, ◌⊎◌, inl, inr, Bool, true, false, ◌&&◌, ◌||◌,
  not, [], ◌∷◌, arith, ltb, ◌==◌, if◌then◌else◌, length, get_or, Bool-cases, and-eq-true, sym, ◌∙◌,
}
use native.Mathlib.Nat.{add-zero, zero-add}
use clinks.Text.{Str, ranges}
use clinks.Text.Utf8.{ranges_from}
use clinks.Text.Runes.{rune_value-ascii, rune_width-ascii, rune_value-high}
use clinks.Validation.{is_dash_index, outside_hex, uuid_loop, valid_uuid}

-- The same loop over bytes.
byte_loop : Bool → ℕ → Str → Bool
byte_loop nonzero index [] = nonzero
byte_loop nonzero index (b ∷ bs) =
    let skipped = byte_loop nonzero (index + 1) bs in
    let next = byte_loop (nonzero || not (b == b'0')) (index + 1) bs in
    if is_dash_index index then skipped else if outside_hex b then false else next

abbrev DashesFrom : ℕ → Str → Type 0
DashesFrom i [] = Unit
DashesFrom i (b ∷ bs) = (is_dash_index i ≡ true → b ≡ b'-') × DashesFrom (i + 1) bs

shift : (i j : ℕ) → i + suc j ≡ i + 1 + j
shift i j = omega arith

DashesFrom-of :
    (i : ℕ) (s : Str)
    → ((j : ℕ) → is_dash_index (i + j) ≡ true → get_or s j 0 ≡ b'-')
    → DashesFrom i s
DashesFrom-of i [] h = tt
DashesFrom-of i (b ∷ bs) h =
    (λ e. h 0 (rw add-zero e), DashesFrom-of (i + 1) bs (λ j e. h (suc j) (rw (shift i j) e)))

-- Where the dashes are in place, reading runes is reading bytes.
uuid_loop-ranges :
    (nonzero : Bool) (i : ℕ) (s : Str)
    → DashesFrom i s
    → uuid_loop nonzero (ranges_from i 0 s) ≡ byte_loop nonzero i s
unfolding uuid_loop ranges_from byte_loop
uuid_loop-ranges nonzero i [] h = refl
uuid_loop-ranges nonzero i (b ∷ bs) h = elim (Bool-cases (ltb b 0x80)) [
  | inl low ↦
      rw (rune_value-ascii b (ground arith) bs, rune_width-ascii b (ground arith) bs)
        (ground (
          arith,
          uuid_loop-ranges nonzero (i + 1) bs h.1,
          uuid_loop-ranges (nonzero || not (b == b'0')) (i + 1) bs h.1,
        ))
  | inr high ↦ ground (arith, rune_value-high b bs (ground arith))
]

abbrev IsDigit : ℕ → Type 0
IsDigit c = ((b'0' ≤ c) × (c ≤ b'9')) ⊎ ((b'a' ≤ c) × (c ≤ b'f'))

-- The character at a place that is no dash.
abbrev DigitAt : ℕ → Str → ℕ → Type 0
DigitAt i s j = j < length s → is_dash_index (i + j) ≡ false → IsDigit (get_or s j 0)

abbrev NonzeroAt : ℕ → Str → ℕ → Type 0
NonzeroAt i s j = (j < length s) × (is_dash_index (i + j) ≡ false) × (get_or s j 0 ≢ b'0')

byte_loop_step :
    (nonzero : Bool) (i b : ℕ) (bs : Str)
    → byte_loop nonzero i (b ∷ bs) ≡ true
    → ((is_dash_index i ≡ true) × (byte_loop nonzero (i + 1) bs ≡ true))
      ⊎ ((is_dash_index i ≡ false)
          × IsDigit b
          × (byte_loop (nonzero || not (b == b'0')) (i + 1) bs ≡ true))
unfolding byte_loop
byte_loop_step nonzero i b bs h = elim (Bool-cases (is_dash_index i)) [
  | inl e ↦ inl (e, rw e at h)
  | inr e ↦ let h' = rw e at h in inr (e, ground arith, ground arith)
]

byte_loop-digits :
    (nonzero : Bool) (i : ℕ) (s : Str) → byte_loop nonzero i s ≡ true → (j : ℕ) → DigitAt i s j
byte_loop-digits nonzero i [] h j lt d = absurd (omega arith)
byte_loop-digits nonzero i (b ∷ bs) h zero lt d = elim (byte_loop_step nonzero i b bs h) [
  | inl (e, _) ↦ let d' = rw add-zero at d in cc (e, d')
  | inr (_, e, _) ↦ e
]
byte_loop-digits nonzero i (b ∷ bs) h (suc j) lt d =
    let d' = rw (shift i j) at d in
    elim (byte_loop_step nonzero i b bs h) [
      | inl (_, r) ↦ byte_loop-digits nonzero (i + 1) bs r j (omega arith) d'
      | inr (_, _, r) ↦
          byte_loop-digits (nonzero || not (b == b'0')) (i + 1) bs r j (omega arith) d'
    ]

NonzeroAt-later :
    (i b : ℕ) (bs : Str) → ((j : ℕ) × NonzeroAt (i + 1) bs j) → (j : ℕ) × NonzeroAt i (b ∷ bs) j
NonzeroAt-later i b bs (j, (lt, d, n)) = (suc j, (omega arith, rw (shift i j) d, n))

byte_loop-nonzero :
    (nonzero : Bool) (i : ℕ) (s : Str)
    → byte_loop nonzero i s ≡ true
    → (nonzero ≡ true) ⊎ ((j : ℕ) × NonzeroAt i s j)
byte_loop-nonzero nonzero i [] h = inl (unfold byte_loop in h)
byte_loop-nonzero nonzero i (b ∷ bs) h = elim (byte_loop_step nonzero i b bs h) [
  | inl (_, r) ↦ elim (byte_loop-nonzero nonzero (i + 1) bs r) [
    | inl e ↦ inl e
    | inr later ↦ inr (NonzeroAt-later i b bs later)
  ]
  | inr (d, _, r) ↦ elim (byte_loop-nonzero (nonzero || not (b == b'0')) (i + 1) bs r) [
    | inl e ↦ elim (Bool-cases (b == b'0')) [
      | inl z ↦ inl (ground arith)
      | inr nz ↦ inr (0, (omega arith, rw add-zero d, ground arith))
    ]
    | inr later ↦ inr (NonzeroAt-later i b bs later)
  ]
]

DigitAt-later :
    (i b : ℕ) (bs : Str) → ((j : ℕ) → DigitAt i (b ∷ bs) j) → (j : ℕ) → DigitAt (i + 1) bs j
DigitAt-later i b bs h j lt d = h (suc j) (omega arith) (rw (shift i j) d)

NonzeroAt-tail :
    (nonzero : Bool) (i b : ℕ) (bs : Str)
    → is_dash_index i ≡ true
    → (nonzero ≡ true) ⊎ ((j : ℕ) × NonzeroAt i (b ∷ bs) j)
    → (nonzero ≡ true) ⊎ ((j : ℕ) × NonzeroAt (i + 1) bs j)
NonzeroAt-tail nonzero i b bs e (inl n) = inl n
NonzeroAt-tail nonzero i b bs e (inr (zero, (lt, d, n))) = let d' = rw add-zero at d in cc (e, d')
NonzeroAt-tail nonzero i b bs e (inr (suc j, (lt, d, n))) =
    inr (j, (omega arith, (rw (shift i j) at d), n))

NonzeroAt-found :
    (nonzero : Bool) (i b : ℕ) (bs : Str)
    → (nonzero ≡ true) ⊎ ((j : ℕ) × NonzeroAt i (b ∷ bs) j)
    → ((nonzero || not (b == b'0')) ≡ true) ⊎ ((j : ℕ) × NonzeroAt (i + 1) bs j)
NonzeroAt-found nonzero i b bs (inl n) = inl (rw n)
NonzeroAt-found nonzero i b bs (inr (zero, (lt, d, n))) = inl (ground arith)
NonzeroAt-found nonzero i b bs (inr (suc j, (lt, d, n))) =
    inr (j, (omega arith, (rw (shift i j) at d), n))

byte_loop_complete :
    (nonzero : Bool) (i : ℕ) (s : Str)
    → ((j : ℕ) → DigitAt i s j)
    → (nonzero ≡ true) ⊎ ((j : ℕ) × NonzeroAt i s j)
    → byte_loop nonzero i s ≡ true
unfolding byte_loop
byte_loop_complete nonzero i [] h (inl n) = n
byte_loop_complete nonzero i [] h (inr (j, (lt, d, n))) = absurd (omega arith)
byte_loop_complete nonzero i (b ∷ bs) h n = elim (Bool-cases (is_dash_index i)) [
  | inl e ↦ rw e (
      byte_loop_complete nonzero (i + 1) bs (DigitAt-later i b bs h)
        (NonzeroAt-tail nonzero i b bs e n))
  | inr e ↦
      let digit = h 0 (omega arith) (rw add-zero e) in
      rw e (
        ground (
          arith,
          byte_loop_complete (nonzero || not (b == b'0')) (i + 1) bs (DigitAt-later i b bs h)
              (NonzeroAt-found nonzero i b bs n),
        ))
]

-- A UUID in lower case: 36 bytes, dashes at 8, 13, 18 and 23, hexadecimal digits elsewhere, and one
-- digit that is not 0.
pub record IsUuid (v : Str) : Type 0 where
  pub sized : length v ≡ 36
  pub dashed : (j : ℕ) → is_dash_index j ≡ true → get_or v j 0 ≡ b'-'
  pub digits : (j : ℕ) → DigitAt 0 v j
  pub nonzero : (j : ℕ) × NonzeroAt 0 v j

-- The test before the loop.
has_shape : Str → Bool
has_shape v =
    length v == 36
    && get_or v 8 0 == b'-'
    && get_or v 13 0 == b'-'
    && get_or v 18 0 == b'-'
    && get_or v 23 0 == b'-'

valid_uuid-eq-loop : (v : Str) → valid_uuid v ≡ (has_shape v && uuid_loop false (ranges v))
unfolding valid_uuid has_shape
valid_uuid-eq-loop v = ground arith

has_shape-dashed :
    (v : Str) → has_shape v ≡ true → (j : ℕ) → is_dash_index j ≡ true → get_or v j 0 ≡ b'-'
unfolding has_shape
has_shape-dashed v h j e = elim (dash_cases j e) [
  | inl p ↦ rw p (ground arith)
  | inr (inl p) ↦ rw p (ground arith)
  | inr (inr (inl p)) ↦ rw p (ground arith)
  | inr (inr (inr p)) ↦ rw p (ground arith)
]
  where
    dash_cases : (j : ℕ) → is_dash_index j ≡ true → (j ≡ 8) ⊎ ((j ≡ 13) ⊎ ((j ≡ 18) ⊎ (j ≡ 23)))
    dash_cases j e = ground arith

uuid_loop-eq-byte_loop :
    (v : Str)
    → ((j : ℕ) → is_dash_index j ≡ true → get_or v j 0 ≡ b'-')
    → uuid_loop false (ranges v) ≡ byte_loop false 0 v
unfolding ranges
uuid_loop-eq-byte_loop v h =
    uuid_loop-ranges false 0 v (DashesFrom-of 0 v (λ j e. h j (rw zero-add at e)))

no_earlier_digit : {A : Type 0} → (false ≡ true) ⊎ A → A
no_earlier_digit (inl e) = cc
no_earlier_digit (inr a) = a

valid_uuid→IsUuid : (v : Str) → valid_uuid v ≡ true → IsUuid v
valid_uuid→IsUuid v h = record {
  sized = unfold has_shape in ground (arith, shape);
  dashed = has_shape-dashed v shape;
  digits = byte_loop-digits false 0 v bytes;
  nonzero = no_earlier_digit (byte_loop-nonzero false 0 v bytes);
}
  where
    parts : (has_shape v ≡ true) × (uuid_loop false (ranges v) ≡ true)
    parts = and-eq-true _ _ (sym (valid_uuid-eq-loop v) ∙ h)

    shape : has_shape v ≡ true
    shape = parts.0

    bytes : byte_loop false 0 v ≡ true
    bytes = sym (uuid_loop-eq-byte_loop v (has_shape-dashed v shape)) ∙ parts.1

IsUuid→valid_uuid : (v : Str) → IsUuid v → valid_uuid v ≡ true
unfolding has_shape
IsUuid→valid_uuid v u =
    rw
      (
        valid_uuid-eq-loop v,
        uuid_loop-eq-byte_loop v u.dashed,
        byte_loop_complete false 0 v u.digits (inr u.nonzero),
      )
      (ground
        (arith, u.sized, u.dashed 8 refl, u.dashed 13 refl, u.dashed 18 refl, u.dashed 23 refl))

-- `validUUID`, which walks over the runes of its text, accepts exactly the texts that are, byte by
-- byte, UUIDs in lower case other than the nil UUID.
pub valid_uuid_iff : (v : Str) → (valid_uuid v ≡ true) ↔ IsUuid v
valid_uuid_iff v = (valid_uuid→IsUuid v, IsUuid→valid_uuid v)
