-- ===== src/Api/ProductId.antt =====
-- The product IDs that POST /manufacturing-number of src/api/v1/routers/management.py accepts
-- (`ManufacturingNumberRequest` of src/services/io_board/io_types.py), among ASCII texts.
use crk_io_board.Base.{
  ℕ, ◌≤◌, ◌≡◌, ◌↔◌, ◌⊎◌, inl, inr, refl, arith, Bool, true, false, [], ◌∷◌, Text, length, ◌==◌,
  ==_iff, Bool-cases,
}
use crk_io_board.Api.{is_alphanumeric, all_alphanumeric, valid_request}

-- A digit or a letter.
abbrev pub IsAlphanumeric : ℕ → Type 0
IsAlphanumeric c = (b'0' ≤ c × c ≤ b'9') ⊎ (b'A' ≤ c × c ≤ b'Z') ⊎ (b'a' ≤ c × c ≤ b'z')

-- Every character is a space, a digit or a letter.
abbrev pub AllPlain : Text → Type 0
AllPlain [] = Unit
AllPlain (c ∷ s) = ((c ≡ 32) ⊎ IsAlphanumeric c) × AllPlain s

-- Some character is a digit or a letter.
abbrev pub HasAlphanumeric : Text → Type 0
HasAlphanumeric [] = ⊥
HasAlphanumeric (c ∷ s) = IsAlphanumeric c ⊎ HasAlphanumeric s

pub record IsProductId (s : Text) : Type 0 where
  pub width : length s ≡ 11
  pub plain : AllPlain s
  pub some_character : HasAlphanumeric s

letter_or_digit_iff : (c : ℕ) → (is_alphanumeric c ≡ true) ↔ IsAlphanumeric c
letter_or_digit_iff c = (λ h. ground arith, λ h. ground arith)

space_unlike : (c : ℕ) → IsAlphanumeric c → (c == 32) ≡ false
space_unlike c h = ground arith

accepted-AllPlain :
    (seen : Bool) (s : Text)
    → all_alphanumeric seen s ≡ true
    → AllPlain s × ((seen ≡ true) ⊎ HasAlphanumeric s)
accepted-AllPlain seen [] h = (tt, inl h)
accepted-AllPlain seen (c ∷ s) h = elim (Bool-cases (c == 32)) [
  | inl e ↦
      let (all, found) = accepted-AllPlain seen s (rw e at h) in
      ((inl ((==_iff c 32).0 e), all), elim found [ inl x ↦ inl x | inr x ↦ inr (inr x) ])
  | inr e ↦ elim (Bool-cases (is_alphanumeric c)) [
    | inl a ↦
        let (all, found) = accepted-AllPlain true s (rw (e, a) at h) in
        let here = (letter_or_digit_iff c).0 a in ((inr here, all), inr (inl here))
    | inr a ↦ absurd (cc (rw (e, a) at h))
  ]
]

AllPlain-accepted :
    (seen : Bool) (s : Text)
    → AllPlain s
    → (seen ≡ true) ⊎ HasAlphanumeric s
    → all_alphanumeric seen s ≡ true
AllPlain-accepted seen [] all (inl e) = e
AllPlain-accepted seen [] all (inr x) = absurd x
AllPlain-accepted seen (c ∷ s) (inr a, all) found =
    rw (space_unlike c a, (letter_or_digit_iff c).1 a) (AllPlain-accepted true s all (inl refl))
AllPlain-accepted seen (c ∷ s) (inl e, all) (inl x) =
    rw ((==_iff c 32).1 e) (AllPlain-accepted seen s all (inl x))
AllPlain-accepted seen (c ∷ s) (inl e, all) (inr (inl a)) = absurd (omega (arith, e, a))
AllPlain-accepted seen (c ∷ s) (inl e, all) (inr (inr x)) =
    rw ((==_iff c 32).1 e) (AllPlain-accepted seen s all (inr x))

found_later : (s : Text) → (false ≡ true) ⊎ HasAlphanumeric s → HasAlphanumeric s
found_later s (inl e) = absurd (cc e)
found_later s (inr x) = x

-- The request model accepts the product IDs, and nothing else.
pub valid_request_iff : (s : Text) → (valid_request s ≡ true) ↔ IsProductId s
unfolding valid_request
valid_request_iff s = (
  λ h.
      let both : (length s == 11 ≡ true) × (all_alphanumeric false s ≡ true) = ground arith in
      let (all, found) = accepted-AllPlain false s both.1 in
      record {
        width = (==_iff (length s) 11).0 both.0;
        plain = all;
        some_character = found_later s found;
      },
  λ p.
      rw ((==_iff (length s) 11).1 p.width)
        (AllPlain-accepted false s p.plain (inr p.some_character)),
)
