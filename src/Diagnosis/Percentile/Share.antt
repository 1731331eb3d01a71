-- ===== src/Diagnosis/Percentile/Share.antt =====
-- The share of the values that `percentile` of tools/post_move_diag.py leaves behind it.
use mathlib.Core.Path.{subst}
use native.Mathlib.Nat.{
  mod-lt, mul_comm, mul-zero, mul-suc, mul-pos, mul-le-mul_left, mul-le-mul_right,
}
use native.Mathlib.Omega.{div_any}
use crk_io_board.Base.{
  ℕ, zero, suc, ◌+◌, ◌-◌, ◌*◌, ◌/◌, ◌≤◌, ◌<◌, ◌≡◌, refl, sym, ap, ◌∙◌, Bool, true, false, some,
  List, [], ◌∷◌, arith, leb, length, get_elem?, if◌then◌else◌, Bool-cases, inl, inr,
}
use crk_io_board.Numbers.{ℚ, leb_ℚ, ltb_ℚ, IsNumber}
use crk_io_board.Numbers.Order.{leb_total, leb_refl, leb_trans}
use crk_io_board.Diagnosis.Percentile.{insert, sorted, rank, percentile}

abbrev pub count_if : (ℚ → Bool) → List ℚ → ℕ
count_if test [] = 0
count_if test (v ∷ vs) = let rest = count_if test vs in if test v then suc rest else rest

-- How many values are at most p, and how many are below p.
abbrev pub count_up_to : ℚ → List ℚ → ℕ
count_up_to p vs = count_if (λ v. leb_ℚ v p) vs

abbrev pub count_below : ℚ → List ℚ → ℕ
count_below p vs = count_if (λ v. ltb_ℚ v p) vs

abbrev pub AllNumbers : List ℚ → Type 0
AllNumbers [] = Unit
AllNumbers (v ∷ vs) = IsNumber v × AllNumbers vs

abbrev AllAbove : ℚ → List ℚ → Type 0
AllAbove v [] = Unit
AllAbove v (w ∷ ws) = (leb_ℚ v w ≡ true) × AllAbove v ws

abbrev IsSorted : List ℚ → Type 0
IsSorted [] = Unit
IsSorted (v ∷ vs) = AllAbove v vs × IsSorted vs

count_swap :
    (b c : Bool) (n : ℕ)
    → (if b then suc (if c then suc n else n) else if c then suc n else n)
      ≡ (if c then suc (if b then suc n else n) else if b then suc n else n)
count_swap true true n = refl
count_swap true false n = refl
count_swap false true n = refl
count_swap false false n = refl

count-insert :
    (test : ℚ → Bool) (v : ℚ) (vs : List ℚ) → count_if test (insert v vs) ≡ count_if test (v ∷ vs)
count-insert test v [] = refl
count-insert test v (w ∷ ws) = elim (Bool-cases (leb_ℚ v w)) [
  | inl e ↦ rw e refl
  | inr e ↦ rw e (
      ap (λ n. if test w then suc n else n) (count-insert test v ws)
      ∙ count_swap (test w) (test v) (count_if test ws))
]

count-sorted : (test : ℚ → Bool) (vs : List ℚ) → count_if test (sorted vs) ≡ count_if test vs
count-sorted test [] = refl
count-sorted test (v ∷ vs) =
    count-insert test v (sorted vs) ∙ ap (λ n. if test v then suc n else n) (count-sorted test vs)

length-insert : (v : ℚ) (vs : List ℚ) → length (insert v vs) ≡ suc (length vs)
length-insert v [] = refl
length-insert v (w ∷ ws) = elim (Bool-cases (leb_ℚ v w)) [
  | inl e ↦ rw e refl
  | inr e ↦ rw e (ap suc (length-insert v ws))
]

length-sorted : (vs : List ℚ) → length (sorted vs) ≡ length vs
length-sorted [] = refl
length-sorted (v ∷ vs) = length-insert v (sorted vs) ∙ ap suc (length-sorted vs)

insert-AllNumbers : (v : ℚ) (vs : List ℚ) → IsNumber v → AllNumbers vs → AllNumbers (insert v vs)
insert-AllNumbers v [] n h = (n, tt)
insert-AllNumbers v (w ∷ ws) n (m, h) = elim (Bool-cases (leb_ℚ v w)) [
  | inl e ↦ rw e (n, (m, h))
  | inr e ↦ rw e (m, insert-AllNumbers v ws n h)
]

sorted-AllNumbers : (vs : List ℚ) → AllNumbers vs → AllNumbers (sorted vs)
sorted-AllNumbers [] h = tt
sorted-AllNumbers (v ∷ vs) (n, h) = insert-AllNumbers v (sorted vs) n (sorted-AllNumbers vs h)

above_trans :
    (v w : ℚ) (ws : List ℚ) → IsNumber w → leb_ℚ v w ≡ true → AllAbove w ws → AllAbove v ws
above_trans v w [] n h a = tt
above_trans v w (x ∷ ws) n h (hx, a) = (leb_trans v w x n h hx, above_trans v w ws n h a)

insert-AllAbove :
    (u v : ℚ) (vs : List ℚ) → leb_ℚ u v ≡ true → AllAbove u vs → AllAbove u (insert v vs)
insert-AllAbove u v [] h a = (h, tt)
insert-AllAbove u v (w ∷ ws) h (hw, a) = elim (Bool-cases (leb_ℚ v w)) [
  | inl e ↦ rw e (h, (hw, a))
  | inr e ↦ rw e (hw, insert-AllAbove u v ws h a)
]

insert-IsSorted : (v : ℚ) (vs : List ℚ) → AllNumbers vs → IsSorted vs → IsSorted (insert v vs)
insert-IsSorted v [] n s = (tt, tt)
insert-IsSorted v (w ∷ ws) (n, ns) (a, s) = elim (Bool-cases (leb_ℚ v w)) [
  | inl e ↦ rw e ((e, above_trans v w ws n e a), (a, s))
  | inr e ↦ rw e (insert-AllAbove w v ws (leb_total v w e) a, insert-IsSorted v ws ns s)
]

sorted-IsSorted : (vs : List ℚ) → AllNumbers vs → IsSorted (sorted vs)
sorted-IsSorted [] h = tt
sorted-IsSorted (v ∷ vs) (n, h) =
    insert-IsSorted v (sorted vs) (sorted-AllNumbers vs h) (sorted-IsSorted vs h)

above_at :
    (v p : ℚ) (ws : List ℚ) (k : ℕ) → AllAbove v ws → get_elem? ws k ≡ some p → leb_ℚ v p ≡ true
above_at v p [] k a h = absurd (cc)
above_at v p (w ∷ ws) zero (hw, a) h = ap (leb_ℚ v) (some_eq (sym h)) ∙ hw
  where
    some_eq : {x y : ℚ} → some x ≡ some y → x ≡ y
    some_eq e = cc
above_at v p (w ∷ ws) (suc k) (hw, a) h = above_at v p ws k a h

-- An entry of a sorted list has all up to its place at most itself.
count_at :
    (ws : List ℚ) (k : ℕ) (p : ℚ) → IsSorted ws → get_elem? ws k ≡ some p → suc k ≤ count_up_to p ws
count_at [] k p s h = absurd (cc)
count_at (w ∷ ws) zero p (a, s) h = rw (same_first h) (omega arith)
  where
    same_first : some w ≡ some p → leb_ℚ w p ≡ true
    same_first e = ap (leb_ℚ w) (some_eq (sym e)) ∙ leb_refl w
      where
        some_eq : {x y : ℚ} → some x ≡ some y → x ≡ y
        some_eq e = cc
count_at (w ∷ ws) (suc k) p (a, s) h =
    rw (above_at w p ws k a h) (omega (arith, count_at ws k p s h))

none_below : (p : ℚ) (ws : List ℚ) → AllAbove p ws → count_below p ws ≡ 0
none_below p [] a = refl
none_below p (w ∷ ws) (h, a) = rw (not_below h) (none_below p ws a)
  where
    not_below : leb_ℚ p w ≡ true → ltb_ℚ w p ≡ false
    not_below e = ground arith

-- What is below an entry of a sorted list stands before it.
below_at :
    (ws : List ℚ) (k : ℕ) (p : ℚ) → IsSorted ws → get_elem? ws k ≡ some p → count_below p ws ≤ k
below_at [] k p s h = absurd (cc)
below_at (w ∷ ws) zero p (a, s) h =
    subst (λ x. count_below x (w ∷ ws) ≤ 0) (some_eq h)
      (omega (arith, none_below w (w ∷ ws) (leb_refl w, a)))
  where
    some_eq : {x y : ℚ} → some x ≡ some y → x ≡ y
    some_eq e = cc
below_at (w ∷ ws) (suc k) p (a, s) h = ground (arith, below_at ws k p s h)

get_at : (ws : List ℚ) (k : ℕ) → k < length ws → (p : ℚ) × (get_elem? ws k ≡ some p)
get_at [] k h = absurd (omega arith)
get_at (w ∷ ws) zero h = (w, refl)
get_at (w ∷ ws) (suc k) h = get_at ws k (omega arith)

rank_in_range : (n d count : ℕ) → 0 < count → rank n d count < count
rank_in_range n d count h = ground arith

last_place : (count : ℕ) → 0 < count → suc (count - 1) ≡ count
last_place count h = omega arith

-- The ceiling of m / d, kept from 0, is at least m / d.
ceiling_share : (m d : ℕ) → 0 < d → m ≤ d * suc ((m + d - 1) / d - 1)
ceiling_share m d h =
    let q = (m + d - 1) / d in
    let up : q ≤ suc (q - 1) = omega arith in
    omega (arith, div_any (m + d - 1) d, mod-lt (m + d - 1) h, mul_comm q d, mul-le-mul_left d up)

rank_share : (n d count : ℕ) → 0 < d → n ≤ d → 0 < count → n * count ≤ d * suc (rank n d count)
rank_share n d count hd h hc = elim (Bool-cases (leb (count - 1) ((n * count + d - 1) / d - 1))) [
  | inl e ↦ rw e (omega (arith, mul-le-mul_right count h, ap (λ t. d * t) (last_place count hc)))
  | inr e ↦ rw e (ceiling_share (n * count) d hd)
]

less_one : (k : ℕ) → suc k - 1 ≡ k
less_one k = omega arith

before_quotient : (m d q : ℕ) → 0 < d → 0 < m → d * q ≤ m + d - 1 → d * (q - 1) < m
before_quotient m d zero h hm le = omega (arith, mul-zero d)
before_quotient m d (suc k) h hm le = omega (arith, ap (λ j. d * j) (less_one k), mul-suc d k)

-- The ceiling of m / d less one is below m / d.
before_ceiling : (m d : ℕ) → 0 < d → 0 < m → d * ((m + d - 1) / d - 1) < m
before_ceiling m d h hm =
    let q = (m + d - 1) / d in
    before_quotient m d q h hm (omega (arith, div_any (m + d - 1) d, mul_comm q d))

rank_below : (n d count : ℕ) → 0 < d → 0 < n → 0 < count → d * rank n d count < n * count
rank_below n d count hd hn hc =
    let index = (n * count + d - 1) / d - 1 in
    let low : rank n d count ≤ index = ground arith in
    omega (arith, before_ceiling (n * count) d hd (mul-pos hn hc), mul-le-mul_left d low)

pub percentile_share :
    (n d : ℕ) (v : ℚ) (vs : List ℚ)
    → 0 < n
    → 0 < d
    → n ≤ d
    → AllNumbers (v ∷ vs)
    → (p : ℚ) × (percentile n d (v ∷ vs) ≡ some p)
      × (n * length (v ∷ vs) ≤ d * count_up_to p (v ∷ vs))
      × (d * count_below p (v ∷ vs) < n * length (v ∷ vs))
unfolding percentile
percentile_share n d v vs hn hd h numbers =
    let values : List ℚ = v ∷ vs in
    let k : ℕ = rank n d (length values) in
    let inside : k < length values = rank_in_range n d (length values) (omega arith) in
    let (p, at) = get_at (sorted values) k (omega (arith, length-sorted values)) in
    let in_order = sorted-IsSorted values numbers in
    let many : suc k ≤ count_up_to p values =
      omega
        (arith, count_at (sorted values) k p in_order at, count-sorted (λ w. leb_ℚ w p) values) in
    let few : count_below p values ≤ k =
      omega
        (arith, below_at (sorted values) k p in_order at, count-sorted (λ w. ltb_ℚ w p) values) in
    (
      p,
      at,
      omega (arith, rank_share n d (length values) hd h (omega arith), mul-le-mul_left d many),
      omega (arith, rank_below n d (length values) hd hn (omega arith), mul-le-mul_left d few),
    )
