-- ===== src/Stream/Request.antt =====
-- The parameters of `handle_unified_sse` in src/api/v1/routers/sse.py, up to the streaming response.
-- A rejected request keeps its error code; message and details are left out.
use crk_io_board.Base.{
  ℕ, ◌≡◌, refl, Bool, true, false, ◌||◌, Option, none, some, List, [], ◌∷◌, Text, codes, same_text,
  same_text→eq, length, replicate, ◌==◌, ==_iff, if◌then◌else◌, ap, suc, ◌≢◌, arith, Bool-cases,
  inl, inr, ◌⊎◌,
}
use crk_io_board.Readings.{drop_spaces, drop_trailing}
use crk_io_board.Stream.PythonFloat.{Float, python_float}

-- `s.strip()`
abbrev strip : Text → Text
strip s = drop_trailing (drop_spaces s)

abbrev push_first : ℕ → List Text → List Text
push_first c [] = (c ∷ []) ∷ []
push_first c (w ∷ ws) = (c ∷ w) ∷ ws

-- `s.split(",")`
abbrev split_commas : Text → List Text
split_commas [] = [] ∷ []
split_commas (c ∷ s) = if c == b',' then [] ∷ split_commas s else push_first c (split_commas s)

abbrev is_empty {ℓ} : {A : Type ℓ} → List A → Bool
is_empty [] = true
is_empty (a ∷ l) = false

abbrev keep_nonempty : List Text → List Text
keep_nonempty [] = []
keep_nonempty (w ∷ ws) =
    let s = strip w in let rest = keep_nonempty ws in if is_empty s then rest else s ∷ rest

-- `[s.strip() for s in text.split(",") if s.strip()]`
unfoldable pub parts : Text → List Text
parts s = keep_nonempty (split_commas s)

abbrev pub is_stream : Text → Bool
is_stream s = same_text s (codes "loadcells") || same_text s (codes "doors")

-- Whether `set(enabled_streams) - valid_streams` is empty.
abbrev pub all_streams : List Text → Bool
all_streams [] = true
all_streams (s ∷ ss) = if is_stream s then all_streams ss else false

abbrev both : Option Float → Option (List Float) → Option (List Float)
both (some v) (some vs) = some (v ∷ vs)
both _ _ = none

-- `[float(t) for t in parts]`; none stands for the `ValueError`.
abbrev pub all_floats : List Text → Option (List Float)
all_floats [] = some []
all_floats (t ∷ ts) = both (python_float t) (all_floats ts)

pub data Verdict : Type 0 where
  rejected : Text → Verdict
  accepted : List Text → List Float → Verdict

abbrev one_threshold : List Text → Option (List Float) → Verdict
one_threshold enabled (some (t ∷ [])) = accepted enabled (replicate 10 t)
one_threshold enabled _ = rejected (codes "E4004")

abbrev ten_thresholds : List Text → Option (List Float) → Verdict
ten_thresholds enabled none = rejected (codes "E4005")
ten_thresholds enabled (some ts) = accepted enabled ts

unfoldable pub parse_thresholds : List Text → List Text → Verdict
parse_thresholds enabled ts =
    if length ts == 1
    then one_threshold enabled (all_floats ts)
    else if length ts == 10
    then ten_thresholds enabled (all_floats ts)
    else rejected (codes "E4006")

unfoldable pub parse_request : Text → Text → Verdict
unfolding parts parse_thresholds
parse_request streams threshold =
    let enabled = parts streams in
    if is_empty enabled
    then rejected (codes "E4002")
    else if all_streams enabled
    then parse_thresholds enabled (parts threshold)
    else rejected (codes "E4003")

-- The specification, in its own words: the streams and the thresholds that a request names.
abbrev pub AllKnown : List Text → Type 0
AllKnown [] = Unit
AllKnown (s ∷ ss) = ((s ≡ codes "loadcells") ⊎ (s ≡ codes "doors")) × AllKnown ss

abbrev pub AllRead : List Text → List Float → Type 0
AllRead [] [] = Unit
AllRead (t ∷ ts) (v ∷ vs) = (python_float t ≡ some v) × AllRead ts vs
AllRead [] (v ∷ vs) = ⊥
AllRead (t ∷ ts) [] = ⊥

abbrev pub SomeUnread : List Text → Type 0
SomeUnread [] = ⊥
SomeUnread (t ∷ ts) = (python_float t ≡ none) ⊎ SomeUnread ts

-- The request passes the checks of its streams.
abbrev pub IsNamed : List Text → Type 0
IsNamed names = (¬ (names ≡ [])) × AllKnown names

-- Why a request was rejected, or what an accepted one holds: the first check that fails decides.
abbrev pub Explained : List Text → List Text → Verdict → Type 0
Explained names ts (rejected code) =
    ((code ≡ codes "E4002") × (names ≡ []))
    ⊎ ((code ≡ codes "E4003") × (¬ (names ≡ [])) × (¬ AllKnown names))
    ⊎ ((code ≡ codes "E4004") × IsNamed names × (length ts ≡ 1) × SomeUnread ts)
    ⊎ ((code ≡ codes "E4005") × IsNamed names × (length ts ≡ 10) × SomeUnread ts)
    ⊎ ((code ≡ codes "E4006") × IsNamed names × (length ts ≢ 1) × (length ts ≢ 10))
Explained names ts (accepted enabled values) =
    (enabled ≡ names)
    × IsNamed names
    × (((length ts ≡ 10) × AllRead ts values)
        ⊎ ((v : Float) × (length ts ≡ 1) × AllRead ts (v ∷ []) × (values ≡ replicate 10 v)))

is_stream-known : (s : Text) → is_stream s ≡ true → (s ≡ codes "loadcells") ⊎ (s ≡ codes "doors")
is_stream-known s h = elim (Bool-cases (same_text s (codes "loadcells"))) [
  | inl e ↦ inl (same_text→eq s (codes "loadcells") e)
  | inr e ↦ inr (same_text→eq s (codes "doors") (rw e at h))
]

known-is_stream : (s : Text) → (s ≡ codes "loadcells") ⊎ (s ≡ codes "doors") → is_stream s ≡ true
known-is_stream s (inl e) = rw e refl
known-is_stream s (inr e) = rw e refl

all_streams-AllKnown : (ss : List Text) → all_streams ss ≡ true → AllKnown ss
all_streams-AllKnown [] h = tt
all_streams-AllKnown (s ∷ ss) h = elim (Bool-cases (is_stream s)) [
  | inl e ↦ (is_stream-known s e, all_streams-AllKnown ss (rw e at h))
  | inr e ↦ absurd (cc (rw e at h))
]

AllKnown-all_streams : (ss : List Text) → AllKnown ss → all_streams ss ≡ true
AllKnown-all_streams [] h = refl
AllKnown-all_streams (s ∷ ss) (k, h) = rw (known-is_stream s k) (AllKnown-all_streams ss h)

-- What the conversion of all texts comes to.
abbrev IsConversion : List Text → Option (List Float) → Type 0
IsConversion ts none = SomeUnread ts
IsConversion ts (some vs) = AllRead ts vs

both-IsConversion :
    (t : Text) (ts : List Text) (v : Option Float) (o : Option (List Float))
    → python_float t ≡ v
    → IsConversion ts o
    → IsConversion (t ∷ ts) (both v o)
both-IsConversion t ts none none e h = inl e
both-IsConversion t ts none (some vs) e h = inl e
both-IsConversion t ts (some v) none e h = inr h
both-IsConversion t ts (some v) (some vs) e h = (e, h)

all_floats-IsConversion : (ts : List Text) → IsConversion ts (all_floats ts)
all_floats-IsConversion [] = tt
all_floats-IsConversion (t ∷ ts) =
    both-IsConversion t ts (python_float t) (all_floats ts) refl (all_floats-IsConversion ts)

length-AllRead : (ts : List Text) (vs : List Float) → AllRead ts vs → length vs ≡ length ts
length-AllRead [] [] h = refl
length-AllRead (t ∷ ts) (v ∷ vs) (e, h) = ap suc (length-AllRead ts vs h)
length-AllRead [] (v ∷ vs) h = absurd h
length-AllRead (t ∷ ts) [] h = absurd h

not_same : {m n : ℕ} → (m == n) ≡ false → m ≢ n
not_same {m} {n} h e = cc ((==_iff m n).1 e)

module _ (names ts : List Text) (named : IsNamed names) where
  abbrev Fine : Verdict → Type 0
  Fine v = Explained names ts v

  one_explained :
      (o : Option (List Float)) → IsConversion ts o → length ts ≡ 1 → Fine (one_threshold names o)
  one_explained none h one = inr (inr (inl (refl, named, one, h)))
  one_explained (some []) h one = absurd (omega (arith, length-AllRead ts [] h))
  one_explained (some (v ∷ [])) h one = (refl, named, inr (v, one, h, refl))
  one_explained (some (v ∷ w ∷ vs)) h one = absurd (omega (arith, length-AllRead ts (v ∷ w ∷ vs) h))

  ten_explained :
      (o : Option (List Float)) → IsConversion ts o → length ts ≡ 10 → Fine (ten_thresholds names o)
  ten_explained none h ten = inr (inr (inr (inl (refl, named, ten, h))))
  ten_explained (some vs) h ten = (refl, named, inl (ten, h))

  thresholds_explained : Fine (parse_thresholds names ts)
  unfolding parse_thresholds
  thresholds_explained = elim (Bool-cases (length ts == 1)) [
    | inl one ↦
        rw one (one_explained (all_floats ts) (all_floats-IsConversion ts) ((==_iff _ 1).0 one))
    | inr many ↦ elim (Bool-cases (length ts == 10)) [
      | inl ten ↦
          rw (many, ten)
            (ten_explained (all_floats ts) (all_floats-IsConversion ts) ((==_iff _ 10).0 ten))
      | inr other ↦
          rw (many, other)
            (inr (inr (inr (inr (refl, named, λ e. not_same many e, λ e. not_same other e)))))
    ]
  ]

named_none : (names : List Text) → is_empty names ≡ true → names ≡ []
named_none [] h = refl
named_none (n ∷ names) h = cc

named_some : (names : List Text) → is_empty names ≡ false → ¬ (names ≡ [])
named_some [] h e = cc
named_some (n ∷ names) h e = cc

pub parse_request_lem :
    (streams threshold : Text)
    → Explained (parts streams) (parts threshold) (parse_request streams threshold)
unfolding parse_request
parse_request_lem streams threshold =
    let names = parts streams in
    elim (Bool-cases (is_empty names)) [
      | inl empty ↦ rw empty (inl (refl, named_none names empty))
      | inr some_name ↦ elim (Bool-cases (all_streams names)) [
        | inl known ↦
            rw (some_name, known)
              (thresholds_explained names (parts threshold)
                (named_some names some_name, all_streams-AllKnown names known))
        | inr unknown ↦
            rw (some_name, unknown)
              (inr (
                inl (
                  refl,
                  named_some names some_name,
                  λ k. absurd (cc (unknown, AllKnown-all_streams names k)),
                )))
      ]
    ]
