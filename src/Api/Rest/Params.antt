-- ===== src/Api/Rest/Params.antt =====
-- src/api/rest_api.cpp, apiLoop: the parameters after the question mark.
use mcp2515_rpi.Base.{
  ℕ, zero, suc, ◌<◌, ◌≤◌, ◌≡◌, refl, sym, subst, ◌∙◌, true, false, some, List, [], ◌∷◌, ◌++◌,
  length, length-append, append-nil, append_assoc, All, ◌==◌, if◌then◌else◌, arith, inl, inr,
  Bool-cases,
}
use mcp2515_rpi.Base.Texts.{same_text}
use mcp2515_rpi.Api.Rest.{
  Params, has, split_at, get_line, put_param, read_params, query_params, add_pair,
}

split-no : (d : ℕ) (xs : List ℕ) → has d xs ≡ false → split_at d xs ≡ (xs, [])
unfolding split_at
split-no d [] h = refl
split-no d (x ∷ xs) h = elim (Bool-cases (x == d)) [
  | inl same ↦ ground (arith, h, same)
  | inr other ↦
      let later : has d xs ≡ false = ground (arith, h, other) in
      rw (other, if◌then◌else◌, split-no d xs later) refl
]

split-append : (d : ℕ) (xs ys : List ℕ) → has d xs ≡ false → split_at d (xs ++ (d ∷ ys)) ≡ (xs, ys)
unfolding split_at
split-append d [] ys h = let same : (d == d) ≡ true = ground arith in rw (same, if◌then◌else◌) refl
split-append d (x ∷ xs) ys h = elim (Bool-cases (x == d)) [
  | inl same ↦ ground (arith, h, same)
  | inr other ↦
      let later : has d xs ≡ false = ground (arith, h, other) in
      rw (other, if◌then◌else◌, split-append d xs ys later) refl
]

has-here : (d : ℕ) (xs ys : List ℕ) → has d (xs ++ (d ∷ ys)) ≡ true
has-here d [] ys = ground arith
has-here d (x ∷ xs) ys = ground (arith, has-here d xs ys)

has-neither :
    (d : ℕ) (xs ys : List ℕ) → has d xs ≡ false → has d ys ≡ false → has d (xs ++ ys) ≡ false
has-neither d [] ys h hs = hs
has-neither d (x ∷ xs) ys h hs = elim (Bool-cases (x == d)) [
  | inl same ↦ ground (arith, h, same)
  | inr other ↦
      let later : has d xs ≡ false = ground (arith, h, other) in
      rw (other, if◌then◌else◌) (has-neither d xs ys later hs)
]

-- How a client writes a parameter and several of them, and a path with them.
abbrev pub pair_text : List ℕ × List ℕ → List ℕ
pair_text (name, value) = name ++ (b'=' ∷ value)

abbrev pub joined : List (List ℕ × List ℕ) → List ℕ
joined [] = []
joined (p ∷ []) = pair_text p
joined (p ∷ q ∷ pairs) = pair_text p ++ (b'&' ∷ joined (q ∷ pairs))

abbrev pub with_query : List ℕ → List (List ℕ × List ℕ) → List ℕ
with_query path [] = path
with_query path (p ∷ pairs) = path ++ (b'?' ∷ joined (p ∷ pairs))

pub record IsParam (p : List ℕ × List ℕ) : Type 0 where
  pub name_plain : has b'=' p.0 ≡ false
  pub name_whole : has b'&' p.0 ≡ false
  pub value_whole : has b'&' p.1 ≡ false

-- No name twice.
abbrev pub Distinct : List (List ℕ × List ℕ) → Type 0
Distinct [] = Unit {0}
Distinct (p ∷ pairs) = All (λ q. same_text p.0 q.0 ≡ false) pairs × Distinct pairs

put-new :
    (params : Params) (p : List ℕ × List ℕ) (pairs : List (List ℕ × List ℕ))
    → Distinct (params ++ (p ∷ pairs))
    → put_param params p.0 p.1 ≡ params ++ (p ∷ [])
unfolding put_param
put-new [] p pairs h = refl
put-new (q ∷ params) p pairs h =
    rw (differs params h.0, if◌then◌else◌, put-new params p pairs h.1) refl
  where
    differs :
        (params : Params)
        → All (λ x. same_text q.0 x.0 ≡ false) (params ++ (p ∷ pairs))
        → same_text q.0 p.0 ≡ false
    differs [] h = h.0
    differs (x ∷ params) h = differs params h.1

pair_long : (p : List ℕ × List ℕ) → 0 < length (pair_text p)
pair_long ([], value) = omega arith
pair_long (c ∷ name, value) = omega arith

get_line-split :
    (d : ℕ) (query : List ℕ) → 0 < length query → get_line d query ≡ some (split_at d query)
unfolding get_line
get_line-split d [] h = absurd (omega arith)
get_line-split d (c ∷ cs) h = refl

add_pair_lem :
    (params : Params) (p : List ℕ × List ℕ)
    → IsParam p
    → add_pair params (pair_text p) ≡ put_param params p.0 p.1
add_pair_lem params (name, value) h =
    rw (has-here b'=' name value, split-append b'=' name value h.name_plain) refl

read-none : (fuel : ℕ) (params : Params) → read_params fuel params [] ≡ params
unfolding read_params get_line
read-none zero params = refl
read-none (suc fuel) params = refl

no_amp : (p : List ℕ × List ℕ) → IsParam p → has b'&' (pair_text p) ≡ false
no_amp (name, value) h = has-neither b'&' name (b'=' ∷ value) h.name_whole h.value_whole

long_append : (xs ys : List ℕ) → 0 < length xs → 0 < length (xs ++ ys)
long_append [] ys h = absurd (omega arith)
long_append (x ∷ xs) ys h = omega arith

-- Parameters of different names are read as they are, after those that are there.
pub read-joined :
    (fuel : ℕ) (params : Params) (pairs : List (List ℕ × List ℕ))
    → length (joined pairs) ≤ fuel
    → All IsParam pairs
    → Distinct (params ++ pairs)
    → read_params fuel params (joined pairs) ≡ params ++ pairs
unfolding read_params
read-joined fuel params [] enough good apart = read-none fuel params ∙ sym (append-nil params)
read-joined zero params (p ∷ []) enough good apart = absurd (omega (arith, pair_long p))
read-joined (suc fuel) params (p ∷ []) enough good apart =
    rw
      (
        get_line-split b'&' (pair_text p) (pair_long p),
        split-no b'&' (pair_text p) (no_amp p good.0),
        add_pair_lem params p good.0,
        put-new params p [] apart,
      )
      (read-none fuel (params ++ (p ∷ [])))
read-joined zero params (p ∷ q ∷ pairs) enough good apart =
    absurd (omega (arith, long_append (pair_text p) (b'&' ∷ joined (q ∷ pairs)) (pair_long p)))
read-joined (suc fuel) params (p ∷ q ∷ pairs) enough good apart =
    let size = length-append (pair_text p) (b'&' ∷ joined (q ∷ pairs)) in
    let same = append_assoc params (p ∷ []) (q ∷ pairs) in
    rw
      (
        get_line-split b'&' (pair_text p ++ (b'&' ∷ joined (q ∷ pairs)))
            (long_append (pair_text p) (b'&' ∷ joined (q ∷ pairs)) (pair_long p)),
        split-append b'&' (pair_text p) (joined (q ∷ pairs)) (no_amp p good.0),
        add_pair_lem params p good.0,
        put-new params p (q ∷ pairs) apart,
      )
      (read-joined fuel (params ++ (p ∷ [])) (q ∷ pairs) (omega (arith, size)) good.1
          (subst Distinct (sym same) apart)
        ∙ same)

-- A path with parameters is split into the path and exactly those parameters.
pub query-with_query :
    (path : List ℕ) (pairs : List (List ℕ × List ℕ))
    → has b'?' path ≡ false
    → All IsParam pairs
    → Distinct pairs
    → ((split_at b'?' (with_query path pairs)).0 ≡ path)
      × (query_params (with_query path pairs) ≡ pairs)
query-with_query path [] plain good apart = rw (split-no b'?' path plain) (refl, read-none 0 [])
query-with_query path (p ∷ pairs) plain good apart =
    rw (split-append b'?' path (joined (p ∷ pairs)) plain)
      (refl, read-joined (length (joined (p ∷ pairs))) [] (p ∷ pairs) (omega arith) good apart)
