-- ===== src/Streams.antt =====
-- Two interleaved byte streams, as a list of bytes that are tagged with their stream.
use sandboxed_workspace_mcp.Base.{
  ℕ, zero, suc, ◌+◌, ◌-◌, ◌≡◌, ◌≤◌, refl, sym, ap, ◌∙◌, Bool, true, false, not, List, [], ◌∷◌, ◌++◌,
  length, take, drop, if◌then◌else◌, arith,
}

abbrev pub Bytes : Type 0
Bytes = List ℕ

-- A byte with the stream that it belongs to: `true` for the standard output.
abbrev pub Stream : Type 0
Stream = List (Bool × ℕ)

abbrev pub tag : Bool → Bytes → Stream
tag t [] = []
tag t (c ∷ cs) = (t, c) ∷ tag t cs

abbrev pub same : Bool → Bool → Bool
same true t = t
same false t = not t

unfoldable pub select : Bool → Stream → Bytes
select t [] = []
select t ((u, c) ∷ s) = let rest = select t s in if same t u then c ∷ rest else rest

pub select-append : (t : Bool) (xs ys : Stream) → select t (xs ++ ys) ≡ select t xs ++ select t ys
unfolding select
select-append t [] ys = refl
select-append t ((u, c) ∷ xs) ys = ground (arith, select-append t xs ys)

pub select-tag : (t u : Bool) (cs : Bytes) → select t (tag u cs) ≡ (if same t u then cs else [])
unfolding select
select-tag t u [] = ground arith
select-tag t u (c ∷ cs) = ground (arith, select-tag t u cs)

pub take-append {ℓ} :
    {A : Type ℓ} (n : ℕ) (front back : List A)
    → take n (front ++ back) ≡ take n front ++ take (n - length front) back
take-append zero [] back = refl
take-append zero (x ∷ front) back =
    let none_left : 0 - length (x ∷ front) ≡ 0 = omega arith in rw none_left refl
take-append (suc n) [] back = let all : suc n - 0 ≡ suc n = omega arith in rw all refl
take-append (suc n) (x ∷ front) back =
    let less : suc n - suc (length front) ≡ n - length front = omega arith in
    rw less (ap (◌∷◌ x) (take-append n front back))

pub take-tag : (t : Bool) (n : ℕ) (cs : Bytes) → take n (tag t cs) ≡ tag t (take n cs)
take-tag t zero cs = refl
take-tag t (suc n) [] = refl
take-tag t (suc n) (c ∷ cs) = ap (◌∷◌ (t, c)) (take-tag t n cs)

pub length-tag : (t : Bool) (cs : Bytes) → length (tag t cs) ≡ length cs
length-tag t [] = refl
length-tag t (c ∷ cs) = ap suc (length-tag t cs)

pub drop-append {ℓ} :
    {A : Type ℓ} (n : ℕ) (front back : List A)
    → drop n (front ++ back) ≡ drop n front ++ drop (n - length front) back
drop-append zero [] back = refl
drop-append zero (x ∷ front) back =
    let none_left : 0 - length (x ∷ front) ≡ 0 = omega arith in rw none_left refl
drop-append (suc n) [] back = let all : suc n - 0 ≡ suc n = omega arith in rw all refl
drop-append (suc n) (x ∷ front) back =
    let less : suc n - suc (length front) ≡ n - length front = omega arith in
    rw less (drop-append n front back)

pub drop-tag : (t : Bool) (n : ℕ) (cs : Bytes) → drop n (tag t cs) ≡ tag t (drop n cs)
drop-tag t zero cs = refl
drop-tag t (suc n) [] = refl
drop-tag t (suc n) (c ∷ cs) = drop-tag t n cs

pub drop_past {ℓ} : {A : Type ℓ} (n : ℕ) (xs : List A) → length xs ≤ n → drop n xs ≡ []
drop_past zero [] h = refl
drop_past (suc n) [] h = refl
drop_past zero (x ∷ xs) h = absurd (omega arith)
drop_past (suc n) (x ∷ xs) h = drop_past n xs (omega arith)

-- Past the first part, only the second is left.
pub drop_front {ℓ} :
    {A : Type ℓ} (n : ℕ) (front back : List A)
    → length front ≤ n
    → drop n (front ++ back) ≡ drop (n - length front) back
drop_front n front back h =
    drop-append n front back ∙ ap (λ r. r ++ drop (n - length front) back) (drop_past n front h)

-- Within the first part, the second stays whole.
pub drop_within {ℓ} :
    {A : Type ℓ} (n : ℕ) (front back : List A)
    → n ≤ length front
    → drop n (front ++ back) ≡ drop n front ++ back
drop_within n front back h =
    let zero_left : n - length front ≡ 0 = omega arith in
    drop-append n front back ∙ ap (λ k. drop n front ++ drop k back) zero_left

drop_none {ℓ} : {A : Type ℓ} (n : ℕ) → ◌≡◌ {A = List A} (drop n []) []
drop_none zero = refl
drop_none (suc n) = refl

pub drop-drop {ℓ} : {A : Type ℓ} (m n : ℕ) (xs : List A) → drop m (drop n xs) ≡ drop (n + m) xs
drop-drop m zero xs = let same_count : 0 + m ≡ m = omega arith in rw same_count refl
drop-drop m (suc n) [] = drop_none m ∙ sym (drop_none (suc n + m))
drop-drop m (suc n) (x ∷ xs) =
    let one_less : suc n + m ≡ suc (n + m) = omega arith in rw one_less (drop-drop m n xs)
