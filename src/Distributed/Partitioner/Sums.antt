-- ===== src/Distributed/Partitioner/Sums.antt =====
-- Sums of weights over lists and over the workers of a group.
use graphlearn_for_pytorch.Prelude.{
  ℕ, zero, suc, ◌+◌, ◌<◌, ◌≤◌, ◌≡◌, ◌≢◌, refl, ap, sym, ◌∙◌, List, [], ◌∷◌, ◌++◌, arith, get_elem?,
  some, some_inj, ◌⊎◌, inl, inr, ◌==◌, ==_iff, ==_refl, ==_ne, true, false, Bool-cases,
}
use graphlearn_for_pytorch.Distributed.Partitioner.{put_at}

module _ {A : Type 0} (f : A → ℕ) where
  abbrev pub weigh : List A → ℕ
  weigh [] = 0
  weigh (x ∷ xs) = f x + weigh xs

  pub weigh-append : (xs ys : List A) → weigh (xs ++ ys) ≡ weigh xs + weigh ys
  weigh-append [] ys = omega arith
  weigh-append (x ∷ xs) ys = omega (arith, weigh-append xs ys)

  pub weigh_between :
      (xs : List A) (y : A) (ys : List A) → weigh (xs ++ y ∷ ys) ≡ f y + weigh (xs ++ ys)
  weigh_between [] y ys = refl
  weigh_between (x ∷ xs) y ys = omega (arith, weigh_between xs y ys)

pub weigh_same :
    {A : Type 0} {f g : A → ℕ} → ((x : A) → f x ≡ g x) → (xs : List A) → weigh f xs ≡ weigh g xs
weigh_same h [] = refl
weigh_same h (x ∷ xs) = omega (arith, h x, weigh_same h xs)

pub weigh_zero :
    {A : Type 0} (f : A → ℕ) (xs : List A)
    → ((k : ℕ) (x : A) → get_elem? xs k ≡ some x → f x ≡ 0)
    → weigh f xs ≡ 0
weigh_zero f [] h = refl
weigh_zero f (x ∷ xs) h = omega (arith, h 0 x refl, weigh_zero f xs (λ k. h (suc k)))

pub weigh_at :
    {A : Type 0} (f : A → ℕ) (xs : List A) (k : ℕ) (x : A)
    → get_elem? xs k ≡ some x
    → f x ≤ weigh f xs
weigh_at f [] k x e = cc
weigh_at f (y ∷ xs) zero x e = omega (arith, ap f (some_inj e))
weigh_at f (y ∷ xs) (suc k) x e = omega (arith, weigh_at f xs k x e)

-- The sum of the first `n` values.
abbrev pub total : ℕ → (ℕ → ℕ) → ℕ
total zero f = 0
total (suc n) f = f n + total n f

pub total_same : (n : ℕ) (f g : ℕ → ℕ) → ((i : ℕ) → i < n → f i ≡ g i) → total n f ≡ total n g
total_same zero f g h = refl
total_same (suc n) f g h =
    omega (arith, h n (omega arith), total_same n f g (λ i lt. h i (omega arith)))

pub ==_cases : (a b : ℕ) → (a ≡ b) ⊎ (a ≢ b)
==_cases a b = elim (Bool-cases (a == b)) [
  | inl e ↦ inl ((==_iff a b).0 e)
  | inr e ↦ inr (λ eq. let clash : true ≡ false = sym ((==_iff a b).1 eq) ∙ e in cc)
]

pub ≢_lt : (w n : ℕ) → w ≢ n → w < suc n → w < n
≢_lt w n ne lt = ground arith

pub ≢_above : (s r : ℕ) → r ≢ s → s ≤ r → suc s ≤ r
≢_above s r ne le = ground arith

pub total-le : (n w : ℕ) (f : ℕ → ℕ) → w < n → f w ≤ total n f
total-le zero w f lt = absurd (omega arith)
total-le (suc n) w f lt = elim (==_cases w n) [
  | inl e ↦ omega (arith, ap f e)
  | inr ne ↦ omega (arith, total-le n w f (≢_lt w n ne lt))
]

pub total_zero : (n : ℕ) (f : ℕ → ℕ) → ((w : ℕ) → w < n → f w ≡ 0) → total n f ≡ 0
total_zero zero f h = refl
total_zero (suc n) f h =
    omega (arith, h n (omega arith), total_zero n f (λ w lt. h w (omega arith)))

-- A change of one value changes the sum by as much.
pub total_change :
    (n w : ℕ) (f g : ℕ → ℕ)
    → w < n
    → ((i : ℕ) → i ≢ w → f i ≡ g i)
    → total n g + f w ≡ total n f + g w
total_change zero w f g lt h = absurd (omega arith)
total_change (suc n) w f g lt h = elim (==_cases w n) [
  | inl e ↦
      let same = total_same n f g (λ i lt'. h i (λ eq. omega (arith, eq, e))) in
      rw e (omega (arith, same))
  | inr ne ↦
      let here = h n (λ e. ne (sym e)) in
      omega (arith, here, total_change n w f g (omega (arith, ≢_lt w n ne lt)) h)
]

module _ {A : Type 0} where
  pub put_at_self : (w : ℕ) (x : A) (f : ℕ → A) → put_at w x f w ≡ x
  put_at_self w x f = rw (==_refl w) refl

  pub put_at_other : (w i : ℕ) (x : A) (f : ℕ → A) → i ≢ w → put_at w x f i ≡ f i
  put_at_other w i x f ne = rw (==_ne i w ne) refl
