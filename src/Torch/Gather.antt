-- ===== src/Torch/Gather.antt =====
-- Reading a tensor: laws of `gather` and of selection by a mask.
use graphlearn_for_pytorch.Prelude.{
  ◌+◌, ◌<◌, ◌≤◌, ℕ, zero, suc, ◌≡◌, refl, ap, List, [], ◌∷◌, ◌++◌, Bool, true, false, Option, some,
  arith, length, get_elem?, take, drop, range, range_from, get_elem?-lt, length-append, >>=-eq-some,
  lt-length_of_get,
}
use graphlearn_for_pytorch.Torch.Reference.{gather, masked, AllBelow}
use mathlib.Core.List.{append_assoc}
use mathlib.Core.Path.{subst₂}

-- The items whose mask is true, with no check of the shapes.
abbrev pub select {ℓ} : {A : Type ℓ} → List A → List Bool → List A
select [] mask = []
select (x ∷ xs) [] = []
select (x ∷ xs) (true ∷ mask) = x ∷ select xs mask
select (x ∷ xs) (false ∷ mask) = select xs mask

module _ {ℓ} {A : Type ℓ} where
  pub masked-eq-select :
      (xs : List A) (mask : List Bool)
      → length xs ≡ length mask
      → masked xs mask ≡ some (select xs mask)
  masked-eq-select [] [] h = refl
  masked-eq-select [] (b ∷ mask) h = absurd (omega arith)
  masked-eq-select (x ∷ xs) [] h = absurd (omega arith)
  masked-eq-select (x ∷ xs) (true ∷ mask) h = rw (masked-eq-select xs mask (omega arith))
  masked-eq-select (x ∷ xs) (false ∷ mask) h = masked-eq-select xs mask (omega arith)

  pub select-append :
      (xs ys : List A) (m n : List Bool)
      → length xs ≡ length m
      → select (xs ++ ys) (m ++ n) ≡ select xs m ++ select ys n
  select-append [] ys [] n h = refl
  select-append [] ys (b ∷ m) n h = absurd (omega arith)
  select-append (x ∷ xs) ys [] n h = absurd (omega arith)
  select-append (x ∷ xs) ys (true ∷ m) n h = ap (λ l. x ∷ l) (select-append xs ys m n (omega arith))
  select-append (x ∷ xs) ys (false ∷ m) n h = select-append xs ys m n (omega arith)

  -- A successful read, item by item.
  pub gather-cons :
      (xs : List A) (i : ℕ) (is : List ℕ) (ys : List A)
      → gather xs (i ∷ is) ≡ some ys
      → (y : A) × (rest : List A) × (get_elem? xs i ≡ some y)
        × (gather xs is ≡ some rest)
        × (ys ≡ y ∷ rest)
  gather-cons xs i is ys h =
      let (y, hy, h') = >>=-eq-some (get_elem? xs i) _ h in
      let (rest, hr, e) = >>=-eq-some (gather xs is) _ h' in (y, rest, hy, hr, cc)

  pub gather-cons_eq :
      (xs : List A) (i : ℕ) (is : List ℕ) {y : A} {ys : List A}
      → get_elem? xs i ≡ some y
      → gather xs is ≡ some ys
      → gather xs (i ∷ is) ≡ some (y ∷ ys)
  gather-cons_eq xs i is h k = rw (h, k)

  pub length-gather :
      (xs : List A) (is : List ℕ) (ys : List A) → gather xs is ≡ some ys → length ys ≡ length is
  length-gather xs [] ys h = ground arith
  length-gather xs (i ∷ is) ys h =
      let (y, rest, _, hr, e) = gather-cons xs i is ys h in
      omega (arith, ap length e, length-gather xs is rest hr)

  pub gather-in_range :
      (xs : List A) (is : List ℕ)
      → AllBelow (length xs) is
      → (ys : List A) × (gather xs is ≡ some ys)
  gather-in_range xs [] h = ([], refl)
  gather-in_range xs (i ∷ is) h =
      let (y, hy) = get_elem?-lt xs i h.0 in
      let (ys, hs) = gather-in_range xs is h.1 in (y ∷ ys, gather-cons_eq xs i is hy hs)

  pub gather-AllBelow :
      (xs : List A) (is : List ℕ) (ys : List A) → gather xs is ≡ some ys → AllBelow (length xs) is
  gather-AllBelow xs [] ys h = tt
  gather-AllBelow xs (i ∷ is) ys h =
      let (y, rest, hy, hr, _) = gather-cons xs i is ys h in
      (lt-length_of_get xs i y hy, gather-AllBelow xs is rest hr)

  -- What was read at each position.
  pub get_elem?-gather :
      (xs : List A) (is : List ℕ) (ys : List A) (k i : ℕ)
      → gather xs is ≡ some ys
      → get_elem? is k ≡ some i
      → get_elem? ys k ≡ get_elem? xs i
  get_elem?-gather xs [] ys k i h e = absurd (cc)
  get_elem?-gather xs (j ∷ is) ys zero i h e =
      let (y, rest, hy, _, eq) = gather-cons xs j is ys h in cc
  get_elem?-gather xs (j ∷ is) ys (suc k) i h e =
      let (y, rest, hy, hr, eq) = gather-cons xs j is ys h in
      rw eq (get_elem?-gather xs is rest k i hr e)

  pub gather-append :
      (xs : List A) (is js : List ℕ) {ys zs : List A}
      → gather xs is ≡ some ys
      → gather xs js ≡ some zs
      → gather xs (is ++ js) ≡ some (ys ++ zs)
  gather-append xs [] js {ys} {zs} h k = let e : ys ≡ [] = cc in rw e k
  gather-append xs (i ∷ is) js {ys} {zs} h k =
      let (y, rest, hy, hr, e) = gather-cons xs i is ys h in
      rw e (gather-cons_eq xs i (is ++ js) hy (gather-append xs is js hr k))

  -- A slice of the indices reads a slice of what they read.
  pub gather-take :
      (n : ℕ) (xs : List A) (is : List ℕ) (ys : List A)
      → gather xs is ≡ some ys
      → gather xs (take n is) ≡ some (take n ys)
  gather-take zero xs is ys h = refl
  gather-take (suc n) xs [] ys h = let e : ys ≡ [] = cc in rw e
  gather-take (suc n) xs (i ∷ is) ys h =
      let (y, rest, hy, hr, e) = gather-cons xs i is ys h in
      rw e (gather-cons_eq xs i (take n is) hy (gather-take n xs is rest hr))

  pub gather-drop :
      (n : ℕ) (xs : List A) (is : List ℕ) (ys : List A)
      → gather xs is ≡ some ys
      → gather xs (drop n is) ≡ some (drop n ys)
  gather-drop zero xs is ys h = h
  gather-drop (suc n) xs [] ys h = let e : ys ≡ [] = cc in rw e
  gather-drop (suc n) xs (i ∷ is) ys h =
      let (y, rest, hy, hr, e) = gather-cons xs i is ys h in rw e (gather-drop n xs is rest hr)

  first_after :
      (pre : List A) (x : A) (xs : List A) → get_elem? (pre ++ x ∷ xs) (length pre) ≡ some x
  first_after [] x xs = refl
  first_after (p ∷ pre) x xs = first_after pre x xs

  shifted :
      (pre : List A) (x : A) (xs : List A) (mask : List Bool) {r : Option (List A)}
      → gather
          ((pre ++ x ∷ []) ++ xs)
          (select (range_from (length (pre ++ x ∷ [])) (length xs)) mask)
        ≡ r
      → gather (pre ++ x ∷ xs) (select (range_from (suc (length pre)) (length xs)) mask) ≡ r
  shifted pre x xs mask {r} h =
      let e : length (pre ++ x ∷ []) ≡ suc (length pre) =
        omega (arith, length-append pre (x ∷ [])) in
      subst₂ (λ l n. gather l (select (range_from n (length xs)) mask) ≡ r)
        (append_assoc pre (x ∷ []) xs) e h

  gather-select_from :
      (pre xs : List A) (mask : List Bool)
      → length xs ≡ length mask
      → gather (pre ++ xs) (select (range_from (length pre) (length xs)) mask)
        ≡ some (select xs mask)
  gather-select_from pre [] mask h = refl
  gather-select_from pre (x ∷ xs) [] h = absurd (omega arith)
  gather-select_from pre (x ∷ xs) (true ∷ mask) h =
      gather-cons_eq (pre ++ x ∷ xs) (length pre) _ (first_after pre x xs)
        (shifted pre x xs mask (gather-select_from (pre ++ x ∷ []) xs mask (omega arith)))
  gather-select_from pre (x ∷ xs) (false ∷ mask) h =
      shifted pre x xs mask (gather-select_from (pre ++ x ∷ []) xs mask (omega arith))

  -- Masking the positions and reading there is masking the items.
  pub gather-select :
      (xs : List A) (mask : List Bool)
      → length xs ≡ length mask
      → gather xs (select (range (length xs)) mask) ≡ some (select xs mask)
  gather-select xs mask h = gather-select_from [] xs mask h

pub AllBelow-get : (n : ℕ) (xs : List ℕ) (i x : ℕ) → AllBelow n xs → get_elem? xs i ≡ some x → x < n
AllBelow-get n [] i x h e = cc
AllBelow-get n (y ∷ xs) zero x h e = ground arith
AllBelow-get n (y ∷ xs) (suc i) x h e = AllBelow-get n xs i x h.1 e

aligned_from :
    {A : Type 0} (xs : List A) (mask : List Bool) (s k id : ℕ)
    → get_elem? (select (range_from s (length xs)) mask) k ≡ some id
    → (e : ℕ) × (id ≡ s + e) × (get_elem? (select xs mask) k ≡ get_elem? xs e)
aligned_from [] mask s k id h = cc
aligned_from (x ∷ xs) [] s k id h = cc
aligned_from (x ∷ xs) (true ∷ mask) s zero id h = (0, ground arith, refl)
aligned_from (x ∷ xs) (true ∷ mask) s (suc k) id h =
    let (e, at, same) = aligned_from xs mask (suc s) k id h in (suc e, omega arith, same)
aligned_from (x ∷ xs) (false ∷ mask) s k id h =
    let (e, at, same) = aligned_from xs mask (suc s) k id h in (suc e, omega arith, same)

-- A column and the positions under one mask stay aligned.
pub select-aligned :
    {A : Type 0} (xs : List A) (mask : List Bool) (k id : ℕ)
    → get_elem? (select (range (length xs)) mask) k ≡ some id
    → get_elem? (select xs mask) k ≡ get_elem? xs id
select-aligned xs mask k id h =
    let (e, at, same) = aligned_from xs mask 0 k id h in let eq : id ≡ e = omega arith in rw eq same

pub AllBelow-mono : (n m : ℕ) (xs : List ℕ) → n ≤ m → AllBelow n xs → AllBelow m xs
AllBelow-mono n m [] le h = tt
AllBelow-mono n m (x ∷ xs) le h = (omega arith, AllBelow-mono n m xs le h.1)

-- One mask selects as many items of one column as of another.
pub length-select_same {ℓ κ} :
    {A : Type ℓ} {B : Type κ} (xs : List A) (ys : List B) (mask : List Bool)
    → length xs ≡ length ys
    → length (select xs mask) ≡ length (select ys mask)
length-select_same [] [] mask h = refl
length-select_same [] (y ∷ ys) mask h = absurd (omega arith)
length-select_same (x ∷ xs) [] mask h = absurd (omega arith)
length-select_same (x ∷ xs) (y ∷ ys) [] h = refl
length-select_same (x ∷ xs) (y ∷ ys) (true ∷ mask) h =
    ap suc (length-select_same xs ys mask (omega arith))
length-select_same (x ∷ xs) (y ∷ ys) (false ∷ mask) h = length-select_same xs ys mask (omega arith)
