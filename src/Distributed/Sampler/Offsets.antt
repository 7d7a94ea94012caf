-- ===== src/Distributed/Sampler/Offsets.antt =====
-- The copies of `CPUStitchSampleResults` in graphlearn_torch/csrc/cpu/stitch_sample_results.cc, on a
-- buffer that is read as the slots of the ids, one after another.
use mathlib.Core.Path.{subst}
use mathlib.Core.List.{append_assoc}
use graphlearn_for_pytorch.Prelude.{
  ◌>>=◌, ℕ, zero, suc, ◌+◌, ◌-◌, ◌<◌, ◌≡◌, ◌≢◌, inl, inr, refl, ap, sym, ◌∙◌, true, false, some,
  List, [], ◌∷◌, ◌++◌, map, ◌==◌, ==_iff, le→leb, if◌then◌else◌, length, take, drop, set, concat,
  arith, Bool-cases, get_elem?, length-append, length-set, get_elem?-set_self, get_elem?-set_ne,
  some_inj,
}
use graphlearn_for_pytorch.Torch.{contains}
use graphlearn_for_pytorch.Distributed.Sampler.{cumsum, memcpy, copy_id, copy_ids}

module _ {A : Type 0} where
  pub take-length : (xs ys : List A) → take (length xs) (xs ++ ys) ≡ xs
  take-length [] ys = refl
  take-length (x ∷ xs) ys = ap (λ zs. x ∷ zs) (take-length xs ys)

  pub drop-length : (xs ys : List A) → drop (length xs) (xs ++ ys) ≡ ys
  drop-length [] ys = refl
  drop-length (x ∷ xs) ys = drop-length xs ys

  drop_both :
      (xs ys zs : List A) (n : ℕ) → n ≡ length ys → drop (length xs + n) (xs ++ (ys ++ zs)) ≡ zs
  drop_both xs ys zs n e =
      ap (λ m. drop m (xs ++ (ys ++ zs))) (omega (arith, e, length-append {0} xs ys))
      ∙ ap (drop (length (xs ++ ys))) (sym (append_assoc xs ys zs))
      ∙ drop-length (xs ++ ys) zs

  memcpy_lem :
      (before old after front new back : List A)
      → length old ≡ length new
      → memcpy
          (before ++ (old ++ after))
          (length before)
          (front ++ (new ++ back))
          (length front)
          (length new)
        ≡ some (before ++ (new ++ after))
  unfolding memcpy
  memcpy_lem before old after front new back same =
      rw
        (
          le→leb (length before + length new) (length (before ++ (old ++ after))) (
              omega (
                arith,
                same,
                length-append {0} before (old ++ after),
                length-append {0} old after,
              )),
          le→leb (length front + length new) (length (front ++ (new ++ back)))
              (omega (arith, length-append {0} front (new ++ back), length-append {0} new back)),
          take-length before (old ++ after),
          drop-length front (new ++ back),
          take-length new back,
          drop_both before old after (length new) (sym same),
        )
        refl

  -- The items before, in and after the slot of a place, which gets new items.
  record Slot (slots : List (List A)) (j : ℕ) (new : List A) : Type 0 where
    before : List A
    old : List A
    after : List A
    at : concat slots ≡ before ++ (old ++ after)
    changed : concat (set slots j new) ≡ before ++ (new ++ after)
    same : length old ≡ length new
    ends :
        (s : ℕ) → get_elem? (cumsum s (map length slots)) j ≡ some (s + length before + length old)

  slot_lem :
      (slots : List (List A)) (j : ℕ) (new : List A)
      → get_elem? (map length slots) j ≡ some (length new)
      → Slot slots j new
  slot_lem [] j new h = absurd cc
  slot_lem (xs ∷ slots) zero new h = record {
    before = [];
    old = xs;
    after = concat slots;
    at = refl;
    changed = refl;
    same = some_inj h;
    ends = λ s. ap some (omega arith);
  }
  slot_lem (xs ∷ slots) (suc j) new h =
      let r = slot_lem slots j new h in
      record {
        before = xs ++ r.before;
        old = r.old;
        after = r.after;
        at = ap (λ ys. xs ++ ys) r.at ∙ sym (append_assoc xs r.before (r.old ++ r.after));
        changed = ap (λ ys. xs ++ ys) r.changed ∙ sym (append_assoc xs r.before (new ++ r.after));
        same = r.same;
        ends = λ s. r.ends (s + length xs) ∙ ap some (omega (arith, length-append {0} xs r.before));
      }

  -- A slot with as many items as before leaves the sizes.
  set-sizes :
      (slots : List (List A)) (j : ℕ) (new : List A)
      → get_elem? (map length slots) j ≡ some (length new)
      → map length (set slots j new) ≡ map length slots
  set-sizes [] j new h = refl
  set-sizes (xs ∷ slots) zero new h = ap (λ n. n ∷ map length slots) (sym (some_inj h))
  set-sizes (xs ∷ slots) (suc j) new h = ap (λ ns. length xs ∷ ns) (set-sizes slots j new h)

  copy_id_lem :
      (slots : List (List A)) (j : ℕ) (front new back : List A)
      → get_elem? (map length slots) j ≡ some (length new)
      → copy_id
          (cumsum 0 (map length slots))
          (front ++ (new ++ back))
          j
          (length new)
          (length front + length new)
          (concat slots)
        ≡ some (concat (set slots j new))
  unfolding copy_id
  copy_id_lem slots j front new back h =
      let r = slot_lem slots j new h in
      let to : 0 + length r.before + length r.old - length new ≡ length r.before =
        omega (arith, r.same) in
      let from : length front + length new - length new ≡ length front = omega arith in
      rw
        (
          r.ends 0,
          le→leb (length new) (0 + length r.before + length r.old) (omega (arith, r.same)),
          to,
          from,
          r.at,
          r.changed,
        )
        (memcpy_lem r.before r.old r.after front new back r.same)

  is_empty : (xs : List A) → length xs ≡ 0 → xs ≡ []
  is_empty [] e = refl
  is_empty (x ∷ xs) e = absurd (omega (arith, e))

  -- Whether or not there is something to copy.
  copied_lem :
      (slots : List (List A)) (j : ℕ) (front new back : List A)
      → get_elem? (map length slots) j ≡ some (length new)
      → (if length new == 0
          then some (concat slots)
          else copy_id
              (cumsum 0 (map length slots))
              (front ++ (new ++ back))
              j
              (length new)
              (length front + length new)
              (concat slots))
        ≡ some (concat (set slots j new))
  copied_lem slots j front new back h = elim (Bool-cases (length new == 0)) [
    | inl e ↦
        let r = slot_lem slots j new h in
        let none_new : length new ≡ 0 = (==_iff (length new) 0).0 e in
        let no_old : r.old ≡ [] = is_empty r.old (r.same ∙ none_new) in
        let no_new : new ≡ [] = is_empty new none_new in
        rw e (
          ap some
            (r.at ∙ ap (λ ys. r.before ++ (ys ++ r.after)) (no_old ∙ sym no_new) ∙ sym r.changed))
    | inr e ↦ rw e (copy_id_lem slots j front new back h)
  ]

  -- The slots of some places get their items.
  abbrev pub set_all : (ℕ → List A) → List ℕ → List (List A) → List (List A)
  set_all g [] slots = slots
  set_all g (i ∷ is) slots = set_all g is (set slots i (g i))

  -- The slots of some places have room for their items.
  abbrev pub Sized : (ℕ → List A) → List ℕ → List ℕ → Type 0
  Sized g lens [] = Unit
  Sized g lens (i ∷ is) = (get_elem? lens i ≡ some (length (g i))) × Sized g lens is

  pub set_all-sizes :
      (g : ℕ → List A) (lens is : List ℕ) (slots : List (List A))
      → map length slots ≡ lens
      → Sized g lens is
      → map length (set_all g is slots) ≡ lens
  set_all-sizes g lens [] slots e fits = e
  set_all-sizes g lens (i ∷ is) slots e (fit, fits) =
      set_all-sizes g lens is (set slots i (g i))
        (set-sizes slots i (g i) (ap (λ ns. get_elem? ns i) e ∙ fit) ∙ e) fits

  pub copy_ids_lem :
      (g : ℕ → List A) (lens is : List ℕ) (front : List A) (slots : List (List A))
      → map length slots ≡ lens
      → Sized g lens is
      → copy_ids
          (cumsum 0 lens)
          (front ++ concat (map g is))
          is
          (map (λ i. length (g i)) is)
          (cumsum (length front) (map (λ i. length (g i)) is))
          (concat slots)
        ≡ some (concat (set_all g is slots))
  unfolding copy_ids
  copy_ids_lem g lens [] front slots e fits = refl
  copy_ids_lem g lens (i ∷ is) front slots e (fit, fits) =
      let here : get_elem? (map length slots) i ≡ some (length (g i)) =
        ap (λ ns. get_elem? ns i) e ∙ fit in
      let rest : List A = concat (map g is) in
      let nums : List ℕ = map (λ i. length (g i)) is in
      let copied = copied_lem slots i front (g i) rest here in
      let ih =
        copy_ids_lem g lens is (front ++ g i) (set slots i (g i)) (set-sizes slots i (g i) here ∙ e)
          fits in
      ap
        (λ ns.
          (if length (g i) == 0
            then some (concat slots)
            else copy_id (cumsum 0 ns) (front ++ (g i ++ rest)) i (length (g i))
                (length front + length (g i)) (concat slots))
          >>= copy_ids (cumsum 0 lens) (front ++ (g i ++ rest)) is nums
              (cumsum (length front + length (g i)) nums))
        (sym e)
      ∙ ap
          (λ o.
            o
            >>= copy_ids (cumsum 0 lens) (front ++ (g i ++ rest)) is nums
                (cumsum (length front + length (g i)) nums))
          copied
      ∙ ap
          (λ items.
            copy_ids (cumsum 0 lens) items is nums (cumsum (length front + length (g i)) nums)
              (concat (set slots i (g i))))
          (sym (append_assoc front (g i) rest))
      ∙ ap
          (λ n.
            copy_ids (cumsum 0 lens) ((front ++ g i) ++ rest) is nums (cumsum n nums)
              (concat (set slots i (g i))))
          (sym (length-append front (g i)))
      ∙ ih

  pub get_elem?-set_all :
      (g : ℕ → List A) (is : List ℕ) (slots : List (List A)) (j : ℕ)
      → j < length slots
      → get_elem? (set_all g is slots) j ≡ (if contains is j then some (g j) else get_elem? slots j)
  get_elem?-set_all g [] slots j lt = refl
  get_elem?-set_all g (i ∷ is) slots j lt =
      let ih =
        get_elem?-set_all g is (set slots i (g i)) j (omega (arith, length-set slots i (g i))) in
      elim (Bool-cases (i == j)) [
        | inl e ↦
            let same : i ≡ j = (==_iff i j).0 e in
            let wrote : get_elem? (set slots i (g i)) j ≡ some (g j) =
              subst (λ k. get_elem? (set slots k (g k)) j ≡ some (g j)) (sym same)
                (get_elem?-set_self slots j (g j) lt) in
            ground (arith, ih, e, wrote)
        | inr e ↦
            let kept : get_elem? (set slots i (g i)) j ≡ get_elem? slots j =
              get_elem?-set_ne slots i j (g i) (other i j e) in
            ground (arith, ih, e, kept)
      ]
    where
      other : (i j : ℕ) → (i == j) ≡ false → i ≢ j
      other i j e same = let yes' : (i == j) ≡ true = (==_iff i j).1 same in cc
