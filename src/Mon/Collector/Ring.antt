-- ===== src/Mon/Collector/Ring.antt =====
-- The history of internal/mon/collector.go holds the latest samples.
use stageneth.Prelude.{
  ℕ, zero, suc, ◌+◌, ◌-◌, ◌≤◌, List, [], ◌∷◌, ◌++◌, ltb, length, drop, length-append, length-drop,
  append_assoc, append-nil, ◌≡◌, ◌∙◌, refl, ap, sym, arith, Bool-cases, inl, inr,
}
use stageneth.Mon.Collector.{push_sample}

module _ {ℓ} {A : Type ℓ} where
  -- The last `k` elements of a list, or all where there are fewer.
  abbrev pub latest : ℕ → List A → List A
  latest k l = drop (length l - k) l

  -- The history after these samples, from an empty one.
  unfoldable pub collect_all : ℕ → List A → List A → List A
  unfolding push_sample
  collect_all max_hist history [] = history
  collect_all max_hist history (s ∷ ss) = collect_all max_hist (push_sample max_hist s history) ss

  push_sample-latest : (k : ℕ) (s : A) (l : List A) → push_sample k s l ≡ latest k (l ++ s ∷ [])
  unfolding push_sample
  push_sample-latest k s l = elim (Bool-cases (ltb k (length (l ++ s ∷ [])))) [
    | inl e ↦ rw e refl
    | inr e ↦
        let none_over : length (l ++ s ∷ []) - k ≡ 0 = ground (arith, e) in rw (e, none_over) refl
  ]

  drop-nil : (n : ℕ) → drop {A = A} n [] ≡ []
  drop-nil zero = refl
  drop-nil (suc n) = refl

  drop-append : (n : ℕ) (l m : List A) → n ≤ length l → drop n (l ++ m) ≡ drop n l ++ m
  drop-append zero l m h = refl
  drop-append (suc n) [] m h = let no : ⊥ = omega (arith, h) in elim no [ ]
  drop-append (suc n) (x ∷ l) m h = drop-append n l m (omega (arith, h))

  drop-drop : (n k : ℕ) (l : List A) → drop n (drop k l) ≡ drop (k + n) l
  drop-drop n zero l = ap (λ i. drop i l) (omega arith)
  drop-drop zero (suc k) [] = sym (drop-nil (suc k + 0))
  drop-drop (suc n) (suc k) [] = sym (drop-nil (suc k + suc n))
  drop-drop n (suc k) (x ∷ l) =
      let next : suc (k + n) ≡ suc k + n = omega arith in
      drop-drop n k l ∙ ap (λ i. drop i (x ∷ l)) next

  -- the latest of a list that was cut before and has grown since
  latest-latest : (k : ℕ) (l m : List A) → latest k (latest k l ++ m) ≡ latest k (l ++ m)
  latest-latest k l m =
      let cut = length l - k in
      let again = length (drop cut l ++ m) - k in
      let cut_small : cut ≤ length l = omega arith in
      let total : cut + again ≡ length (l ++ m) - k =
        omega (arith, length-append (drop cut l) m, length-drop cut l, length-append l m) in
      ap (drop again) (sym (drop-append cut l m cut_small))
      ∙ drop-drop again cut (l ++ m)
      ∙ ap (λ i. drop i (l ++ m)) total

  collect_all-from :
      (k : ℕ) (old : List A) (ss : List A) → collect_all k (latest k old) ss ≡ latest k (old ++ ss)
  unfolding collect_all
  collect_all-from k old [] = ap (latest k) (sym (append-nil old))
  collect_all-from k old (s ∷ ss) =
      ap (λ h. collect_all k h ss)
        (push_sample-latest k s (latest k old) ∙ latest-latest k old (s ∷ []))
      ∙ collect_all-from k (old ++ s ∷ []) ss
      ∙ ap (latest k) (append_assoc old (s ∷ []) ss)

  -- After any samples from the start, the history is the latest of them in their order, at most
  -- `maxHist` of them, and all of them where there were no more.
  pub collect_all-latest :
      (k : ℕ) (ss : List A)
      → (collect_all k [] ss ≡ latest k ss) × (length (collect_all k [] ss) ≤ k)
  collect_all-latest k ss =
      let start : latest k [] ≡ [] = drop-nil (0 - k) in
      let whole : collect_all k [] ss ≡ latest k ss =
        ap (λ h. collect_all k h ss) (sym start) ∙ collect_all-from k [] ss in
      (whole, omega (arith, ap (λ l. length l) whole, length-drop (length ss - k) ss))
