-- ===== src/Shrink/Ddmin/Minimal.antt =====
-- What delta debugging (ddmin.go) returns of a test that judges subsets by one predicate.
use pro_thesis.Prelude.{
  ℕ, zero, suc, ◌+◌, ◌-◌, ◌*◌, ◌≤◌, ◌<◌, ◌≡◌, ◌≢◌, refl, sym, ap, ◌∙◌, subst, List, [], ◌∷◌, Bool,
  not, inl, inr, arith, In, All, Bool-cases, All_of_In,
}
use pro_thesis.Prelude.{if◌then◌else◌, ltb, leb, length, get_or, map, if_intro}
use pro_thesis.Shrink.Budget.{StopReason, stop_complete, stop_canceled}
use pro_thesis.Shrink.Ddmin.{
  Answer, halt, accept, reject, partition, member, without, complements, Round, return, leave, next,
  refine, to_complement, to_subset, round,
}
use pro_thesis.Shrink.Ddmin.Parts.{
  IsSelection, Ascending, IsPart, partition-IsPart, partition-singletons, without-lt,
  IsSelection-segment, IsSelection-filter,
}

-- The test accepts only a subset of which `P` holds, rejects only where it holds of none, and does
-- not say that it stopped for no reason.
pub record IsHonest {W : Type 0} (test : W → List (List ℕ) → W × Answer) (P : List ℕ → Type 0)
    : Type 0 where
  pub accepts :
      (w : W) (subsets : List (List ℕ)) (i : ℕ)
      → (test w subsets).1 ≡ accept i
      → (i < length subsets) × P (get_or subsets i [])
  pub rejects :
      (w : W) (subsets : List (List ℕ)) → (test w subsets).1 ≡ reject → All (λ s. ¬ (P s)) subsets
  pub halts : (w : W) (subsets : List (List ℕ)) → (test w subsets).1 ≢ halt stop_complete

-- Taking any one element out leaves nothing that `P` holds of.
abbrev pub IsOneMinimal : (List ℕ → Type 0) → List ℕ → Type 0
IsOneMinimal P c = (e : ℕ) → In e c → ¬ (P (without c (e ∷ [])))

get_or-All :
    {A : Type 0} (Q : A → Type 0) (xs : List A) (i : ℕ) (d : A)
    → All Q xs
    → i < length xs
    → Q (get_or xs i d)
get_or-All Q [] i d h lt = absurd (omega arith)
get_or-All Q (x ∷ xs) zero d (h, hs) lt = h
get_or-All Q (x ∷ xs) (suc i) d (h, hs) lt = get_or-All Q xs i d hs (omega arith)

get_or-default :
    {A : Type 0} (xs : List A) (i : ℕ) (d e : A) → i < length xs → get_or xs i d ≡ get_or xs i e
get_or-default [] i d e lt = absurd (omega arith)
get_or-default (x ∷ xs) zero d e lt = refl
get_or-default (x ∷ xs) (suc i) d e lt = get_or-default xs i d e (omega arith)

All-map :
    {A B : Type 0} (Q : B → Type 0) (f : A → B) (xs : List A)
    → All (λ x. Q (f x)) xs
    → All Q (map f xs)
All-map Q f [] h = tt
All-map Q f (x ∷ xs) (h, hs) = (h, All-map Q f xs hs)

map-All :
    {A B : Type 0} (Q : B → Type 0) (f : A → B) (xs : List A)
    → All Q (map f xs)
    → All (λ x. Q (f x)) xs
map-All Q f [] h = tt
map-All Q f (x ∷ xs) (h, hs) = (h, map-All Q f xs hs)

All-imp :
    {A : Type 0} (P Q : A → Type 0) (xs : List A) → ((x : A) → P x → Q x) → All P xs → All Q xs
All-imp P Q [] f h = tt
All-imp P Q (x ∷ xs) f (h, hs) = (f x h, All-imp P Q xs f hs)

-- With two elements, the parts are the complements.
two_IsOneMinimal :
    (P : List ℕ → Type 0) (c : List ℕ)
    → length c ≡ 2
    → Ascending c
    → All (λ s. ¬ (P s)) (map (λ x. x ∷ []) c)
    → IsOneMinimal P c
two_IsOneMinimal P [] e a h k m = absurd (omega arith)
two_IsOneMinimal P (x ∷ []) e a h k m = absurd (omega arith)
two_IsOneMinimal P (x ∷ y ∷ z ∷ c) e a h k m = absurd (omega arith)
two_IsOneMinimal P (x ∷ y ∷ []) e a h k (inl q) =
    let s : without (x ∷ y ∷ []) (k ∷ []) ≡ y ∷ [] = ground arith in λ p. h.1.0 (subst P s p)
two_IsOneMinimal P (x ∷ y ∷ []) e a h k (inr (inl q)) =
    let s : without (x ∷ y ∷ []) (k ∷ []) ≡ x ∷ [] = ground arith in λ p. h.0 (subst P s p)
two_IsOneMinimal P (x ∷ y ∷ []) e a h k (inr (inr q)) = elim q [ ]

-- All the complements of single elements are rejected.
many_IsOneMinimal :
    (P : List ℕ → Type 0) (c : List ℕ)
    → All (λ s. ¬ (P s)) (map (without c) (map (λ x. x ∷ []) c))
    → IsOneMinimal P c
many_IsOneMinimal P c h e m =
    let singles = map-All (λ s. ¬ (P s)) (without c) (map (λ x. x ∷ []) c) h in
    All_of_In _ e c (map-All (λ p. ¬ (P (without c p))) (λ x. x ∷ []) c singles) m

-- What falls from round to round: the elements, then the granularity that is left.
abbrev pub measure : ℕ → List ℕ → ℕ → ℕ
measure n c gran = length c * (n + 1) + (length c - gran)

measure-lt :
    (n : ℕ) (c c' : List ℕ) (gran gran' : ℕ)
    → length c ≤ n
    → length c' < length c
    → measure n c' gran' < measure n c gran
measure-lt n c c' gran gran' h lt = grind arith

module _ {W : Type 0} (test : W → List (List ℕ) → W × Answer) (canceled : W → Bool)
    (P : List ℕ → Type 0) (honest : IsHonest test P) (n : ℕ) where
  -- A round from measure `m` over `c` is fine.
  abbrev pub Fine : ℕ → List ℕ → Round W → Type 0
  Fine m c (return w c' s) = (c' ≡ c) × (s ≢ stop_complete)
  Fine m c (leave w) = IsOneMinimal P c
  Fine m c (next w c' gran) =
      IsSelection n c' × P c' × (2 ≤ gran) × (length c' ≤ n) × (measure n c' gran < m)

  refine-Fine :
      (w : W) (c : List ℕ) (gran : ℕ)
      → IsSelection n c
      → P c
      → 2 ≤ gran
      → gran ≤ length c
      → length c ≤ n
      → (gran ≡ length c → IsOneMinimal P c)
      → Fine (measure n c gran) c (refine test canceled w c gran)
  unfolding refine
  refine-Fine w c gran sel p h2 hg hn min = elim (Bool-cases (leb (length c) gran)) [
    | inl e ↦ rw e (min (ground arith))
    | inr e ↦ rw e (sel, p, ground arith, hn, ground arith)
  ]

  by_answer :
      (m : ℕ) (c : List ℕ) (a : Answer) (f : StopReason → Round W) (g : ℕ → Round W) (h : Round W)
      → ((s : StopReason) → a ≡ halt s → Fine m c (f s))
      → ((i : ℕ) → a ≡ accept i → Fine m c (g i))
      → (a ≡ reject → Fine m c h)
      → Fine m c (elim a as (λ _. Round W) [ halt s ↦ f s | accept i ↦ g i | reject ↦ h ])
  by_answer m c (halt s) f g h hf hg hh = hf s refl
  by_answer m c (accept i) f g h hf hg hh = hg i refl
  by_answer m c reject f g h hf hg hh = hh refl

  -- An accepted subset, one of a batch of shorter selections.
  accepted-Fine :
      (w : W) (c : List ℕ) (gran gran' : ℕ) (subsets : List (List ℕ)) (i : ℕ)
      → length c ≤ n
      → 2 ≤ gran'
      → All (λ s. IsSelection n s × (length s < length c)) subsets
      → (test w subsets).1 ≡ accept i
      → Fine (measure n c gran) c (next (test w subsets).0 (get_or subsets i c) gran')
  accepted-Fine w c gran gran' subsets i hn h2 fit e =
      let (lt, p) = honest.accepts w subsets i e in
      let q : get_or subsets i [] ≡ get_or subsets i c = get_or-default subsets i [] c lt in
      let (sel, shorter) =
        get_or-All (λ s. IsSelection n s × (length s < length c)) subsets i c fit lt in
      (sel, subst P q p, h2, omega arith, measure-lt n c (get_or subsets i c) gran gran' hn shorter)

  to_complement-Fine :
      (w : W) (c : List ℕ) (gran : ℕ)
      → IsSelection n c
      → P c
      → 2 ≤ gran
      → gran ≤ length c
      → length c ≤ n
      → All (λ s. ¬ (P s)) (partition c gran)
      → Fine (measure n c gran) c (to_complement test canceled w c gran)
  unfolding to_complement complements
  to_complement-Fine w c gran sel p h2 hg hn parts =
      let comps = complements c (partition c gran) in
      let m = measure n c gran in
      let singles : gran ≡ length c → partition c gran ≡ map (λ x. x ∷ []) c =
        λ e. ap (partition c) e ∙ partition-singletons c (omega arith) in
      let fit : All (λ s. IsSelection n s × (length s < length c)) comps =
        All-map _ (without c) (partition c gran) (
          All-imp (IsPart c) _ (partition c gran)
            (λ q part. (IsSelection-filter n (λ e. not (member e q)) c sel, without-lt c q part))
            (partition-IsPart c gran h2 hg)) in
      if_intro (Fine m c) (ltb 2 gran) _ (refine test canceled w c gran)
        (λ more.
          by_answer m c (test w comps).1 (λ s. return (test w comps).0 c s)
            (λ i.
              next (test w comps).0 (get_or comps i c) (if ltb (gran - 1) 2 then 2 else gran - 1))
            (refine test canceled (test w comps).0 c gran)
            (λ s e. (refl, λ q. honest.halts w comps (e ∙ ap halt q)))
            (λ i e. accepted-Fine w c gran _ comps i hn (ground arith) fit e)
            (λ e. refine-Fine (test w comps).0 c gran sel p h2 hg hn (λ q. many_IsOneMinimal P c (
              subst (λ ps. All (λ s. ¬ (P s)) (map (without c) ps)) (singles q)
                (honest.rejects w comps e)))))
        (λ few. refine-Fine w c gran sel p h2 hg hn (λ q.
          two_IsOneMinimal P c (ground arith) sel.0
            (subst (λ ps. All (λ s. ¬ (P s)) ps) (singles q) parts)))

  to_subset-Fine :
      (w : W) (c : List ℕ) (gran : ℕ)
      → IsSelection n c
      → P c
      → 2 ≤ gran
      → gran ≤ length c
      → length c ≤ n
      → Fine (measure n c gran) c (to_subset test canceled w c gran)
  unfolding to_subset
  to_subset-Fine w c gran sel p h2 hg hn =
      let parts = partition c gran in
      let w' = (test w parts).0 in
      let fit : All (λ s. IsSelection n s × (length s < length c)) parts =
        All-imp (IsPart c) _ parts
          (λ q part. (
            subst (IsSelection n) (sym part.segment)
                (IsSelection-segment n part.from part.size c sel),
            part.proper,
          ))
          (partition-IsPart c gran h2 hg) in
      by_answer (measure n c gran) c (test w parts).1 (λ s. return w' c s)
        (λ i. next w' (get_or parts i c) 2) (to_complement test canceled w' c gran)
        (λ s e. (refl, λ q. honest.halts w parts (e ∙ ap halt q)))
        (λ i e. accepted-Fine w c gran 2 parts i hn (omega arith) fit e)
        (λ e. to_complement-Fine w' c gran sel p h2 hg hn (honest.rejects w parts e))

  pub round-Fine :
      (w : W) (c : List ℕ) (gran : ℕ)
      → IsSelection n c
      → P c
      → 2 ≤ gran
      → 2 ≤ length c
      → length c ≤ n
      → Fine (measure n c gran) c (round test canceled w c gran)
  unfolding round
  round-Fine w c gran sel p h2 hc hn =
      let m = measure n c gran in
      if_intro (Fine m c) (canceled w) (return w c stop_canceled) _ (λ _. (refl, λ q. ground arith))
        (λ _.
          if_intro (λ g. Fine m c (to_subset test canceled w c g)) (ltb (length c) gran) (length c)
            gran
            (λ e.
              subst (λ k. Fine k c (to_subset test canceled w c (length c))) (ground arith)
                (to_subset-Fine w c (length c) sel p hc (omega arith) hn))
            (λ e. to_subset-Fine w c gran sel p h2 (ground arith) hn))
