-- ===== src/Shrink/Judge/Logged.antt =====
-- The judgement of candidates (internal/shrink/probe.go, `firstReproducing`) over an executor that keeps a
-- log of what it ran: what an accepted candidate rests on.
use pro_thesis.Prelude.{
  ℕ, ◌+◌, ◌≤◌, ◌<◌, ◌≡◌, refl, sym, ap, subst, List, [], ◌∷◌, Bool, true, false, not, ◌&&◌, ◌||◌,
  Option, none, some, arith,
}
use pro_thesis.Prelude.{length, get_or, All}
use pro_thesis.Prelude.Int.{ℤ, pos, ◌≤ℤ◌}
use pro_thesis.Shrink.Identity.{Identity, Strictness, Mismatch, match_at, rank}
use pro_thesis.Shrink.Identity.Levels.{match_at-relaxed}
use pro_thesis.Shrink.Attempt.{Candidate, Attempt}
use pro_thesis.Shrink.Attempt.Shown.{has_match, shows, one_if}
use pro_thesis.Shrink.Prober.{Prober, same_key, is_match}
use pro_thesis.Shrink.Prober.Sane.{IsSane}
use pro_thesis.Shrink.Prober.Shown.{IsMeasure}
use pro_thesis.Shrink.Judge.{no_decision, no_candidate, first_reproducing}
use pro_thesis.Shrink.Judge.Passes.{Accepts}
use pro_thesis.Shrink.Judge.Rounds.{first_reproducing-IsJudged}
use pro_thesis.Shrink.Judge.Resting.{first_reproducing-IsResting}

-- Every execution that gave an attempt, the last one first.
abbrev pub Log : Type 0
Log = List (Candidate × Attempt)

abbrev pub noted : Candidate → Option Attempt → Log → Log
noted c none log = log
noted c (some a) log = (c, a) ∷ log

-- An executor that writes each execution down.
abbrev pub logged :
    {E : Type 0}
    → (E → Candidate → E × Option Attempt)
    → E × Log
    → Candidate
    → (E × Log) × Option Attempt
logged execute_one e c = let (env, x) = execute_one e.0 c in ((env, noted c x e.1), x)

matched : (x : Option Mismatch) → is_match x ≡ true → x ≡ none
matched none e = refl
matched (some why) e = absurd (ground arith)

is_match-relaxed :
    (s t : Strictness) (orig got : Identity)
    → rank s ≤ rank t
    → is_match (match_at t orig got) ≡ true
    → is_match (match_at s orig got) ≡ true
is_match-relaxed s t orig got le e =
    ap is_match (match_at-relaxed s t orig got le (matched (match_at t orig got) e))

or_mono :
    (a b c d : Bool)
    → (a ≡ true → c ≡ true)
    → (b ≡ true → d ≡ true)
    → (a || b) ≡ true
    → (c || d) ≡ true
or_mono true b c d f g e = rw (f refl) refl
or_mono false b true d f g e = refl
or_mono false b false d f g e = g e

and_mono :
    (a b c d : Bool)
    → (a ≡ true → c ≡ true)
    → (b ≡ true → d ≡ true)
    → one_if (a && b) ≤ one_if (c && d)
and_mono false b c d f g = omega arith
and_mono true false c d f g = omega arith
and_mono true true c d f g = rw (f refl, g refl) (omega arith)

and_right : (a b d : Bool) → (b ≡ true → d ≡ true) → (a && b) ≡ true → (a && d) ≡ true
and_right true b d g e = g e
and_right false b d g e = e

has_match-relaxed :
    (s t : Strictness) (orig : Identity) (ids : List Identity)
    → rank s ≤ rank t
    → has_match t orig ids ≡ true
    → has_match s orig ids ≡ true
has_match-relaxed s t orig [] le e = e
has_match-relaxed s t orig (got ∷ ids) le e =
    or_mono (is_match (match_at t orig got)) (has_match t orig ids) (is_match (match_at s orig got))
      (has_match s orig ids) (is_match-relaxed s t orig got le) (has_match-relaxed s t orig ids le)
      e

-- The logged executions of a candidate, by its key, that showed the violation at a level.
abbrev pub runs_showing :
    Identity → (Candidate → Candidate → Bool) → Strictness → Candidate → Log → ℕ
runs_showing orig same_candidate s c [] = 0
runs_showing orig same_candidate s c ((d, a) ∷ log) =
    one_if (same_candidate d c && shows s orig a) + runs_showing orig same_candidate s c log

module _ {E : Type 0} (orig : Identity) (same_candidate : Candidate → Candidate → Bool)
    (itself : (c : Candidate) → same_candidate c c ≡ true)
    (chained : (c d e : Candidate)
      → same_candidate c d ≡ true
      → same_candidate d e ≡ true
      → same_candidate c e ≡ true)
    (execute_one : E → Candidate → E × Option Attempt) where
  abbrev counted : Strictness → Candidate → Log → ℕ
  counted s c log = runs_showing orig same_candidate s c log

  noted-grows :
      (s : Strictness) (d c : Candidate) (x : Option Attempt) (log : Log)
      → counted s d log ≤ counted s d (noted c x log)
  noted-grows s d c none log = omega arith
  noted-grows s d c (some a) log = omega arith

  noted-hits :
      (s : Strictness) (c : Candidate) (a : Attempt) (x : Option Attempt) (log : Log)
      → x ≡ some a
      → counted s c log + one_if (shows s orig a) ≤ counted s c (noted c x log)
  noted-hits s c a x log e =
      subst (λ y. counted s c log + one_if (shows s orig a) ≤ counted s c (noted c y log)) (sym e)
        (omega (
          arith,
          and_mono true (shows s orig a) (same_candidate c c) (shows s orig a) (λ _. itself c)
              (λ q. q),
        ))

  counted-laxer :
      (s t : Strictness) (c : Candidate) (log : Log)
      → rank s ≤ rank t
      → counted t c log ≤ counted s c log
  counted-laxer s t c [] le = omega arith
  counted-laxer s t c ((d, a) ∷ log) le = omega (
    arith,
    and_mono (same_candidate d c) (shows t orig a) (same_candidate d c) (shows s orig a) (λ q. q)
        (and_right (not a.failed && a.reached) (has_match t orig a.observed)
          (has_match s orig a.observed) (has_match-relaxed s t orig a.observed le)),
    counted-laxer s t c log le,
  )

  counted-shared :
      (s : Strictness) (c d : Candidate) (log : Log)
      → same_candidate c d ≡ true
      → counted s c log ≤ counted s d log
  counted-shared s c d [] e = omega arith
  counted-shared s c d ((k, a) ∷ log) e = omega (
    arith,
    and_mono (same_candidate k c) (shows s orig a) (same_candidate k d) (shows s orig a)
        (λ q. chained k c d q e) (λ q. q),
    counted-shared s c d log e,
  )

  log-IsMeasure :
      IsMeasure orig same_candidate (logged execute_one) (λ s c (e : E × Log). counted s c e.1)
  log-IsMeasure = record {
    grows = λ s d e c. noted-grows s d c (execute_one e.0 c).1 e.1;
    hits = λ s e c a q. noted-hits s c a (execute_one e.0 c).1 e.1 q;
    laxer = λ s t c e le. counted-laxer s t c e.1 le;
    shared = λ s c d e q. counted-shared s c d e.1 q;
  }

  module _ (Seen : Identity → Type 0) (needed : ℤ) (unreduced : Option Candidate) (w r : ℕ)
      (level : Strictness) (elapsed : E → ℤ) (canceled : E → Bool)
      (keyed : (d id : Identity) → same_key d id ≡ true → Seen id → Seen d)
      (seen : (e : E) (c : Candidate) (a : Attempt) (u : Candidate)
        → (execute_one e c).1 ≡ some a
        → unreduced ≡ some u
        → same_candidate u c ≡ true
        → All Seen a.observed) where
    -- Each cached decision counts no more reproductions than executions of its candidate in the log that
    -- showed the violation at the level of the prober.
    abbrev pub RestsOnLog : Prober (E × Log) → Type 0
    RestsOnLog p =
        All
          (λ x. (x.1).reproduced ≤ runs_showing orig same_candidate p.pol.strictness x.0 (p.env).1)
          p.cache

    -- If what the unreduced world is seen to diverge by is recorded from its executions, `Seen` goes by an
    -- identity's key, and equality of candidates is reflexive and transitive: judging candidates keeps the
    -- invariant of the prober, that is, a decision of reproduction in the cache rests on the required
    -- number of reproductions, the worlds run are those charged to the ledger and within its ceiling, and
    -- the level of the identity test is the first one, or the floor, and then the unreduced world was seen
    -- to drift; and it keeps that no cached decision counts more reproductions than the log of all
    -- executions has executions of its candidate in which a judgeable execution observed a match of the
    -- original violation at the level of the prober. The candidate that is accepted is one of those given,
    -- with a decision of reproduction on it; the reproductions that it counts are the required number, and
    -- no more than the executions of the candidate in the log that observed a match at the level that the
    -- prober has in the end.
    pub first_reproducing-RestsOnLog :
        (p : Prober (E × Log)) (cs : List Candidate)
        → IsSane orig Seen needed unreduced w r level p
        → RestsOnLog p
        → let x =
            first_reproducing orig same_candidate
              (logged execute_one)
              (λ e. elapsed e.0)
              (λ e. canceled e.0)
              p
              cs in
          IsSane orig Seen needed unreduced w r level x.prober
          × RestsOnLog x.prober
          × ((i : ℕ)
              → x.accepted ≡ some i
              → (i < length cs)
                × Accepts x.decisions i
                × (needed ≤ℤ pos (get_or x.decisions i no_decision).reproduced)
                × ((get_or x.decisions i no_decision).reproduced
                    ≤ runs_showing orig same_candidate
                        (x.prober).pol.strictness
                        (get_or cs i no_candidate)
                        ((x.prober).env).1))
    first_reproducing-RestsOnLog p cs h rest =
        let (sane, accepts) =
          first_reproducing-IsJudged orig Seen needed unreduced w r level same_candidate
            (logged execute_one) (λ e. elapsed e.0) (λ e. canceled e.0) keyed
            (λ e c a u. seen e.0 c a u) p cs h in
        let x =
          first_reproducing-IsResting orig same_candidate (logged execute_one) (λ e. elapsed e.0)
            (λ e. canceled e.0) (λ s c (e : E × Log). counted s c e.1) log-IsMeasure p cs rest in
        (sane, x.then_on.rest rest, λ i e. let (a, b, c) = accepts i e in (a, b, c, x.decisions i))
