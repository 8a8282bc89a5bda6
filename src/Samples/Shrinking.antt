-- ===== src/Samples/Shrinking.antt =====
-- Shrinks of small schedules.
use pro_thesis.Prelude.{
  ℕ, zero, suc, ◌+◌, ◌≤◌, ◌<◌, ◌≡◌, ◌≢◌, ◌↔◌, inl, inr, refl, sym, ap, ◌∙◌, subst, str_eq,
  str_eq_iff, List, [], ◌∷◌, Bool, true, false, Option, none, some, String, arith,
}
use pro_thesis.Prelude.{All, Bool-cases, if◌then◌else◌, get_or, length}
use pro_thesis.Prelude.Int.{ℤ, pos, negsuc, leb_ℤ, ◌+ℤ◌, ◌-ℤ◌, half, ◌≤ℤ◌, ◌<ℤ◌}
use pro_thesis.Shrink.Budget.{Budget, StopReason, stop_complete, new_ledger, acquire, open_reserve}
use pro_thesis.Shrink.Budget.Grants.{granted, grants, worlds_bound, reserve_is_kept}
use pro_thesis.Shrink.Ddmin.{Answer, halt, accept, reject, ddmin, member}
use pro_thesis.Shrink.Ddmin.Minimal.{IsHonest}
use pro_thesis.Shrink.Ddmin.Shrunk.{IsShrunk, ddmin-IsShrunk}
use pro_thesis.Shrink.Identity.{Identity, match_at, match_witness_key, match_unset}
use pro_thesis.Shrink.Identity.Levels.{IsMatch, match_at_iff}
use pro_thesis.Shrink.Narrow.{FaultSpec, narrow_all}
use pro_thesis.Shrink.Narrow.Schedule.{IsNarrowed, IsCanonical, narrow_all-IsNarrowed}
use pro_thesis.Shrink.Policy.{Policy, is_sound, policy_with_defaults}
use pro_thesis.Shrink.Policy.Defaults.{
  IsRunnable, policy_with_defaults-IsRunnable, validated_asymmetry,
}
use pro_thesis.Shrink.Attempt.{signal_unknown, signal_clean}
use pro_thesis.Shrink.Judge.{new_tally}
use pro_thesis.Shrink.Judge.Accepted.{observed, rounds_suffice}

abbrev ten_worlds : Budget
ten_worlds = record {
  wall = pos 1000;
  worlds = pos 10;
  confirm_reserve = pos 3;
  confirm_wall_grace = pos 0;
}

abbrev greedy : List (ℕ × ℤ)
greedy = (4, pos 1) ∷ (9, pos 2) ∷ []

worlds_bound_example :
    (granted (new_ledger ten_worlds) greedy ≤ 7)
    × (granted (new_ledger ten_worlds) greedy
          + granted (open_reserve (grants (new_ledger ten_worlds) greedy)) ((1, pos 3) ∷ [])
        ≤ 10)
worlds_bound_example = worlds_bound 10 3 ten_worlds greedy ((1, pos 3) ∷ []) refl refl

reserve_is_kept_example :
    let l = grants (open_reserve (grants (new_ledger ten_worlds) greedy)) ((1, pos 3) ∷ []) in
    ((acquire l 1 (pos 4)).1 ≡ 1) × ((acquire l 1 (pos 4)).2 ≡ stop_complete)
reserve_is_kept_example =
    reserve_is_kept 10 3 ten_worlds greedy ((1, pos 3) ∷ []) (pos 4) refl refl (omega arith)
      (omega arith) refl

abbrev stale_read : Identity
stale_read = record {
  oracle = "linearizable.kv";
  cls = "consistency";
  severity = "high";
  key = "k/0";
  op_ids = pos 7 ∷ [];
}

match_at_iff_example :
    (match_at match_witness_key stale_read (record stale_read { key = "k/1" }) ≡ none)
    ↔ IsMatch 3 stale_read (record stale_read { key = "k/1" })
match_at_iff_example = match_at_iff match_witness_key stale_read (record stale_read { key = "k/1" })

abbrev stated : Policy
stated = record {
  strictness = match_unset;
  accept_trials = pos 3;
  reject_trials = pos 0;
  unknown_retries = pos 0;
  confirm_k = pos 0;
  parallelism = pos 0;
  narrow_granularity_ms = pos 0;
  narrow_max_probes = pos 0;
  skip_narrowing = false;
  skip_baseline = false;
  skip_ops = false;
  disable_cache = false;
  calibration_probes = pos 0;
}

given_is_sound : is_sound stated ≡ true
unfolding is_sound
given_is_sound = refl

policy_with_defaults-IsRunnable_example : IsRunnable (policy_with_defaults stated)
policy_with_defaults-IsRunnable_example = policy_with_defaults-IsRunnable stated given_is_sound

validated_asymmetry_example :
    (is_sound stated ≡ true
      → pos 1 ≤ℤ pos 0
      → (policy_with_defaults stated).accept_trials ≤ℤ (policy_with_defaults stated).reject_trials)
    × (pos 0 ≡ pos 0
        → pos 3 ≤ℤ pos 3
        → pos 0 ≤ℤ pos 0
        → false ≡ false
        → (is_sound stated ≡ true)
          × ((policy_with_defaults stated).reject_trials
              <ℤ (policy_with_defaults stated).accept_trials))
validated_asymmetry_example = validated_asymmetry stated

abbrev two_one : Policy
two_one = record stated { accept_trials = pos 1; reject_trials = pos 2; unknown_retries = pos 1 }

rounds_suffice_example :
    (observed new_tally
      (signal_clean ∷ signal_unknown ∷ signal_clean ∷ signal_clean ∷ [])
      two_one).done
    ≡ true
rounds_suffice_example =
    rounds_suffice two_one (signal_clean ∷ signal_unknown ∷ signal_clean ∷ signal_clean ∷ [])
      (omega arith) (omega arith) (omega arith) (omega arith)

accept_inj : {i j : ℕ} → accept i ≡ accept j → i ≡ j
accept_inj e = ground arith

accept_reject : {i : ℕ} → accept i ≢ reject
accept_reject e = ground arith

accept_halt : {i : ℕ} {s : StopReason} → accept i ≢ halt s
accept_halt e = ground arith

false_ne_true : false ≢ true
false_ne_true e = ground arith

some_fault : {f g : FaultSpec Bool} → some f ≡ some g → f ≡ g
some_fault {f} {g} e = ap (λ z. elim z [ none ↦ f | some y ↦ y ]) e

none_fault : (f : FaultSpec Bool) → none ≢ some f
none_fault f e = ground arith

-- A world that fails wherever the fault 2 is in it.
abbrev Fails : List ℕ → Type 0
Fails c = member 2 c ≡ true

abbrev one_behind : Answer → Answer
one_behind (halt s) = halt s
one_behind (accept i) = accept (suc i)
one_behind reject = reject

abbrev first_failing : List (List ℕ) → Answer
first_failing [] = reject
first_failing (s ∷ ss) =
    let rest = first_failing ss in if member 2 s then accept 0 else one_behind rest

one_behind-accept :
    (x : Answer) (i : ℕ) → one_behind x ≡ accept i → (j : ℕ) × (x ≡ accept j) × (suc j ≡ i)
one_behind-accept (halt s) i e = absurd (ground arith)
one_behind-accept (accept j) i e = (j, refl, ground arith)
one_behind-accept reject i e = absurd (ground arith)

one_behind-reject : (x : Answer) → one_behind x ≡ reject → x ≡ reject
one_behind-reject (halt s) e = absurd (ground arith)
one_behind-reject (accept j) e = absurd (ground arith)
one_behind-reject reject e = refl

one_behind-halt : (x : Answer) → one_behind x ≡ halt stop_complete → x ≡ halt stop_complete
one_behind-halt (halt s) e = e
one_behind-halt (accept j) e = absurd (ground arith)
one_behind-halt reject e = absurd (ground arith)

first_failing-accepts :
    (ss : List (List ℕ)) (i : ℕ)
    → first_failing ss ≡ accept i
    → (i < length ss) × Fails (get_or ss i [])
first_failing-accepts [] i e = absurd (ground arith)
first_failing-accepts (s ∷ ss) i e = elim (Bool-cases (member 2 s)) [
  | inl q ↦
      let z : accept 0 ≡ accept i =
        ap (λ b. if b then accept 0 else one_behind (first_failing ss)) (sym q) ∙ e in
      subst (λ k. (k < suc (length ss)) × Fails (get_or (s ∷ ss) k [])) (accept_inj z)
        (omega arith, q)
  | inr q ↦
      let z = ap (λ b. if b then accept 0 else one_behind (first_failing ss)) (sym q) ∙ e in
      let (j, y, same) = one_behind-accept (first_failing ss) i z in
      let (lt, f) = first_failing-accepts ss j y in
      subst (λ k. (k < suc (length ss)) × Fails (get_or (s ∷ ss) k [])) same (omega arith, f)
]

first_failing-rejects : (ss : List (List ℕ)) → first_failing ss ≡ reject → All (λ s. ¬ (Fails s)) ss
first_failing-rejects [] e = tt
first_failing-rejects (s ∷ ss) e = elim (Bool-cases (member 2 s)) [
  | inl q ↦
      let z : accept 0 ≡ reject =
        ap (λ b. if b then accept 0 else one_behind (first_failing ss)) (sym q) ∙ e in
      absurd (accept_reject z)
  | inr q ↦
      let z = ap (λ b. if b then accept 0 else one_behind (first_failing ss)) (sym q) ∙ e in
      (
        λ f. absurd (false_ne_true (sym q ∙ f)),
        first_failing-rejects ss (one_behind-reject (first_failing ss) z),
      )
]

first_failing-halts : (ss : List (List ℕ)) → first_failing ss ≢ halt stop_complete
first_failing-halts [] e = absurd (ground arith)
first_failing-halts (s ∷ ss) e = elim (Bool-cases (member 2 s)) [
  | inl q ↦
      let z : accept 0 ≡ halt stop_complete =
        ap (λ b. if b then accept 0 else one_behind (first_failing ss)) (sym q) ∙ e in
      accept_halt z
  | inr q ↦
      let z = ap (λ b. if b then accept 0 else one_behind (first_failing ss)) (sym q) ∙ e in
      first_failing-halts ss (one_behind-halt (first_failing ss) z)
]

abbrev fault_test : ℕ → List (List ℕ) → ℕ × Answer
fault_test u ss = (u + 1, first_failing ss)

fault_test-IsHonest : IsHonest fault_test Fails
fault_test-IsHonest = record {
  accepts = λ w ss i e. first_failing-accepts ss i e;
  rejects = λ w ss e. first_failing-rejects ss e;
  halts = λ w ss. first_failing-halts ss;
}

ddmin-IsShrunk_example :
    (r : ℕ × List ℕ × StopReason) × (ddmin fault_test (λ _. false) 0 5 ≡ some r)
    × IsShrunk Fails 5 r.1 r.2
ddmin-IsShrunk_example = ddmin-IsShrunk fault_test (λ _. false) Fails fault_test-IsHonest 5 0 refl

-- Two faults: a window before the start of the drive, and one that may be shortened.
abbrev pause_text : String
pause_text = "proc.pause(n2)@-50..0"

abbrev cut_text : String
cut_text = "net.partition(n1)@100..1000"

abbrev pause : FaultSpec Bool
pause = record { what = true; start_ms = negsuc 49; end_ms = pos 0 }

abbrev cut : FaultSpec Bool
cut = record { what = false; start_ms = pos 100; end_ms = pos 1000 }

abbrev parse_two : String → Option (FaultSpec Bool)
parse_two s =
    if str_eq s pause_text then some pause else if str_eq s cut_text then some cut else none

abbrev print_two : FaultSpec Bool → String
print_two f =
    if f.what
    then pause_text
    else if leb_ℤ (pos 1000) f.end_ms
    then cut_text
    else "net.partition(n1)@shortened"

pause-IsCanonical : IsCanonical parse_two print_two pause_text
pause-IsCanonical f e = ap print_two (sym (some_fault e))

cut-IsCanonical : IsCanonical parse_two print_two cut_text
cut-IsCanonical f e = ap print_two (sym (some_fault e))

nothing-IsCanonical : IsCanonical parse_two print_two ""
nothing-IsCanonical f e = absurd (none_fault f e)

two_faults-IsCanonical :
    (j : ℕ) → IsCanonical parse_two print_two (get_or (pause_text ∷ cut_text ∷ []) j "")
two_faults-IsCanonical zero = pause-IsCanonical
two_faults-IsCanonical (suc zero) = cut-IsCanonical
two_faults-IsCanonical (suc (suc j)) = nothing-IsCanonical

-- A world that reproduces while the pause is in it.
abbrev pause_test : ℕ → List String → ℕ × Bool × StopReason
pause_test u cur = (u + 1, str_eq (get_or cur 0 "") pause_text, stop_complete)

narrow_all-IsNarrowed_example :
    let x =
      narrow_all (λ _. true) parse_two print_two pause_test 100 8 0 (pause_text ∷ cut_text ∷ []) in
    (get_or x.1 0 "" ≡ pause_text)
    × (length x.1 ≡ 2)
    × ((j : ℕ)
        → IsNarrowed parse_two print_two
            (get_or (pause_text ∷ cut_text ∷ []) j "")
            (get_or x.1 j ""))
narrow_all-IsNarrowed_example =
    narrow_all-IsNarrowed parse_two print_two (λ _. true) pause_test 100 8
      (λ cur. get_or cur 0 "" ≡ pause_text)
      (λ w cur e q. (str_eq_iff (get_or cur 0 "") pause_text).0 e) 0 (pause_text ∷ cut_text ∷ [])
      refl two_faults-IsCanonical

-- The pause is kept as it is, and the partition is shortened.
narrowed_two :
    (narrow_all (λ _. true) parse_two print_two pause_test 100 8 0 (pause_text ∷ cut_text ∷ [])).1
    ≡ pause_text ∷ "net.partition(n1)@shortened" ∷ []
unfolding narrow_all ◌+ℤ◌ ◌-ℤ◌ half
narrowed_two = refl
