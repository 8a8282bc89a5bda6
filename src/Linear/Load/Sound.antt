-- ===== src/Linear/Load/Sound.antt =====
-- The operations that cmd/thesis-oracle-linearizable/load.go loads: their intervals, and their split
-- by key.
use pro_thesis.Prelude.{
  ◌≡◌, refl, sym, ap, ◌∙◌, List, [], ◌∷◌, Option, none, some, Bool, true, false,
}
use pro_thesis.Prelude.{String, All, In, arith, str_eq, subst, ltb, length, not, if◌then◌else◌}
use pro_thesis.Linear.Value.{Value, Operation, read, write}
use pro_thesis.Linear.Check.{KeyOps}
use pro_thesis.Linear.Check.Sound.{IsForward}
use pro_thesis.Linear.Events.Table.{Forward}
use pro_thesis.Linear.Load.{
  Line, Result, refused, loaded, and_then, RawOp, Refusal, bad_value, no_value, unmodelled_name,
  nothing_checkable, no_reads, read_lines,
}
use pro_thesis.Linear.Load.Precondition.{value_of, op_name, shape, check_precondition}
use pro_thesis.Linear.Load.Build.{
  is_ok, is_fail, bounded, blank, read_operation, write_operation, write_of, build_operation,
  build_all, first_key,
}
use pro_thesis.Linear.Load.Keys.{has_read, of_key, keys_of, group, build_operations, load_history}
use pro_thesis.Linear.Load.Grouped.{IsFit, keep-All, group-All, In-of_key, In-keys_of, In-group}

pub and_then-loaded {ℓ m} :
    {A : Type ℓ} {B : Type m} (x : Result A) (g : A → Result B) {b : B}
    → and_then x g ≡ loaded b
    → (a : A) × (x ≡ loaded a) × (g a ≡ loaded b)
unfolding and_then
and_then-loaded (refused r) g h = ground arith
and_then-loaded (loaded a) g h = (a, refl, h)

loaded_inj {ℓ} : {A : Type ℓ} {x y : A} → loaded x ≡ loaded y → x ≡ y
loaded_inj {x} h = ap (λ z. elim z [ refused r ↦ x | loaded a ↦ a ]) h

true_of_not : (b : Bool) → not b ≡ false → b ≡ true
true_of_not b h = ground arith

bounded-Forward : (ro : RawOp) (op : Operation) → Forward (bounded ro (is_ok ro.complete) op)
unfolding bounded is_ok
bounded-Forward ro op = ground arith

if-IsFit :
    (b : Bool) (x y : Result (Option Operation))
    → (b ≡ true → IsFit x)
    → (b ≡ false → IsFit y)
    → IsFit (if b then x else y)
if-IsFit true x y hx hy = hx refl
if-IsFit false x y hx hy = hy refl

value-IsFit :
    (o : Option Value) (f : Value → Operation)
    → ((v : Value) → Forward (f v))
    → IsFit (elim o [ none ↦ refused bad_value | some v ↦ loaded (some (f v)) ])
value-IsFit none f h = tt
value-IsFit (some v) f h = h v

module _ (micro_keys : String → List String) (canonical_value : String → Option Value) where
  read_operation-IsFit : (ro : RawOp) → IsFit (read_operation micro_keys canonical_value ro)
  unfolding read_operation
  read_operation-IsFit ro =
      if-IsFit (not (is_ok ro.complete)) (loaded none) _ (λ _. tt)
        (λ e.
          if-IsFit (str_eq (value_of ro.complete) "") (loaded none) _ (λ _. tt)
            (λ _.
              value-IsFit (canonical_value (value_of ro.complete))
                (λ v. bounded ro true (blank ro read v false))
                (λ v.
                  subst (λ d. Forward (bounded ro d (blank ro read v false)))
                    (true_of_not (is_ok ro.complete) e)
                    (bounded-Forward ro (blank ro read v false)))))

  write_of-IsFit : (ro : RawOp) (raw : String) → IsFit (write_of micro_keys canonical_value ro raw)
  unfolding write_of
  write_of-IsFit ro raw =
      if-IsFit (str_eq raw "") (refused no_value) _ (λ _. tt)
        (λ _.
          value-IsFit (canonical_value raw)
            (λ v. bounded ro (is_ok ro.complete) (blank ro write v (not (is_ok ro.complete))))
            (λ v. bounded-Forward ro (blank ro write v (not (is_ok ro.complete)))))

  build_operation-IsFit :
      (ro : RawOp) (name : String) → IsFit (build_operation micro_keys canonical_value ro name)
  unfolding build_operation write_operation
  build_operation-IsFit ro name =
      if-IsFit (is_fail ro.complete) (loaded none) _ (λ _. tt)
        (λ _.
          if-IsFit (str_eq name "read") (read_operation micro_keys canonical_value ro) _
            (λ _. read_operation-IsFit ro)
            (λ _.
              if-IsFit (str_eq name "write") (write_operation micro_keys canonical_value ro)
                (refused unmodelled_name) (λ _. write_of-IsFit ro _) (λ _. tt)))

  pub build_all-All :
      (raw : List RawOp) {ops : List (String × Operation)}
      → build_all micro_keys canonical_value raw ≡ loaded ops
      → All (λ o. Forward o.1) ops
  unfolding build_all
  build_all-All [] h = subst (All (λ o. Forward o.1)) (loaded_inj h) tt
  build_all-All (ro ∷ raw) h =
      let (name, e1, h1) = and_then-loaded (op_name ro) _ h in
      let (keys, e2, h2) = and_then-loaded (shape micro_keys canonical_value ro) _ h1 in
      let (built, e3, h3) =
        and_then-loaded (build_operation micro_keys canonical_value ro name) _ h2 in
      let (rest, e4, h4) = and_then-loaded (build_all micro_keys canonical_value raw) _ h3 in
      subst (All (λ o. Forward o.1)) (loaded_inj h4) (
        keep-All (first_key keys) built rest (subst IsFit e3 (build_operation-IsFit ro name))
          (build_all-All raw e4))

if-loaded {ℓ} :
    {A : Type ℓ} (b : Bool) (r : Refusal) (x : Result A) {a : A}
    → (if b then refused r else x) ≡ loaded a
    → x ≡ loaded a
if-loaded true r x h = ground arith
if-loaded false r x h = h

-- `sort.Strings` loses no string.
module _ (micro_keys : String → List String) (canonical_value : String → Option Value)
    (sort_strings : List String → List String) where
  grouped :
      (raw : List RawOp) {keys : List KeyOps}
      → build_operations micro_keys canonical_value sort_strings raw ≡ loaded keys
      → (ops : List (String × Operation)) × (build_all micro_keys canonical_value raw ≡ loaded ops)
        × (group ops (sort_strings (keys_of [] ops)) ≡ keys)
        × (has_read ops ≡ true)
  unfolding build_operations
  grouped raw h =
      let (ops, e, h1) = and_then-loaded (build_all micro_keys canonical_value raw) _ h in
      let h2 = if-loaded (ltb (length ops) 1) nothing_checkable _ h1 in
      let h3 = if-loaded (not (has_read ops)) no_reads _ h2 in (ops, e, loaded_inj h3, ground arith)

  -- No loaded operation returns before it is invoked.
  pub load_history-IsForward :
      (lines : List Line) {keys : List KeyOps}
      → load_history micro_keys canonical_value sort_strings lines ≡ loaded keys
      → All IsForward keys
  unfolding load_history
  load_history-IsForward lines h =
      let (raw, e1, h1) = and_then-loaded (read_lines [] false lines) _ h in
      let (u, e2, h2) = and_then-loaded (check_precondition micro_keys canonical_value raw) _ h1 in
      let (ops, e3, eg, r) = grouped raw h2 in
      subst (All IsForward) eg (
        group-All ops (sort_strings (keys_of [] ops))
          (build_all-All micro_keys canonical_value raw e3))

  -- If the sort of the keys loses none, then every operation that is built stands among the
  -- operations of its own key.
  pub build_operations-keeps :
      (raw : List RawOp) {keys : List KeyOps} {ops : List (String × Operation)}
      (o : String × Operation)
      → ((k : String) (ks : List String) → In k ks → In k (sort_strings ks))
      → build_operations micro_keys canonical_value sort_strings raw ≡ loaded keys
      → build_all micro_keys canonical_value raw ≡ loaded ops
      → In o ops
      → (k : KeyOps) × In k keys × (k.key ≡ o.0) × In o.1 k.ops
  build_operations-keeps raw o sorts h built m =
      let (ops, e, eg, r) = grouped raw h in
      let m' = subst (λ z. In o z) (loaded_inj (sym built ∙ e)) m in
      let k : KeyOps = record { key = o.0; ops = of_key o.0 ops } in
      (
        k,
        subst (λ z. In k z) eg
            (In-group ops o.0 (sort_strings (keys_of [] ops))
              (sorts o.0 (keys_of [] ops) (In-keys_of o [] ops m'))),
        refl,
        In-of_key o ops m',
      )
