-- ===== src/Linear/Load/Grouped.antt =====
-- The split by key of load.go, and the intervals of what it splits.
use pro_thesis.Prelude.{◌≡◌, refl, sym, ap, List, [], ◌∷◌, Option, none, some, true}
use pro_thesis.Prelude.{
  String, Bool-cases, All, In, inl, inr, arith, str_eq, str_eq_iff, subst, if◌then◌else◌,
  In-append_left, In-append_right, ◌++◌,
}
use pro_thesis.Linear.Value.{Operation}
use pro_thesis.Linear.Check.Sound.{IsForward}
use pro_thesis.Linear.Events.Table.{Forward}
use pro_thesis.Linear.Load.{Result, refused, loaded}
use pro_thesis.Linear.Load.Precondition.{has_key}
use pro_thesis.Linear.Load.Build.{keep}
use pro_thesis.Linear.Load.Keys.{of_key, keys_of, group}

-- What is built, where something is, is fit.
abbrev pub IsFit : Result (Option Operation) → Type 0
IsFit (refused r) = Unit
IsFit (loaded none) = Unit
IsFit (loaded (some op)) = Forward op

pub keep-All :
    (k : String) (built : Option Operation) (rest : List (String × Operation))
    → IsFit (loaded built)
    → All (λ o. Forward o.1) rest
    → All (λ o. Forward o.1) (keep k built rest)
unfolding keep
keep-All k none rest h hs = hs
keep-All k (some op) rest h hs = (h, hs)

pub of_key-All :
    (k : String) (ops : List (String × Operation))
    → All (λ o. Forward o.1) ops
    → All Forward (of_key k ops)
unfolding of_key
of_key-All k [] h = tt
of_key-All k (o ∷ ops) (h, hs) = elim (Bool-cases (str_eq o.0 k)) [
  | inl e ↦ rw e (h, of_key-All k ops hs)
  | inr e ↦ rw e (of_key-All k ops hs)
]

pub group-All :
    (ops : List (String × Operation)) (keys : List String)
    → All (λ o. Forward o.1) ops
    → All IsForward (group ops keys)
unfolding group
group-All ops [] h = tt
group-All ops (k ∷ keys) h = (of_key-All k ops h, group-All ops keys h)

-- An operation stands among those of its key.
pub In-of_key :
    (o : String × Operation) (ops : List (String × Operation)) → In o ops → In o.1 (of_key o.0 ops)
unfolding of_key
In-of_key o [] m = elim m [ ]
In-of_key o (p ∷ ops) (inl e) =
    rw ((str_eq_iff p.0 o.0).1 (ap (λ z. z.0) (sym e))) (inl (ap (λ z. z.1) e))
In-of_key o (p ∷ ops) (inr m) = elim (Bool-cases (str_eq p.0 o.0)) [
  | inl e ↦ rw e (inr (In-of_key o ops m))
  | inr e ↦ rw e (In-of_key o ops m)
]

pub In-has_key : (k : String) (keys : List String) → has_key keys k ≡ true → In k keys
unfolding has_key
In-has_key k [] h = ground arith
In-has_key k (x ∷ keys) h = elim (Bool-cases (str_eq x k)) [
  | inl e ↦ inl (sym ((str_eq_iff x k).0 e))
  | inr e ↦ inr (In-has_key k keys (ground arith))
]

pub keys_of-keeps :
    (k : String) (keys : List String) (ops : List (String × Operation))
    → In k keys
    → In k (keys_of keys ops)
unfolding keys_of
keys_of-keeps k keys [] m = m
keys_of-keeps k keys (o ∷ ops) m = elim (Bool-cases (has_key keys o.0)) [
  | inl e ↦ rw e (keys_of-keeps k keys ops m)
  | inr e ↦ rw e (keys_of-keeps k (keys ++ o.0 ∷ []) ops (In-append_left k keys (o.0 ∷ []) m))
]

pub In-keys_of :
    (o : String × Operation) (keys : List String) (ops : List (String × Operation))
    → In o ops
    → In o.0 (keys_of keys ops)
unfolding keys_of
In-keys_of o keys [] m = elim m [ ]
In-keys_of o keys (p ∷ ops) (inl e) =
    subst (λ z. In z (keys_of keys (p ∷ ops))) (sym (ap (λ z. z.0) e))
      (elim (Bool-cases (has_key keys p.0)) [
        | inl h ↦ rw h (keys_of-keeps p.0 keys ops (In-has_key p.0 keys h))
        | inr h ↦ rw h (
            keys_of-keeps p.0 (keys ++ p.0 ∷ []) ops
              (In-append_right p.0 keys (p.0 ∷ []) (inl refl)))
      ])
In-keys_of o keys (p ∷ ops) (inr m) =
    In-keys_of o (if has_key keys p.0 then keys else keys ++ p.0 ∷ []) ops m

pub In-group :
    (ops : List (String × Operation)) (k : String) (keys : List String)
    → In k keys
    → In (record { key = k; ops = of_key k ops }) (group ops keys)
unfolding group
In-group ops k [] m = elim m [ ]
In-group ops k (x ∷ keys) (inl e) = inl (ap (λ z. record { key = z; ops = of_key z ops }) e)
In-group ops k (x ∷ keys) (inr m) = inr (In-group ops k keys m)
