-- ===== src/Linear/Model.antt =====
-- The register model of cmd/thesis-oracle-linearizable/search.go: the successor states that an
-- operation may produce, in the order the search tries them.
use pro_thesis.Prelude.{List, [], ◌∷◌, Bool, true, false, not, ◌&&◌, if◌then◌else◌}
use pro_thesis.Linear.Value.{Value, Operation, OpKind, read, write, equal}

-- The two halves of `alternatives`, by the operation's kind.
unfoldable pub alternatives_of : OpKind → Value → Operation → List Value
alternatives_of read state op =
    if not state.known then op.value ∷ [] else if equal state op.value then state ∷ [] else []
alternatives_of write state op =
    if not op.maybe
    then op.value ∷ []
    else if equal state op.value
    then op.value ∷ []
    else op.value ∷ state ∷ []

unfoldable pub alternatives : Value → Operation → List Value
unfolding alternatives_of
alternatives state op = alternatives_of op.kind state op

abbrev pub is_write : OpKind → Bool
is_write read = false
is_write write = true

-- Whether the chosen alternative left the register with the operation's own written value.
unfoldable pub applied : Value → Operation → Bool
applied chosen op = is_write op.kind && (chosen.known && equal chosen op.value)
