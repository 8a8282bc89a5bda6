-- ===== src/Schema/Codes.antt =====
-- Exit codes against verdicts (pkg/schema/exit.go, enums.go), and an oracle's two result channels
-- (oracle.go).
use pro_thesis.Prelude.{◌≡◌, ◌⊎◌, ◌≤◌, Option, some, arith}
use pro_thesis.Prelude.Int.{ℤ, pos, negsuc, ◌≤ℤ◌}
use pro_thesis.Schema.{
  verdict_of_code, exit_code, OracleStatus, status_ok, status_rank, worse_status, status_of_exit,
  decode_status,
}

-- A code from 0 to 5 is the code of its verdict.
pub exit_code-verdict_of_code :
    (c : ℤ) → pos 0 ≤ℤ c → c ≤ℤ pos 5 → exit_code (verdict_of_code c) ≡ c
unfolding exit_code verdict_of_code
exit_code-verdict_of_code (pos n) a b = ground arith
exit_code-verdict_of_code (negsuc n) a b = absurd (omega arith)

-- An oracle is reported `ok` only where its stdout was read, says `ok`, and it exited 0; and the
-- report is never less strict than its exit code.
pub decode_status-fails_closed :
    (parsed : Option OracleStatus) (code : ℤ)
    → (decode_status parsed code ≡ status_ok → (parsed ≡ some status_ok) × (code ≡ pos 0))
      × (status_rank (status_of_exit code) ≤ status_rank (decode_status parsed code))
unfolding decode_status worse_status status_of_exit status_rank
decode_status-fails_closed parsed code = ((λ h. ground arith), ground arith)

-- Taking the worse of two statuses is never less strict than either, and takes one of them.
pub worse_status-IsUpper :
    (s o : OracleStatus)
    → (status_rank s ≤ status_rank (worse_status s o))
      × (status_rank o ≤ status_rank (worse_status s o))
      × ((worse_status s o ≡ s) ⊎ (worse_status s o ≡ o))
unfolding worse_status
worse_status-IsUpper s o = (ground arith, ground arith, ground arith)
