-- ===== src/Commit/Chain.antt =====
-- The order that the sequencer puts on the commits of a group (crates/crypto/src/lib.rs).
use trust_server.Common.{
  ℕ, zero, suc, ◌+◌, ◌<◌, ◌≡◌, refl, true, List, [], ◌∷◌, arith, length, if◌then◌else◌,
}
use trust_server.Common.Int.{ℤ, pos, negsuc}
use trust_server.Commit.{CommitDecision, accept, conflict, i64_bound, decide_commit, same_epoch}

-- the group's epoch after a decision
abbrev pub after : ℤ → CommitDecision → ℤ
after current (accept e) = e
after current (conflict e) = current

-- The commits that are accepted when commits built on the given epochs arrive in turn, and the
-- epoch that the group ends at.
abbrev pub accepted : ℤ → List ℤ → List ℤ
accepted current [] = []
accepted current (base ∷ commits) =
    let rest = accepted (after current (decide_commit current base)) commits in
    elim (decide_commit current base) [ accept e ↦ base ∷ rest | conflict e ↦ rest ]

abbrev pub final : ℤ → List ℤ → ℤ
final current [] = current
final current (base ∷ commits) = final (after current (decide_commit current base)) commits

-- the epochs from `n` on
abbrev pub epochs_from : ℕ → ℕ → List ℤ
epochs_from n zero = []
epochs_from n (suc k) = pos n ∷ epochs_from (n + 1) k

decide_at :
    (n : ℕ) (base : ℤ)
    → n + 1 < i64_bound
    → decide_commit (pos n) base
      ≡ (if same_epoch base (pos n) then accept (pos (n + 1)) else conflict (pos n))
unfolding decide_commit
decide_at n base h = ground arith

same_epoch→eq : (base : ℤ) (n : ℕ) → same_epoch base (pos n) ≡ true → base ≡ pos n
same_epoch→eq (pos m) n h = ground arith
same_epoch→eq (negsuc m) n h = ground arith

-- Whatever commits arrive, as long as the epochs stay within an `i64`, those accepted form one
-- chain: they are built on the epochs from the first one on, each exactly once and in order, and
-- the group ends at the first epoch plus their number.
pub commits_form_chain :
    (n : ℕ) (commits : List ℤ)
    → n + length commits < i64_bound
    → (accepted (pos n) commits ≡ epochs_from n (length (accepted (pos n) commits)))
      × (final (pos n) commits ≡ pos (n + length (accepted (pos n) commits)))
commits_form_chain n [] h = (refl, ground arith)
commits_form_chain n (base ∷ commits) h = ground (
  arith,
  decide_at n base,
  same_epoch→eq base n,
  commits_form_chain n commits,
  commits_form_chain (n + 1) commits,
)
