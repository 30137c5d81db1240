-- ===== src/Commit.antt =====
-- crates/crypto/src/lib.rs: the compare-and-swap on a group's epoch. An epoch is an `i64`, whose
-- successor wraps around in a release build.
pub mod Chain
use trust_server.Common.{
  ℕ, zero, suc, ◌+◌, ◌-◌, ◌^◌, Bool, true, false, ◌&&◌, if◌then◌else◌, ◌==◌, ltb,
}
use trust_server.Common.Int.{ℤ, pos, negsuc, pos_part, neg_part}

pub data CommitDecision : Type 0 where
  accept : (new_epoch : ℤ) → CommitDecision
  conflict : (current_epoch : ℤ) → CommitDecision

abbrev pub i64_bound : ℕ
i64_bound = 2 ^ 63

-- `current_epoch + 1` on an `i64`
unfoldable pub next_epoch : ℤ → ℤ
next_epoch (pos n) = if ltb (n + 1) i64_bound then pos (n + 1) else negsuc (i64_bound - 1)
next_epoch (negsuc zero) = pos 0
next_epoch (negsuc (suc n)) = negsuc n

abbrev pub same_epoch : ℤ → ℤ → Bool
same_epoch a b = pos_part a == pos_part b && neg_part a == neg_part b

unfoldable pub decide_commit : ℤ → ℤ → CommitDecision
unfolding next_epoch
decide_commit current_epoch base_epoch =
    if same_epoch base_epoch current_epoch
    then accept (next_epoch current_epoch)
    else conflict current_epoch
