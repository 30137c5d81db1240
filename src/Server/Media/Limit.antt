-- ===== src/Server/Media/Limit.antt =====
-- The size of a page (`list_media` of crates/server/src/media.rs).
use trust_server.Common.{ℕ, ◌≤◌, ◌≡◌, Option, none, some, arith, min, max}
use trust_server.Common.Int.{ℤ, pos, negsuc}
use trust_server.Server.Media.{page_limit}

-- The size of a page is between 1 and 100 whatever limit a client asks for, it is the limit itself
-- where that is in the range, 1 where it is negative, and 30 where there is none.
pub page_limit_bounds :
    (limit : Option ℤ)
    → (1 ≤ page_limit limit)
      × (page_limit limit ≤ 100)
      × ((n : ℕ)
          → (page_limit (some (pos n)) ≡ max 1 (min n 100)) × (page_limit (some (negsuc n)) ≡ 1))
      × (page_limit none ≡ 30)
unfolding page_limit
page_limit_bounds none =
    (ground arith, ground arith, λ n. (ground arith, ground arith), ground arith)
page_limit_bounds (some (pos m)) =
    (ground arith, ground arith, λ n. (ground arith, ground arith), ground arith)
page_limit_bounds (some (negsuc m)) =
    (ground arith, ground arith, λ n. (ground arith, ground arith), ground arith)
