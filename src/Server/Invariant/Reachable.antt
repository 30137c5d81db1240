-- ===== src/Server/Invariant/Reachable.antt =====
-- Every state that requests reach from an empty database.
use trust_server.Common.{List}
use trust_server.Storage.Tables.{Tables, no_tables}
use trust_server.Server.World.{World}
use trust_server.Server.Router.{Request, Extractors, after_requests}
use trust_server.Server.Db.Messages.Sequence.{IsSequenced}
use trust_server.Server.Db.Conversations.Privacy.{IsPrivate}
use trust_server.Server.Keeps.Requests.{after_requests-keeps}
use trust_server.Server.Invariant.Stability.{stable}
use trust_server.Server.Invariant.Unique.{IsUnique, IsUnique-parts}
use trust_server.Server.Invariant.Numbers.{IsSequenced-parts}
use trust_server.Server.Invariant.Privacy.{IsPrivate-parts}

-- what the tables are for: numbered messages, private conversations, unique sessions
pub record IsSound (t : Tables) : Type 0 where
  pub numbered : IsSequenced t
  pub private : IsPrivate t
  pub unique : IsUnique t

-- Any requests keep the tables sound, served one after the other, whatever their handlers answer and
-- whichever statements fail: every message has a number between 1 and the last one of its
-- conversation, only the two accounts of a pair take part in the pair's conversation and no two
-- pairs share one, and no two sessions share their id or one of their token hashes.
pub after_requests-IsSound :
    (x : Extractors) (reqs : List Request) (w : World)
    → IsSound w.backend.tables
    → IsSound (after_requests x reqs w).backend.tables
after_requests-IsSound x reqs w s = record {
  numbered = after_requests-keeps (stable IsSequenced-parts) x reqs w s.numbered;
  private = after_requests-keeps (stable IsPrivate-parts) x reqs w s.private;
  unique = after_requests-keeps (stable IsUnique-parts) x reqs w s.unique;
}

pub no_tables-IsSound : IsSound no_tables
no_tables-IsSound = record {
  numbered = record { in_range = λ cid seq m. cc };
  private = record {
    members_exist = λ cid x m. cc;
    pairs_exist = λ lo hi cid m. cc;
    pairs_differ = λ lo hi lo' hi' cid m k. cc;
    only_the_pair = λ lo hi cid x m k. cc;
  };
  unique = record { ids = tt; access = tt; refresh = tt };
}
