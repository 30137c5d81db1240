-- ===== src/Tests/Sample.antt =====
-- A small database and the answers of an outside, for the tests.
use trust_server.Common.{ℕ, true, false, none, some, [], ◌∷◌, ◌+◌}
use trust_server.Exec.{ok}
use trust_server.Storage.Models.{Account, Device, Session}
use trust_server.Storage.Tables.{Tables, no_tables, Conversation, Message, Media}
use trust_server.Storage.Outside.{Outside}
use trust_server.Storage.Backend.{Backend}

-- every call reaches the database; the n-th call is at the time n and draws n + 1000
abbrev pub outside : Outside
outside = record {
  fault = λ n. false;
  clock = λ n. n;
  random = λ n. 1000 + n;
  collation = λ a b. true;
  display = λ e. "error";
  base64_encode = λ b. "AA==";
  base64_decode = λ s. some [];
  base64_url = λ n. "x";
  sha256 = λ s. [];
  argon2_hash = λ salt p. ok "hash";
  argon2_verify = λ v p. some true;
  parse_uuid = λ s. none;
}

abbrev pub alice : Account
alice = record { id = 1; username = "alice"; password_verifier = "hash"; created_at = 0 }

abbrev pub bob : Account
bob = record { id = 2; username = "bob"; password_verifier = "hash"; created_at = 0 }

abbrev pub phone : Device
phone = record {
  id = 11;
  account_id = 1;
  display_name = "phone";
  public_identity = [];
  created_at = 0;
  revoked_at = none;
}

abbrev pub talk : Conversation
talk = record { id = 100; kind = "dm"; epoch = 0; last_seq = 2; created_at = 0 }

abbrev pub message : ℕ → ℕ → ℕ → Message
message id seq sender = record {
  id = id;
  conversation_id = 100;
  seq = seq;
  sender_account_id = sender;
  sender_device_id = some 11;
  ciphertext = 7 ∷ [];
  server_ts = 0;
  reply_to = none;
  edited_at = none;
  deleted_at = none;
}

abbrev pub attachment : ℕ → ℕ → Media
attachment id seq = record {
  id = id;
  conversation_id = 100;
  message_id = 201;
  sender_account_id = 1;
  seq = seq;
  kind = "image";
  blob_id = none;
  thumb_blob_id = none;
  mime = none;
  name = none;
  url = none;
  size = none;
  width = none;
  height = none;
  created_at = 0;
}

abbrev pub session : Session
session = record {
  id = 300;
  device_id = 11;
  access_token_hash = 1 ∷ [];
  refresh_token_hash = 2 ∷ [];
  expires_at = 10000;
  revoked_at = none;
  created_at = 0;
}

abbrev pub tables : Tables
tables = record no_tables {
  accounts = alice ∷ bob ∷ [];
  devices = phone ∷ [];
  sessions = session ∷ [];
  conversations = talk ∷ [];
  conversation_members =
      record { conversation_id = 100; account_id = 1 }
      ∷ record { conversation_id = 100; account_id = 2 }
      ∷ [];
  dm_conversations = record { account_lo = 1; account_hi = 2; conversation_id = 100 } ∷ [];
  messages = message 201 1 1 ∷ message 202 2 2 ∷ [];
  media = attachment 401 1 ∷ attachment 402 3 ∷ attachment 403 2 ∷ [];
}

abbrev pub backend : Backend
backend = record { outside = outside; calls = 0; tables = tables }
