-- ===== src/Tests/P2pRuns.antt =====
-- Runs of the protocol's messages.
use pacd.Base.{◌≡◌, refl, arith, List, [], ◌∷◌, ◌++◌, Bytes, replicate}
use pacd.Base.Int.{pos}
use pacd.Base.Result.{ok}
use pacd.P2p.Message.{Message, write_message, read_message}
use pacd.P2p.Message.RoundTrip.{IsMessage, read-write_message}
use pacd.P2p.Version.{Version, serialize_version, deserialize_version}
use pacd.P2p.Version.RoundTrip.{IsVersion, deserialize-serialize_version}
use pacd.P2p.Sync.{InvVector}
use pacd.Tests.{toy_hash, length-toy_hash}

abbrev id : Bytes → Bytes
id b = b

abbrev ping : Message
ping = record { command = 112 ∷ 105 ∷ 110 ∷ 103 ∷ []; payload = 1 ∷ 2 ∷ 3 ∷ [] }

ping-IsMessage : IsMessage toy_hash id ping
ping-IsMessage = record {
  trimmed = refl;
  command_short = omega arith;
  command_nonzero = (omega arith, (omega arith, (omega arith, (omega arith, tt))));
  payload_short = omega arith;
}

read-write_message_example :
    (s : Bytes) × (write_message toy_hash id 77 ping ≡ ok s)
    × (read_message toy_hash id 77 (s ++ (9 ∷ [])) ≡ ok (ping, 9 ∷ []))
read-write_message_example =
    read-write_message toy_hash id 77 ping (9 ∷ []) length-toy_hash (omega arith) ping-IsMessage

abbrev hello : Version
hello = record {
  protocol = 1;
  network = 115 ∷ [];
  genesis_hash = replicate 32 3;
  best_height = 12;
  nonce = 99;
  listen_addr = 58 ∷ 49 ∷ [];
  user_agent = 112 ∷ [];
  timestamp = pos 1700000000;
}

hello-IsVersion : IsVersion hello
hello-IsVersion = record {
  protocol = omega arith;
  network = omega arith;
  genesis_hash = refl;
  best_height = omega arith;
  nonce = omega arith;
  listen_addr = omega arith;
  user_agent = omega arith;
  timestamp = (omega arith, omega arith);
}

deserialize-serialize_version_example : deserialize_version (serialize_version hello) ≡ ok hello
deserialize-serialize_version_example = deserialize-serialize_version hello hello-IsVersion

abbrev hashes : List Bytes
hashes = replicate 32 1 ∷ replicate 32 2 ∷ []

abbrev items : List InvVector
items = record { kind = 2; hash = replicate 32 1 } ∷ []

abbrev addrs : List Bytes
addrs = (58 ∷ 49 ∷ []) ∷ [] ∷ []
