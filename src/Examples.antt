-- ===== src/Examples.antt =====
-- Two users on the toy platform, and the tests and instances that run on them.
pub mod Agreement
pub mod Ratchets
pub mod Boxes
pub mod Stores
pub mod Worlds
pub mod Models
pub mod Clients
pub mod Transfers
use bachelor_s_thesis.Base.{Bytes, Text, codes, replicate, [], ◌∷◌}
use bachelor_s_thesis.Base.Int.{pos}
use bachelor_s_thesis.Platform.Toy.{toy}
use bachelor_s_thesis.Ratchet.Session.{RatchetSession, dh_ratchet}
use bachelor_s_thesis.CryptoBox.State.{CryptoBox, new_box}
use bachelor_s_thesis.CryptoBox.Sessions.{bootstrap_session}

abbrev pub alice_seed : Bytes
alice_seed = replicate 32 1

abbrev pub bob_seed : Bytes
bob_seed = replicate 32 2

abbrev pub spk_seed : Bytes
spk_seed = replicate 32 3

abbrev pub opk_seed : Bytes
opk_seed = replicate 32 4

abbrev pub ek_seed : Bytes
ek_seed = replicate 32 5

abbrev pub ratchet_seed : Bytes
ratchet_seed = replicate 32 6

abbrev pub other_seed : Bytes
other_seed = replicate 32 7

abbrev pub nonce : Bytes
nonce = replicate 24 8

abbrev pub hello : Text
hello = codes "hello"

abbrev pub alice_name : Text
alice_name = codes "alice"

abbrev pub bob_name : Text
bob_name = codes "bob"

-- On the toy platform the public key of 32 bytes is the private one.
abbrev pub alice : CryptoBox
alice = record new_box {
  identity_seed = alice_seed;
  ed_public_key = alice_seed;
  identity_version = 2;
  private_key = alice_seed;
  public_key = alice_seed;
  peer_identity = (bob_name, bob_seed) ∷ [];
}

abbrev pub bob : CryptoBox
bob = record new_box {
  identity_seed = bob_seed;
  ed_public_key = bob_seed;
  identity_version = 2;
  private_key = bob_seed;
  public_key = bob_seed;
  peer_identity = (alice_name, alice_seed) ∷ [];
  spk_priv = spk_seed;
  spk_pub = spk_seed;
  spk_created_ms = pos 1000;
  opk_priv = (7, opk_seed) ∷ [];
  next_opk_id = 8;
}

-- The bootstrap sessions of the two, and Bob's once Alice's first frame has come in, up to the
-- ratchet step.
abbrev pub opener : RatchetSession
opener = bootstrap_session toy alice bob_seed ratchet_seed

abbrev pub answerer : RatchetSession
answerer = bootstrap_session toy bob alice_seed other_seed

abbrev pub stepped : RatchetSession
stepped = dh_ratchet toy answerer opener.dhs_pub other_seed
