-- ===== src/Node/Identity.antt =====
-- `get_identity` of p2p_messenger_impl.cpp. The key files are OpenDHT's: a store that is written and
-- read by path, `none` is an exception.
use p2p_messenger.Prelude.{◌≡◌, Bool, true, false, Option, some}
use p2p_messenger.Prelude.Bytes.{Bytes}
use p2p_messenger.Prelude.Outcome.{crypto_error, or_throw}
use p2p_messenger.Prelude.Program.{Program, ◌>>=◌, ◌>>◌, lift, modify, read, return}
use p2p_messenger.External.{OpenDht}

-- `dht::crypto::loadIdentity`, `saveIdentity`, and one run's draw of `generateIdentity`.
pub record KeyFiles (D : OpenDht) : Type 1 where
  pub Files : Type 0
  pub load_identity : Bytes → Files → Option D.PrivateKey
  pub save_identity : D.PrivateKey → Bytes → Files → Files
  pub generated : Files → D.PrivateKey

-- What was saved under a path is loaded from there.
pub record IsLawfulKeyFiles (D : OpenDht) (K : KeyFiles D) : Type 0 where
  pub load_identity-save_identity :
      (key : D.PrivateKey) (path : Bytes) (files : K.Files)
      → K.load_identity path (K.save_identity key path files) ≡ some key

module _ (D : OpenDht) (K : KeyFiles D) where
  unfoldable pub get_identity : Bool → Bytes → Program K.Files D.PrivateKey
  get_identity true crypto_identity_path = do
    identity ← read K.generated
    modify (K.save_identity identity crypto_identity_path)
    return identity
  get_identity false crypto_identity_path = do
    loaded ← read (K.load_identity crypto_identity_path)
    lift (or_throw loaded crypto_error)

  -- A node that is started again with the path at which its identity was generated has the same key.
  pub get_identity_again :
      (L : IsLawfulKeyFiles D K) (path : Bytes) (files : K.Files)
      → let (first, later) = get_identity true path files in
        get_identity false path later ≡ (first, later)
  unfolding get_identity
  get_identity_again L path files =
      rw (L.load_identity-save_identity (K.generated files) path files)
