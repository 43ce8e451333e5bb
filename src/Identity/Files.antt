-- ===== src/Identity/Files.antt =====
-- Saving an identity of node/identity.py and loading it again.
use zki_nevod.Base.{◌≡◌, refl}
use zki_nevod.Base.Outcome.{ok}
use zki_nevod.Bytes.{AreBytes}
use zki_nevod.Bytes.Hex.{from_hex-hex}
use zki_nevod.Crypto.{SigningKeypair, EncryptionKeypair}
use zki_nevod.Crypto.Library.{Primitives}
use zki_nevod.Identity.{NodeIdentity, CellIdentity, save_node, save_cell, load_node, load_cell}

-- The keys are byte strings, and the library takes the private ones.
pub record AreKeys (P : Primitives) (s : SigningKeypair) (e : EncryptionKeypair) : Type 0 where
  pub signing_private : AreBytes s.private
  pub signing_public : AreBytes s.public
  pub enc_private : AreBytes e.private
  pub enc_public : AreBytes e.public
  pub signing_accepted : P.ed25519_from_private_bytes s.private ≡ ok s.private
  pub enc_accepted : P.x25519_from_private_bytes e.private ≡ ok e.private

module _ (P : Primitives) where
  -- A node identity whose keys are byte strings that the library takes is read back from the
  -- file as it was saved.
  pub load_node-save_node :
      (i : NodeIdentity) → AreKeys P i.signing i.encryption → load_node P (save_node i) ≡ ok i
  unfolding load_node save_node
  load_node-save_node i k = rw (from_hex-hex i.signing.private k.signing_private) (
      rw k.signing_accepted (
        rw (from_hex-hex i.signing.public k.signing_public) (
          rw (from_hex-hex i.encryption.private k.enc_private)
            (rw k.enc_accepted (rw (from_hex-hex i.encryption.public k.enc_public) refl)))))

  -- A cell identity whose keys are byte strings that the library takes is read back from the
  -- file as it was saved.
  pub load_cell-save_cell :
      (i : CellIdentity) → AreKeys P i.signing i.encryption → load_cell P (save_cell i) ≡ ok i
  unfolding load_cell save_cell
  load_cell-save_cell i k = rw (from_hex-hex i.signing.private k.signing_private) (
      rw k.signing_accepted (
        rw (from_hex-hex i.signing.public k.signing_public) (
          rw (from_hex-hex i.encryption.private k.enc_private)
            (rw k.enc_accepted (rw (from_hex-hex i.encryption.public k.enc_public) refl)))))
