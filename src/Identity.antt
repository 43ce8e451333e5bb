-- ===== src/Identity.antt =====
-- node/identity.py: the identities of nodes and cells, and the JSON file that keeps them. The file is
-- the dict that `json.dump` writes and `json.load` reads, whose values are texts; file names and
-- directories are not modelled.
pub mod Files
use zki_nevod.Base.{String, Option, none, some, []}
use zki_nevod.Base.Outcome.{Result, ok, err, key_error, ◌>>=◌}
use zki_nevod.Base.Dict
use zki_nevod.Base.Dict.{Dict}
use zki_nevod.Bytes.{Bytes, hex, from_hex}
use zki_nevod.Value.{Value, str, obj, empty, field}
use zki_nevod.Crypto.{SigningKeypair, EncryptionKeypair, gen_signing, gen_encryption}
use zki_nevod.Crypto.Library.{Primitives}
use mathlib.Core.List.{◌∷◌}

pub record NodeIdentity : Type 0 where
  pub signing : SigningKeypair
  pub encryption : EncryptionKeypair
  pub address : String
  pub node_type : String
  pub access : String

pub record CellIdentity : Type 0 where
  pub signing : SigningKeypair
  pub encryption : EncryptionKeypair
  pub name : String

unfoldable pub node_id : NodeIdentity → String
node_id i = hex i.signing.public

unfoldable pub cell_id : CellIdentity → String
cell_id i = hex i.signing.public

-- the entries for the two key pairs
abbrev pub key_entries : SigningKeypair → EncryptionKeypair → Dict String → Dict String
key_entries signing encryption rest =
    ("signing_priv", hex signing.private)
    ∷ ("signing_pub", hex signing.public)
    ∷ ("enc_priv", hex encryption.private)
    ∷ ("enc_pub", hex encryption.public)
    ∷ rest

unfoldable pub save_node : NodeIdentity → Dict String
save_node i =
    key_entries i.signing i.encryption
      (("address", i.address) ∷ ("node_type", i.node_type) ∷ ("access", i.access) ∷ [])

unfoldable pub save_cell : CellIdentity → Dict String
save_cell i = key_entries i.signing i.encryption (("name", i.name) ∷ [])

required : Option String → Result String
required none = err key_error
required (some s) = ok s

-- `data[k]`
pub entry : Dict String → String → Result String
unfolding required Dict.get
entry d k = required (Dict.get k d)

text_or : String → Option String → String
text_or default none = default
text_or default (some s) = s

-- `data.get(k, default)`
pub entry_or : Dict String → String → String → String
unfolding text_or Dict.get
entry_or d k default = text_or default (Dict.get k d)

unfoldable pub as_node_entry_dict : NodeIdentity → Value
unfolding node_id
as_node_entry_dict i = obj (
    field "node_id" (str (node_id i)) (
      field "address" (str i.address) (
        field "type" (str i.node_type)
          (field "access" (str i.access) (field "enc_pub" (str (hex i.encryption.public)) empty)))))

module _ (P : Primitives) where
  -- the keys that `generate` draws are arguments
  unfoldable pub generate_node : Bytes → Bytes → String → String → String → NodeIdentity
  unfolding gen_signing gen_encryption
  generate_node signing_priv enc_priv address node_type access = record {
    signing = gen_signing P signing_priv;
    encryption = gen_encryption P enc_priv;
    address = address;
    node_type = node_type;
    access = access;
  }

  unfoldable pub generate_cell : Bytes → Bytes → String → CellIdentity
  unfolding gen_signing gen_encryption
  generate_cell signing_priv enc_priv name = record {
    signing = gen_signing P signing_priv;
    encryption = gen_encryption P enc_priv;
    name = name;
  }

  unfoldable pub load_signing : Dict String → Result SigningKeypair
  unfolding entry
  load_signing d = do
    private_hex ← entry d "signing_priv"
    private_bytes ← from_hex private_hex
    private ← P.ed25519_from_private_bytes private_bytes
    public_hex ← entry d "signing_pub"
    public ← from_hex public_hex
    ok (record { private = private; public = public })

  unfoldable pub load_encryption : Dict String → Result EncryptionKeypair
  unfolding entry
  load_encryption d = do
    private_hex ← entry d "enc_priv"
    private_bytes ← from_hex private_hex
    private ← P.x25519_from_private_bytes private_bytes
    public_hex ← entry d "enc_pub"
    public ← from_hex public_hex
    ok (record { private = private; public = public })

  unfoldable pub load_node : Dict String → Result NodeIdentity
  unfolding entry entry_or load_signing load_encryption
  load_node d = do
    signing ← load_signing d
    encryption ← load_encryption d
    address ← entry d "address"
    ok (record {
      signing = signing;
      encryption = encryption;
      address = address;
      node_type = entry_or d "node_type" "permanent";
      access = entry_or d "access" "closed";
    })

  unfoldable pub load_cell : Dict String → Result CellIdentity
  unfolding entry_or load_signing load_encryption
  load_cell d = do
    signing ← load_signing d
    encryption ← load_encryption d
    ok (record { signing = signing; encryption = encryption; name = entry_or d "name" "" })
