-- ===== src/Examples/Wire.antt =====
-- The theorems on keys, packets, responses and addresses at concrete values.
use zki_nevod.Base.{◌<>◌, ◌≡◌, refl, ◌&&◌, none, some, [], ◌∷◌, if◌then◌else◌, bytes_eq, arith}
use zki_nevod.Base.Outcome.{ok, ◌>>=◌}
use zki_nevod.Bytes.{hex, from_hex}
use zki_nevod.Bytes.Hex.{from_hex-hex}
use zki_nevod.Value.{str, bin}
use zki_nevod.Value.Sample.{sample as codec, sample-IsLawful as codec-IsLawful}
use zki_nevod.Crypto.{sign}
use zki_nevod.Crypto.Sample.{sample as primitives, sample-IsLawful as primitives-IsLawful}
use zki_nevod.Protocol.{RawPacket, raw, typed, pack, unpack, verify_packet}
use zki_nevod.Protocol.Wire.{unpack-pack}
use zki_nevod.Protocol.Signing.{verify_packet_shift}
use zki_nevod.Protocol.Constructors.{Stamp, make_auth_response}
use zki_nevod.Auth.{is_expected, granted, make_response, verify_response}
use zki_nevod.Auth.Soundness.{IsProven, verify_response_sound}
use zki_nevod.Auth.Honest.{verify_response-make_response}
use zki_nevod.Identity.Files.{AreKeys}
use zki_nevod.Router.{parse_addr}
use zki_nevod.Router.Address.{HasNoAt, join_of, join_of-parse_addr}
use zki_nevod.Examples.Data.{signing_one, encryption_two, signing_one-IsSigning, message}

from_hex-hex_example : from_hex (hex (10 ∷ 255 ∷ [])) ≡ ok (10 ∷ 255 ∷ [])
from_hex-hex_example = from_hex-hex (10 ∷ 255 ∷ []) (omega arith, (omega arith, tt))

unpack-pack_example : (unpack codec (pack codec (raw message)) >>= typed) ≡ ok message
unpack-pack_example = unpack-pack codec codec-IsLawful message (omega arith) (omega arith)

verify_packet_shift_example :
    verify_packet codec primitives (raw (record message { to_addr = "c" <> "@01" })) (1 ∷ [])
    ≡ verify_packet codec primitives
        (raw (record message { from_addr = "02" <> "c"; to_addr = "@01" }))
        (1 ∷ [])
verify_packet_shift_example = verify_packet_shift codec primitives message "c" "@01" (1 ∷ [])

keys : AreKeys primitives signing_one encryption_two
unfolding primitives
keys = record {
  signing_private = (omega arith, tt);
  signing_public = (omega arith, tt);
  enc_private = (omega arith, tt);
  enc_public = (omega arith, tt);
  signing_accepted = refl;
  enc_accepted = refl;
}

c-HasNoAt : HasNoAt "c"
c-HasNoAt = ((λ same. absurd (omega (arith, same))), tt)

join_of-parse_addr_example : join_of (parse_addr "c@01").0 (parse_addr "c@01").1 ≡ "c@01"
join_of-parse_addr_example = join_of-parse_addr "c@01"

abbrev stamp : Stamp
stamp = record { id = "r1"; ts = 4 }

response : RawPacket
response =
    make_auth_response codec stamp "01" (str "02") (bin (7 ∷ []))
      (sign primitives (7 ∷ []) signing_one) (1 ∷ []) (2 ∷ [])

responds :
    make_response codec primitives stamp "01" (str "02") (bin (7 ∷ [])) signing_one encryption_two
    ≡ ok response
unfolding make_response response
responds = refl

verify_response-make_response_example :
    verify_response codec primitives response (7 ∷ []) (some "01")
    ≡ ok (
        if bytes_eq (7 ∷ []) (7 ∷ []) && is_expected (some "01") (hex (1 ∷ []))
        then some (granted (1 ∷ []) (bin (2 ∷ [])))
        else none)
verify_response-make_response_example =
    verify_response-make_response codec primitives codec-IsLawful primitives-IsLawful stamp "01"
      (str "02") (7 ∷ []) (7 ∷ []) signing_one encryption_two (some "01") signing_one-IsSigning
      responds

accepted :
    verify_response codec primitives response (7 ∷ []) none
    ≡ ok (some (granted (1 ∷ []) (bin (2 ∷ []))))
unfolding is_expected
accepted =
    verify_response-make_response codec primitives codec-IsLawful primitives-IsLawful stamp "01"
      (str "02") (7 ∷ []) (7 ∷ []) signing_one encryption_two none signing_one-IsSigning responds

verify_response_sound_example : IsProven primitives (7 ∷ []) none (granted (1 ∷ []) (bin (2 ∷ [])))
verify_response_sound_example =
    verify_response_sound codec primitives response (7 ∷ []) none accepted
