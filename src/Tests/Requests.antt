-- ===== src/Tests/Requests.antt =====
-- An association request at an access point.
use mathlib.Core.Option
use oxwifid.Base.{drop, ◌++◌, ◌≡◌, refl, arith, true, some, [], ◌∷◌, Octets, replicate}
use oxwifid.Security.{DataCipher}
use DataCipher.{ccmp128}
use oxwifid.Frames.Dot11.{Dot11, parse}
use oxwifid.Frames.Association.{build_assoc_req_for_cipher, with_wmm}
use oxwifid.Frames.Association.Verdict.{Offer}
use oxwifid.Frames.Association.Message2.{message_2_matches}
use oxwifid.Eapol.Messages.{oci_octets}
use oxwifid.Client.Handshake.{supp_rsn}
use oxwifid.AccessPoint.Handshake.Checks.{message_2_security_matches}
use oxwifid.Tests.Station.{station}

abbrev bssid : Octets
bssid = replicate 6 4

abbrev sta : Octets
sta = replicate 6 2

message_2_matches_example :
    Option.map
      (λ (f : Dot11).
        message_2_security_matches
          (drop 4 f.body)
          (supp_rsn station ++ oci_octets (some (115, 36))))
      (parse (with_wmm true true (build_assoc_req_for_cipher bssid sta (97 ∷ 98 ∷ []) 16 ccmp128)))
    ≡ some true
message_2_matches_example =
    message_2_matches station true true (some (115, 36)) bssid sta (97 ∷ 98 ∷ []) 16 refl refl refl
      refl (omega arith) (omega arith)
