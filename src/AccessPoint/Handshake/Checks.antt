-- ===== src/AccessPoint/Handshake/Checks.antt =====
-- The checks of src/ap/mod.rs and src/ap/handshake.rs on key messages.
use oxwifid.Base.{
  ℕ, ◌+◌, ◌%◌, ◌^◌, Bool, false, ◌&&◌, Option, some, List, [], ◌∷◌, ◌++◌, Octets, length, take,
  drop, leb, ◌==◌, if◌then◌else◌, ◌>>=◌, bytes_eq, replicate,
}
use oxwifid.Security.{Digests, KeyMic, compute}
use oxwifid.Security.EapolKey.{EapolKey, parse}
use oxwifid.Frames.Dot11.{Dot11, eapol_frame, eapol_key_body}
use oxwifid.AccessPoint.State.{PendingHandshake}
use oxwifid.Frames.Elements.{find_ie_strict, find_ie_consistent}
use oxwifid.Rsn.Negotiation.{rsn_negotiation_matches, octets_eq}

-- `key_info & !0xc000 == expected`, where the version is added to the flags.
unfoldable pub key_info_matches : ℕ → ℕ → Bool
key_info_matches key_info expected = key_info % 2 ^ 14 == expected

-- The frame with its MIC field zeroed.
abbrev pub without_mic : ℕ → Octets → Octets
without_mic off frame = take off frame ++ (replicate 16 0 ++ drop (off + 16) frame)

-- Whether the MIC field is inside the frame and holds the MIC under `kck`.
unfoldable pub authentic : Digests → KeyMic → Octets → Octets → EapolKey → Bool
authentic d mic kck frame ek =
    leb (4 + ek.mic_offset + 16) (length frame)
    && bytes_eq (take 16 (compute d mic kck (without_mic (4 + ek.mic_offset) frame))) ek.key_mic

-- The message that a frame holds: the EAPOL frame and its parsed body.
unfoldable pub received_key : Dot11 → Option (Octets × EapolKey)
received_key f = do
  frame ← eapol_frame f
  body ← eapol_key_body f
  ek ← parse body
  some (frame, ek)

-- `self.pending_anonce.remove(&sta)`.
abbrev pub remove_pending :
    Octets → List (Octets × PendingHandshake) → List (Octets × PendingHandshake)
remove_pending sta [] = []
remove_pending sta ((m, p) ∷ rest) =
    if bytes_eq m sta then remove_pending sta rest else (m, p) ∷ remove_pending sta rest

abbrev pub both_match : Option (Option Octets) → Option (Option Octets) → Bool
both_match (some (some assoc_rsn)) (some (some m2_rsn)) = rsn_negotiation_matches assoc_rsn m2_rsn
both_match _ _ = false

abbrev pub both_equal : Option (Option Octets) → Option (Option Octets) → Bool
both_equal (some assoc_rsnxe) (some m2_rsnxe) = octets_eq assoc_rsnxe m2_rsnxe
both_equal _ _ = false

unfoldable pub message_2_security_matches : Octets → Octets → Bool
message_2_security_matches assoc_ies key_data =
    both_match (find_ie_strict assoc_ies 48) (find_ie_strict key_data 48)
    && both_equal (find_ie_consistent assoc_ies 0xf4) (find_ie_consistent key_data 0xf4)
