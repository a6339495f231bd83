-- ===== src/Actions/Twt.antt =====
-- src/action_frames/twt.rs: the setup of target wake times.
use oxwifid.Base.{
  ℕ, ◌+◌, ◌*◌, ◌/◌, ◌%◌, not, ◌||◌, Option, none, some, ◌∷◌, Octets, length, take, drop, get_or,
  set, ltb, leb, ◌==◌, if◌then◌else◌,
}
use oxwifid.Actions.{build_action_frame}

abbrev category_s1g : ℕ
category_s1g = 23

abbrev s1g_twt_setup : ℕ
s1g_twt_setup = 6

-- The dialog token and the element, which has to be a request.
unfoldable pub parse_twt_setup : Octets → Option (ℕ × Octets)
parse_twt_setup body =
    let twt = drop 3 body in
    let element_len = get_or twt 1 0 in
    if ltb (length body) 4
      || (not (get_or body 0 0 == category_s1g) || not (get_or body 1 0 == s1g_twt_setup))
    then none
    else if ltb (length twt) 2 || not (get_or twt 0 0 == 216)
    then none
    else if ltb (length twt) (2 + element_len) || ltb element_len 15
    then none
    else if get_or twt 3 0 % 2 == 0
    then none
    else some (get_or body 2 0, take (2 + element_len) twt)

-- The low four bits of the request type become Accept and the zero of a response.
abbrev accepted : Octets → Octets
accepted twt = if leb 5 (length twt) then set twt 3 (get_or twt 3 0 / 16 * 16 + 8) else twt

unfoldable pub build_twt_setup_response : Octets → Octets → ℕ → Octets → ℕ → Octets
build_twt_setup_response bssid sta dialog requested_twt sc =
    build_action_frame sta bssid bssid sc
      (category_s1g ∷ s1g_twt_setup ∷ dialog ∷ accepted requested_twt)
