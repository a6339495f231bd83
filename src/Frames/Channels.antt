-- ===== src/Frames/Channels.antt =====
-- src/frames/channels.rs: channel numbers, frequencies and radiotap headers.
use oxwifid.Base.{ℕ, Bool, ltb}

unfoldable pub is_5ghz : ℕ → Bool
is_5ghz channel = ltb 14 channel
