-- ===== src/Frame/Tests.antt =====
-- Frames and frame words of MaplePacket::Frame that the theorems are applied to.
use dream_pico_port.Prelude.{◌≡◌, arith}
use dream_pico_port.Frame.{Frame, IsFrame, network, from_word, to_word}
use dream_pico_port.Frame.Words.{from_word-to_word}

abbrev get_condition : Frame
get_condition = record { command = 9; recipient_addr = 0x20; sender_addr = 0; length = 1 }

get_condition-IsFrame : IsFrame get_condition
get_condition-IsFrame = omega arith

from_word-to_word_example : from_word (to_word get_condition network) network ≡ get_condition
from_word-to_word_example = from_word-to_word get_condition network get_condition-IsFrame
