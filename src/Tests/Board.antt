-- ===== src/Tests/Board.antt =====
-- The loop of firmware&local/uart_read_write.c on memories of 4096 words, as a far side that runs.
use axi_dma_engine.Base.{ℕ, ◌+◌, ◌%◌, ◌^◌, refl, List, [], ◌∷◌, arith, ◌==◌, if◌then◌else◌}
use axi_dma_engine.Text.{codes}
use axi_dma_engine.Host.{Serial}
use axi_dma_engine.HostRunner.FarSide.{IsDevice}
use axi_dma_engine.Viz.{Region}
use axi_dma_engine.Firmware.{Hardware, Message, send_ack, cmd_nack}
use axi_dma_engine.Firmware.Serves.{Link, IsBus, link, sent, held_words, link-IsDevice}

abbrev total : List ℕ → ℕ
total [] = 0
total (w ∷ ws) = w + total ws

-- a checksum
abbrev pub sum32 : List ℕ → ℕ
sum32 ws = total ws % 2 ^ 32

abbrev size : Region → ℕ
size r = 4096

abbrev print : Message → List ℕ
print m = codes "served\r\n"

abbrev out32 : ℕ → ℕ → Hardware (ℕ → ℕ) → Hardware (ℕ → ℕ)
out32 a v h = record h { rest = λ k. if k == a then v else h.rest k }

abbrev in32 : ℕ → Hardware (ℕ → ℕ) → ℕ
in32 a h = h.rest a

-- RUN_DMA is refused.
abbrev engine : Hardware (ℕ → ℕ) → List ℕ × Hardware (ℕ → ℕ)
engine h = (send_ack cmd_nack, h)

abbrev bus : IsBus size sum32 print out32
bus = record {
  longest = 8;
  prints_text = λ m. ground arith;
  prints_short = λ m. omega arith;
  addressable = λ r. omega arith;
  sum_word = λ ws. omega arith;
  setting_keeps = λ o v h s. refl;
}

abbrev pub Board : Type 0
Board = Link (ℕ → ℕ)

abbrev pub board : Serial Board
board = link size sum32 print out32 in32 engine

abbrev pub on_line : Board → List ℕ
on_line = sent size sum32 print out32 in32 engine

abbrev pub words_at : Board → Region → ℕ → ℕ
words_at = held_words size sum32 print out32 in32 engine

abbrev pub board-IsDevice : IsDevice board on_line sum32 words_at
board-IsDevice = link-IsDevice size sum32 print out32 in32 engine bus

-- a quiet board whose memories have these words
abbrev pub board_of : (Region → ℕ → ℕ) → Board
board_of ram = record { out = []; hardware = record { ram = ram; rest = λ a. 0 } }
