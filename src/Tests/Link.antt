-- ===== src/Tests/Link.antt =====
-- The theorems on the serial link, with a port that is a list of bytes to read.
use axi_dma_engine.Base.{
  ℕ, ◌≡◌, refl, List, [], ◌∷◌, ◌++◌, take, drop, arith, err, some, nack, get_or, ap, ◌/◌,
}
use axi_dma_engine.Host.{Serial, Bases, le32, sync_word, build_packet, wait_for_ack}
use axi_dma_engine.Golden.{move}
use axi_dma_engine.Golden.Move.{smem}
use axi_dma_engine.Host.Transfers.{Images, Mirrors}
use axi_dma_engine.Golden.Copied.{AreWords}
use axi_dma_engine.Host.DryRun.{row_errors, row_of, row_errors-move}
use axi_dma_engine.Tests.Demo
use axi_dma_engine.Tests.Witnesses.{out-IsValid, system-IsQuiet, out-Fits}
use axi_dma_engine.Host.Packet.{receive, receive-build_packet}
use axi_dma_engine.Host.Ack.{IsSerial, IsNoise, wait_for_ack-answers}

-- the bytes that are still to be read
abbrev pub port : Serial (List ℕ)
port = record { read = λ n p. (take n p, drop n p); write = λ bytes p. p }

abbrev pub all : List ℕ → List ℕ
all p = p

pub port-IsSerial : IsSerial port all
port-IsSerial = record { read_front = λ n p. refl; read_rest = λ n p. refl }

abbrev bases : Bases
bases = record { csr_base_addr = 0x80000000; smem_base_addr = 0; sram_base_addr = 0 }

-- one stray byte, and the sync word
abbrev pub greeting : List ℕ
greeting = 0xef ∷ 0xef ∷ 0xbe ∷ 0xad ∷ 0xde ∷ []

stray : IsNoise (0xef ∷ [])
stray = ((omega arith, λ e. omega arith), tt)

receive-build_packet_example :
    receive ((le32 sync_word ++ 3 ∷ le32 12 ++ le32 1 ++ 7 ∷ []) ++ 8 ∷ [])
    ≡ some (3, 12, 7 ∷ [], 8 ∷ [])
unfolding build_packet
receive-build_packet_example =
    receive-build_packet 3 12 (7 ∷ []) (8 ∷ []) (omega arith) (omega arith) (omega arith)
      (le32 sync_word ++ 3 ∷ le32 12 ++ le32 1 ++ 7 ∷ []) refl

wait_for_ack-answers_example :
    ((wait_for_ack port 9 (greeting ++ 0xee ∷ 5 ∷ [])).0 ≡ err nack)
    × ((wait_for_ack port 9 (greeting ++ 0xee ∷ 5 ∷ [])).1 ≡ 5 ∷ [])
wait_for_ack-answers_example =
    wait_for_ack-answers port all port-IsSerial 9 0xee (0xef ∷ []) (5 ∷ [])
      (greeting ++ 0xee ∷ 5 ∷ []) stray refl (omega arith)

-- the dictionary of a memory
abbrev image : List ℕ → ℕ → ℕ
image mem addr = get_or mem (addr / 4) 0

abbrev images : Images
images = record {
  sysmem_image = image Demo.words;
  sram_image = λ a. 0;
  csr_writes = λ a. (Demo.csr 2).regs a;
}

demo_words-AreWords : AreWords Demo.words
demo_words-AreWords i = ground (arith)

zeros-AreWords : AreWords (0 ∷ 0 ∷ 0 ∷ 0 ∷ [])
zeros-AreWords i = ground arith

images-Mirrors : Mirrors images (Demo.ring 2)
images-Mirrors = record {
  same_words = λ w. ap (λ k. get_or Demo.words k 0) (omega arith);
  words = demo_words-AreWords;
  same_base = refl;
  same_tail = refl;
}

row_errors-move_example :
    row_errors
      (row_of Demo.desc_out)
      Demo.words
      (smem (move Demo.desc_out Demo.system).1)
      (move Demo.desc_out Demo.system).1.sram.mem
    ≡ 0
row_errors-move_example =
    row_errors-move Demo.desc_out Demo.system out-IsValid system-IsQuiet (refl, out-Fits)
      demo_words-AreWords zeros-AreWords
