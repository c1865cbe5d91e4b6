-- ===== src/Host/Packet.antt =====
-- firmware&local/serial_host.py: a packet, as a receiver reads it.
use axi_dma_engine.Base.{
  ℕ, ◌+◌, ◌*◌, ◌%◌, ◌/◌, ◌^◌, ◌<◌, ◌≡◌, refl, ap, List, [], ◌∷◌, ◌++◌, length, take, drop, arith,
  ok, Option, none, some, ◌==◌, if◌then◌else◌,
}
use axi_dma_engine.Host.{build_packet, le32, sync_word, unpack_word}

pub unpack_word-le32 : (v : ℕ) → v < 2 ^ 32 → unpack_word (le32 v) ≡ ok v
unpack_word-le32 v h = ap ok (omega arith)

-- a packet read from a stream of bytes: opcode, address, payload, and the bytes behind it
abbrev word_of : ℕ → ℕ → ℕ → ℕ → ℕ
word_of a b c d = a + b * 2 ^ 8 + c * 2 ^ 16 + d * 2 ^ 24

abbrev pub receive : List ℕ → Option (ℕ × ℕ × List ℕ × List ℕ)
receive (s0 ∷ s1 ∷ s2 ∷ s3 ∷ opcode ∷ a0 ∷ a1 ∷ a2 ∷ a3 ∷ n0 ∷ n1 ∷ n2 ∷ n3 ∷ bytes) =
    if word_of s0 s1 s2 s3 == sync_word
    then some (
      opcode,
      word_of a0 a1 a2 a3,
      take (word_of n0 n1 n2 n3) bytes,
      drop (word_of n0 n1 n2 n3) bytes,
    )
    else none
receive bytes = none

pub take-append : (xs ys : List ℕ) → take (length xs) (xs ++ ys) ≡ xs
take-append [] ys = refl
take-append (x ∷ xs) ys = ap (λ l. x ∷ l) (take-append xs ys)

drop-append : (xs ys : List ℕ) → drop (length xs) (xs ++ ys) ≡ ys
drop-append [] ys = refl
drop-append (x ∷ xs) ys = drop-append xs ys

word_of-le32 :
    (v : ℕ)
    → v < 2 ^ 32
    → word_of (v % 2 ^ 8) (v / 2 ^ 8 % 2 ^ 8) (v / 2 ^ 16 % 2 ^ 8) (v / 2 ^ 24 % 2 ^ 8) ≡ v
word_of-le32 v h = omega arith

pub build_packet_lem :
    (opcode address : ℕ) (payload : List ℕ)
    → opcode < 2 ^ 8
    → address < 2 ^ 32
    → length payload < 2 ^ 32
    → build_packet opcode address payload
      ≡ ok (le32 sync_word ++ opcode ∷ le32 address ++ le32 (length payload) ++ payload)
unfolding build_packet
build_packet_lem opcode address payload ho ha hp = ground arith

-- A receiver that reads a packet off the front of a stream, by the sync word, the address and the
-- length in little-endian order, gets the fields that were packed and the bytes behind the packet,
-- for an opcode of 8 bits and an address and a length of 32 bits.
pub receive-build_packet :
    (opcode address : ℕ) (payload rest : List ℕ)
    → opcode < 2 ^ 8
    → address < 2 ^ 32
    → length payload < 2 ^ 32
    → (packet : List ℕ) → build_packet opcode address payload ≡ ok packet
    → receive (packet ++ rest) ≡ some (opcode, address, payload, rest)
receive-build_packet opcode address payload rest ho ha hp packet e =
    let same : packet
        ≡ le32 sync_word ++ opcode ∷ le32 address ++ le32 (length payload) ++ payload =
      cc (e, build_packet_lem opcode address payload ho ha hp) in
    rw
      (
        same,
        word_of-le32 address ha,
        word_of-le32 (length payload) hp,
        take-append payload rest,
        drop-append payload rest,
      )
      refl
