-- ===== src/Firmware/Serves.antt =====
-- firmware&local/uart_read_write.c as the far side of the hosts' link.
use mathlib.Core.Path.{fun_ext, ap₂}
use mathlib.Core.List.{append-nil}
use native.Mathlib.Nat.{mod-eq_of_lt}
use axi_dma_engine.Base.{
  ℕ, zero, suc, ◌+◌, ◌*◌, ◌/◌, ◌%◌, ◌^◌, ◌<◌, ◌≤◌, ◌≡◌, refl, ap, sym, ◌∙◌, List, [], ◌++◌, length,
  take, drop, arith, ltb, ◌==◌, ◌&&◌, if◌then◌else◌, inl, inr,
}
use axi_dma_engine.Base.Words.{mask}
use axi_dma_engine.Host.{Serial, le32}
use axi_dma_engine.Host.Ack.{IsNoise}
use axi_dma_engine.Host.Access.{packet}
use axi_dma_engine.Host.Transfers.{expected}
use axi_dma_engine.Viz.{Region}
use axi_dma_engine.HostRunner.{csr_base}
use axi_dma_engine.HostRunner.Session.{read_op, crc_op}
use axi_dma_engine.HostRunner.FarSide.{
  reply, ack, poke, write_op, Spoken, Inside, IsSetting, IsDevice,
}
use axi_dma_engine.Firmware.{
  Hardware, Message, Parser, payload_word, index, read, write, range, process, serve,
}

-- The link: the bytes that were sent and not yet read, and the hardware.
pub record Link (C : Type 0) : Type 0 where
  pub out : List ℕ
  pub hardware : Hardware C

payload_word-le32 : (v : ℕ) → v < 2 ^ 32 → payload_word (le32 v) ≡ v
payload_word-le32 v h = omega arith

-- What the loop relies on. xil_printf prints text, of at most `longest` bytes, none of which is the
-- last byte of the sync word. The sizes are below 2 ^ 30 words. The registers BASEADDR, RINGLEN and
-- TAIL are stored by csr.sv, and start nothing.
pub record IsBus {C : Type 0} (size : Region → ℕ) (crc32 : List ℕ → ℕ) (print : Message → List ℕ)
    (out32 : ℕ → ℕ → Hardware C → Hardware C) : Type 0 where
  pub longest : ℕ
  pub prints_text : (m : Message) → IsNoise (print m)
  pub prints_short : (m : Message) → length (print m) ≤ longest
  pub addressable : (r : Region) → size r ≤ 2 ^ 30
  pub sum_word : (ws : List ℕ) → crc32 ws < 2 ^ 32
  pub setting_keeps :
      (o v : ℕ) (h : Hardware C) → IsSetting o → (out32 (csr_base + o) v h).ram ≡ h.ram

module _ {C : Type 0} (size : Region → ℕ) (crc32 : List ℕ → ℕ) (print : Message → List ℕ)
    (out32 : ℕ → ℕ → Hardware C → Hardware C) (in32 : ℕ → Hardware C → ℕ)
    (engine : Hardware C → List ℕ × Hardware C) where
  abbrev pub link : Serial (Link C)
  link = record {
    read = λ n b. (take n b.out, record b { out = drop n b.out });
    write = λ bytes b.
        let r = serve size crc32 print out32 in32 engine (Parser.wait_sync 0) bytes b.hardware in
        record { out = b.out ++ r.0; hardware = r.1 };
  }

  abbrev pub sent : Link C → List ℕ
  sent b = b.out

  -- The whole words inside the memories, by byte address, and 0 elsewhere.
  abbrev pub held_words : Link C → Region → ℕ → ℕ
  held_words b r a =
      if (a % 4 == 0) && ltb (a / 4) (size r) then mask 32 (b.hardware.ram r (a / 4)) else 0

  abbrev serving : ℕ → ℕ → List ℕ → Hardware C → List ℕ × Hardware C
  serving = process size crc32 print out32 in32 engine

  serve-packet :
      (op a : ℕ) (h : Hardware C)
      → a < 2 ^ 32
      → serve size crc32 print out32 in32 engine (Parser.wait_sync 0) (packet op a []) h
        ≡ serving op a [] h
  serve-packet op a h small =
      rw (payload_word-le32 a small)
        (ap (λ l. (l, (serving op a [] h).1)) (append-nil (serving op a [] h).0))

  serve-packet_word :
      (op a v : ℕ) (h : Hardware C)
      → a < 2 ^ 32
      → serve size crc32 print out32 in32 engine (Parser.wait_sync 0) (packet op a (le32 v)) h
        ≡ serving op a (le32 v) h
  serve-packet_word op a v h small =
      rw (payload_word-le32 a small)
        (ap (λ l. (l, (serving op a (le32 v) h).1)) (append-nil (serving op a (le32 v) h).0))

  module _ (bus : IsBus size crc32 print out32) where
    spoken :
        (m : Message) (out bytes : List ℕ) → out ≡ print m ++ bytes → Spoken bus.longest out bytes
    spoken m out bytes e = record {
      text = print m;
      is_noise = bus.prints_text m;
      short = bus.prints_short m;
      whole = e;
    }

    index_lem : (r : Region) (a : ℕ) → a / 4 < size r → index size r a ≡ a / 4
    index_lem r a h = mod-eq_of_lt h

    seen :
        (r : Region) (a : ℕ) (b : Link C)
        → Inside (size r) a 1
        → held_words b r a ≡ read size r a b.hardware
    seen r a b h =
        let e = index_lem r a (omega (arith, h)) in
        let low : (a / 4 < size r) = omega (arith, h) in rw e (ground (arith, h.0, low))

    -- A reply that leaves the hardware as it is, and what it leaves.
    abbrev Replies : (b q : Link C) → List ℕ → (Region → ℕ → ℕ) → Type 0
    Replies b q bytes m = Spoken bus.longest (sent q) bytes × (held_words q ≡ m)

    replied :
        (bytes rep : List ℕ) (b : Link C) (m : Message) (h : Hardware C) (w : Region → ℕ → ℕ)
        → sent b ≡ []
        → serve size crc32 print out32 in32 engine (Parser.wait_sync 0) bytes b.hardware
          ≡ (print m ++ rep, h)
        → held_words (record { out = print m ++ rep; hardware = h }) ≡ w
        → Replies b (link.write bytes b) rep w
    replied bytes rep b m h w quiet e k =
        let q : link.write bytes b ≡ record { out = print m ++ rep; hardware = h } =
          ap₂ (λ x (r : List ℕ × Hardware C). record { out = x ++ r.0; hardware = r.1 }) quiet e in
        (spoken m _ _ (ap sent q), ap held_words q ∙ k)

    pub link-on_read :
        (r : Region) (a : ℕ) (b : Link C)
        → a < 2 ^ 32
        → Inside (size r) a 1
        → sent b ≡ []
        → Replies b
            (link.write (packet (read_op r) a []) b)
            (reply (held_words b r a))
            (held_words b)
    unfolding process
    link-on_read Region.sram a b small inside quiet =
        let e = serve-packet 6 a b.hardware small in
        let v = read size Region.sram a b.hardware in
        let same = ap reply (sym (seen Region.sram a b inside)) in
        replied (packet 6 a []) (reply (held_words b Region.sram a)) b
          (Message.was_read Region.sram v a) b.hardware (held_words b) quiet
          (e ∙ ap (λ l. (print (Message.was_read Region.sram v a) ++ l, b.hardware)) same) refl
    link-on_read Region.smem a b small inside quiet =
        let e = serve-packet 7 a b.hardware small in
        let v = read size Region.smem a b.hardware in
        let same = ap reply (sym (seen Region.smem a b inside)) in
        replied (packet 7 a []) (reply (held_words b Region.smem a)) b
          (Message.was_read Region.smem v a) b.hardware (held_words b) quiet
          (e ∙ ap (λ l. (print (Message.was_read Region.smem v a) ++ l, b.hardware)) same) refl

    range-expected :
        (r : Region) (a w n : ℕ) (b : Link C)
        → a % 4 ≡ 0
        → a / 4 + (w + n) ≤ size r
        → expected (held_words b r) (a + w * 4) n ≡ range size r a w n b.hardware
    unfolding expected range
    range-expected r a w zero b whole fits = refl
    range-expected r a w (suc n) b whole fits =
        let high = bus.addressable r in
        let next : a + w * 4 + 4 ≡ a + (w + 1) * 4 = omega arith in
        let low : mask 32 (a + w * 4) ≡ a + w * 4 = omega (arith, high, fits, whole) in
        let first = seen r (a + w * 4) b (omega (arith, whole), omega (arith, whole, fits)) in
        rw (next, low, first, range-expected r a (w + 1) n b whole (omega (arith, fits))) refl

    summed_lem :
        (r : Region) (a n : ℕ) (b : Link C)
        → n * 4 < 2 ^ 32
        → Inside (size r) a n
        → crc32 (range size r a 0 (payload_word (le32 (n * 4)) / 4) b.hardware)
          ≡ crc32 (expected (held_words b r) a n)
    summed_lem r a n b short inside =
        let len : payload_word (le32 (n * 4)) / 4 ≡ n =
          omega (arith, payload_word-le32 (n * 4) short) in
        let at_a : a + 0 * 4 ≡ a = omega arith in
        let words = range-expected r a 0 n b inside.0 (omega (arith, inside)) in
        ap (λ k. crc32 (range size r a 0 k b.hardware)) len
        ∙ ap crc32 (sym words)
        ∙ ap (λ k. crc32 (expected (held_words b r) k n)) at_a

    pub link-on_crc :
        (r : Region) (a n : ℕ) (b : Link C)
        → a < 2 ^ 32
        → n * 4 < 2 ^ 32
        → Inside (size r) a n
        → sent b ≡ []
        → Replies b
            (link.write (packet (crc_op r) a (le32 (n * 4))) b)
            (reply (crc32 (expected (held_words b r) a n)))
            (held_words b)
    unfolding process
    link-on_crc Region.sram a n b small short inside quiet =
        let e = serve-packet_word 8 a (n * 4) b.hardware small in
        let len = payload_word (le32 (n * 4)) in
        let crc = crc32 (range size Region.sram a 0 (len / 4) b.hardware) in
        let m = Message.summed Region.sram a len crc in
        let same = ap reply (summed_lem Region.sram a n b short inside) in
        replied (packet 8 a (le32 (n * 4))) _ b m b.hardware (held_words b) quiet
          (e ∙ ap (λ l. (print m ++ l, b.hardware)) same) refl
    link-on_crc Region.smem a n b small short inside quiet =
        let e = serve-packet_word 9 a (n * 4) b.hardware small in
        let len = payload_word (le32 (n * 4)) in
        let crc = crc32 (range size Region.smem a 0 (len / 4) b.hardware) in
        let m = Message.summed Region.smem a len crc in
        let same = ap reply (summed_lem Region.smem a n b short inside) in
        replied (packet 9 a (le32 (n * 4))) _ b m b.hardware (held_words b) quiet
          (e ∙ ap (λ l. (print m ++ l, b.hardware)) same) refl

    -- The words inside the memories after a word was written.
    held-write :
        (r : Region) (a v : ℕ) (out : List ℕ) (b : Link C)
        → v < 2 ^ 32
        → Inside (size r) a 1
        → held_words (record { out = out; hardware = write size r a v b.hardware })
          ≡ poke r a v (held_words b)
    held-write Region.sram a v out b small inside =
        let e = index_lem Region.sram a (omega (arith, inside)) in
        fun_ext (elim [
          | Region.sram ↦ fun_ext (λ k. rw e (ground (arith, small, inside)))
          | Region.smem ↦ refl
        ])
    held-write Region.smem a v out b small inside =
        let e = index_lem Region.smem a (omega (arith, inside)) in
        fun_ext (elim [
          | Region.smem ↦ fun_ext (λ k. rw e (ground (arith, small, inside)))
          | Region.sram ↦ refl
        ])

    pub link-on_write :
        (r : Region) (a v : ℕ) (b : Link C)
        → a < 2 ^ 32
        → v < 2 ^ 32
        → Inside (size r) a 1
        → sent b ≡ []
        → Replies b (link.write (packet (write_op r) a (le32 v)) b) ack (poke r a v (held_words b))
    unfolding process
    link-on_write Region.sram a v b small word inside quiet =
        let e = serve-packet_word 1 a v b.hardware small in
        let x = payload_word (le32 v) in
        let same = payload_word-le32 v word in
        let m = Message.wrote Region.sram x a in
        replied (packet 1 a (le32 v)) ack b m (write size Region.sram a x b.hardware)
          (poke Region.sram a v (held_words b)) quiet e
          (ap
              (λ y.
                held_words (record {
                  out = print m ++ ack;
                  hardware = write size Region.sram a y b.hardware;
                }))
              same
            ∙ held-write Region.sram a v (print m ++ ack) b word inside)
    link-on_write Region.smem a v b small word inside quiet =
        let e = serve-packet_word 2 a v b.hardware small in
        let x = payload_word (le32 v) in
        let same = payload_word-le32 v word in
        let m = Message.wrote Region.smem x a in
        replied (packet 2 a (le32 v)) ack b m (write size Region.smem a x b.hardware)
          (poke Region.smem a v (held_words b)) quiet e
          (ap
              (λ y.
                held_words (record {
                  out = print m ++ ack;
                  hardware = write size Region.smem a y b.hardware;
                }))
              same
            ∙ held-write Region.smem a v (print m ++ ack) b word inside)

    pub link-on_csr_write :
        (o v : ℕ) (b : Link C)
        → IsSetting o
        → v < 2 ^ 32
        → sent b ≡ []
        → Replies b (link.write (packet 3 (csr_base + o) (le32 v)) b) ack (held_words b)
    unfolding process
    link-on_csr_write o v b s word quiet =
        let low : csr_base + o < 2 ^ 32 = elim s [
          | inl e ↦ omega (arith, e)
          | inr t ↦ elim t [ inl e ↦ omega (arith, e) | inr e ↦ omega (arith, e) ]
        ] in
        let e = serve-packet_word 3 (csr_base + o) v b.hardware low in
        let x = payload_word (le32 v) in
        let h = out32 (csr_base + o) x b.hardware in
        let m = Message.wrote_csr x (csr_base + o) in
        replied (packet 3 (csr_base + o) (le32 v)) ack b m h (held_words b) quiet e (
          ap
            (λ ram (r : Region) (a : ℕ).
              if (a % 4 == 0) && ltb (a / 4) (size r) then mask 32 (ram r (a / 4)) else 0)
            (bus.setting_keeps o x b.hardware s))

    -- The loop serves the commands, whatever is behind the registers, on memories of at most 2 ^ 30
    -- words each, when xil_printf prints text without the last byte of the sync word, and a write
    -- of BASEADDR, RINGLEN or TAIL leaves the memories alone.
    abbrev pub link-IsDevice : IsDevice link sent crc32 held_words
    link-IsDevice = record {
      longest = bus.longest;
      words = size;
      serial = record { read_front = λ n b. refl; read_rest = λ n b. refl };
      read_keeps = λ n b. refl;
      word_size = λ r a b. ground arith;
      crc_size = bus.sum_word;
      on_read = link-on_read;
      on_crc = link-on_crc;
      on_write = link-on_write;
      on_csr_write = link-on_csr_write;
    }
