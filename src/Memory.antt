-- ===== src/Memory.antt =====
-- source/memory.py and source/sram.py: the two word-oriented stores, and Python's indexing of the
-- list of words that both keep. Indices are never negative in the code that is modelled.
pub mod Slices
use axi_dma_engine.Base.{
  ℕ, zero, ◌≡◌, List, Option, none, some, length, get_elem?, set, replicate, ltb, ◌==◌,
  if◌then◌else◌, Result, ok, err, Action, or_raise, memory_size, sram_size, index_error,
}

pub record SystemMemory : Type 0 where
  pub size : ℕ
  pub mem : List ℕ

-- `SystemMemory(size)`
unfoldable pub new_memory : ℕ → Result SystemMemory
new_memory size =
    if size == 0 then err memory_size else ok (record { size = size; mem = replicate size 0 })

abbrev pub bram_size : ℕ
bram_size = 1024

pub record Sram : Type 0 where
  pub size : ℕ
  pub mem : List ℕ

-- `size` after its default
abbrev size_or_default : Option ℕ → ℕ
size_or_default none = bram_size
size_or_default (some size) = size

-- `SRAM(size=None)`
unfoldable pub new_sram : Option ℕ → Result Sram
new_sram o =
    let size = size_or_default o in
    if size == 0 then err sram_size else ok (record { size = size; mem = replicate size 0 })

-- `mem[i]`
unfoldable pub load : ℕ → Action (List ℕ) ℕ
load i mem = or_raise (get_elem? mem i) index_error mem

-- `mem[i] = v`
unfoldable pub store : ℕ → ℕ → Action (List ℕ) (Unit {0})
store i v mem = if ltb i (length mem) then (ok tt, set mem i v) else (err index_error, mem)
