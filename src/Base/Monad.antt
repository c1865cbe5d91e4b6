-- ===== src/Base/Monad.antt =====
-- A method call of the software model: the state it leaves, and what it returned or raised. The
-- state comes back after a raise too, since what was written stays written.
use mathlib.Core.Bool.{Bool}
use axi_dma_engine.Base.Tests.{if◌then◌else◌}
use mathlib.Core.Path.{◌≡◌, refl}
use mathlib.Core.Option.{Option, none, some}

-- One constructor for each `raise` of the source that is modelled, and Python's own IndexError.
pub data Error : Type 0 where
  fifo_length fifo_overflow fifo_underflow : Error
  memory_size sram_size index_error : Error
  unaligned read_out_of_bounds write_out_of_bounds : Error
  fetch_too_long df_out_full mid_short mid_full : Error
  ring_length desc_out_of_bounds ring_full no_progress too_many_steps nothing_pending : Error
  axi_stalled sram_stalled too_many_iterations zero_division row_index unknown_op : Error
  struct_error ack_timeout ack_cut nack read_timeout crc_mismatch : Error
  out_of_reads exited type_error value_error negative_number : Error

pub data Result {ℓ} (A : Type ℓ) : Type ℓ where
  ok : A → Result A
  err : Error → Result A

abbrev pub Action {ℓ κ} : Type ℓ → Type κ → Type (ℓ ⊔ κ)
Action S A = S → Result A × S

module _ {ℓ κ} {S : Type ℓ} {A : Type κ} where
  abbrev pub pure : A → Action S A
  pure a s = (ok a, s)

  abbrev pub raise : Error → Action S A
  raise e s = (err e, s)

  abbrev pub gets : (S → A) → Action S A
  gets f s = (ok (f s), s)

  -- A result that was computed without touching the state.
  abbrev pub lift : Result A → Action S A
  lift r s = (r, s)

  abbrev pub or_raise : Option A → Error → Action S A
  or_raise none e s = (err e, s)
  or_raise (some a) e s = (ok a, s)

abbrev pub modify {ℓ} : {S : Type ℓ} → (S → S) → Action S (Unit {0})
modify f s = (ok tt, f s)

abbrev pub raise_if {ℓ} : {S : Type ℓ} → Bool → Error → Action S (Unit {0})
raise_if c e s = (if c then err e else ok tt, s)

abbrev pub and_then {ℓ κ λ'} :
    {S : Type ℓ} {A : Type κ} {B : Type λ'} → (A → Action S B) → Result A × S → Result B × S
and_then f (ok a, s) = f a s
and_then f (err e, s) = (err e, s)

infixl 5 ◌>>=◌ ◌>>◌
abbrev pub ◌>>=◌ {ℓ κ λ'} :
    {S : Type ℓ} {A : Type κ} {B : Type λ'} → Action S A → (A → Action S B) → Action S B
◌>>=◌ m f s = and_then f (m s)

abbrev pub ◌>>◌ {ℓ κ λ'} :
    {S : Type ℓ} {A : Type κ} {B : Type λ'} → Action S A → Action S B → Action S B
m >> k = m >>= λ _. k

-- A call on an object that is one part of a larger state.
abbrev pub zoom {ℓ κ λ'} :
    {S : Type ℓ} {T : Type κ} {A : Type λ'} → (S → T) → (T → S → S) → Action T A → Action S A
zoom view put m s = let (r, t) = m (view s) in (r, put t s)

-- A `do` block that returned: so did its first call.
pub >>=-eq_ok {ℓ κ λ'} :
    {S : Type ℓ} {A : Type κ} {B : Type λ'} (r : Result A × S) (f : A → Action S B) {b : B} {t : S}
    → and_then f r ≡ (ok b, t)
    → (a : A) × (s : S) × (r ≡ (ok a, s)) × (f a s ≡ (ok b, t))
>>=-eq_ok (ok a, s) f h = (a, s, refl, h)
>>=-eq_ok (err e, s) f h = cc

-- A predicate that the first call establishes, and the rest keeps, holds in the end.
pub >>=-keeps {ℓ κ λ' μ} :
    {S : Type ℓ} {A : Type κ} {B : Type λ'} (P : S → Type μ) (r : Result A × S) (f : A → Action S B)
    → P r.1
    → ((a : A) (s : S) → P s → P (f a s).1)
    → P (and_then f r).1
>>=-keeps P (ok a, s) f h k = k a s h
>>=-keeps P (err e, s) f h k = h
