-- ===== src/Modbus/Bank.antt =====
-- apps/agri_station_demo/agri_modbus_tcp.hpp: class RegisterBank. Each method holds the lock from
-- its first line to its last, so a call is one step.
use openember.Prelude.{
  ℕ, zero, suc, ◌+◌, ◌≡◌, ◌&&◌, ◌||◌, List, [], ◌∷◌, Option, none, some, arith, ltb, leb, ◌==◌,
  if◌then◌else◌, length, take, drop, set, get_or, replicate, length-set,
}

abbrev pub Bank : Type 0
Bank = List ℕ

-- The constructor.
abbrev pub new_bank : ℕ → Bank
new_bank count = replicate count 0

-- ReadHolding.
unfoldable pub read_holding : Bank → ℕ → ℕ → Option (List ℕ)
read_holding regs start quantity =
    if quantity == 0 || ltb (length regs) (start + quantity)
    then none
    else some (take quantity (drop start regs))

-- WriteSingle.
unfoldable pub write_single : Bank → ℕ → ℕ → Option Bank
write_single regs address value =
    if leb (length regs) address then none else some (set regs address value)

-- Set.
unfoldable pub set_register : Bank → ℕ → ℕ → Bank
set_register regs address value = if ltb address (length regs) then set regs address value else regs

-- Get.
unfoldable pub get_register : Bank → ℕ → ℕ
get_register regs address = if ltb address (length regs) then get_or regs address 0 else 0

get_or-set :
    (regs : Bank) (i j v : ℕ)
    → get_or (set regs i v) j 0
      ≡ (if ltb i (length regs) then if i == j then v else get_or regs j 0 else get_or regs j 0)
get_or-set [] i j v = ground arith
get_or-set (r ∷ regs) zero zero v = ground arith
get_or-set (r ∷ regs) zero (suc j) v = ground arith
get_or-set (r ∷ regs) (suc i) zero v = ground arith
get_or-set (r ∷ regs) (suc i) (suc j) v = ground (arith, get_or-set regs i j v)

-- WriteSingle accepts exactly the addresses inside the bank, and then does what Set does; a
-- register read after Set holds the new value if it is the one written and lies in the bank, and
-- its old value otherwise.
pub write_single-get_register :
    (regs : Bank) (i v : ℕ)
    → (write_single regs i v ≡ (if ltb i (length regs) then some (set_register regs i v) else none))
      × ((j : ℕ)
          → get_register (set_register regs i v) j
            ≡ (if ltb i (length regs) && i == j then v else get_register regs j))
unfolding write_single get_register set_register
write_single-get_register regs i v =
    (ground arith, λ j. ground (arith, get_or-set regs i j v, length-set regs i v))
